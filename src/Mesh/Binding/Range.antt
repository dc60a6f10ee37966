-- ===== src/Mesh/Binding/Range.antt =====
-- mesh/state_binding.c: targets against the range of the lightness, and Level against Lightness.
use zephyr_samples.Base.{ℕ, ◌≤◌, ◌<◌, ◌≡◌, ◌⊎◌, refl, ap, ◌∙◌, arith}
use zephyr_samples.Base.Int.{ℤ, pos, negsuc, ◌≤ℤ◌, ◌-ℤ◌, ◌+ℤ◌}
use zephyr_samples.Base.Words.{to_s16, to_u16, to_s16_fits}
use zephyr_samples.Mesh.State.{App, LightCtl, Lightness, StateBinding, level_light}
use zephyr_samples.Mesh.Storage.{save_on_flash}
use zephyr_samples.Mesh.Binding.{constrain_lightness, store_target, set_target, get_target}

-- Off, or within the range.
abbrev pub InRange : Lightness → ℕ → Type 0
InRange l x = (x ≡ 0) ⊎ ((l.range_min ≤ x) × (x ≤ l.range_max))

-- A lightness is held to the nearest value that the range allows: 0 stays 0, a value in the range
-- stays, and any other goes to the end of the range that it is beyond.
pub constrain_lightness_lem :
    (l : Lightness) (x : ℕ)
    → 0 < l.range_min
    → l.range_min ≤ l.range_max
    → InRange l (constrain_lightness l x)
      × (InRange l x → constrain_lightness l x ≡ x)
      × (0 < x → x < l.range_min → constrain_lightness l x ≡ l.range_min)
      × (l.range_max < x → constrain_lightness l x ≡ l.range_max)
unfolding constrain_lightness
constrain_lightness_lem l x h1 h2 =
    (ground arith, λ p. ground arith, λ p q. ground arith, λ p. ground arith)

pub ctl-set_target :
    (b : StateBinding) (v : ℤ) (w : App) → (set_target b v w).ctl ≡ (store_target b v w).ctl
unfolding set_target save_on_flash
ctl-set_target b v w = ground arith

-- A level in the range of s16_t, moved up by 32768 and back.
level_shift :
    (v : ℤ)
    → negsuc 32767 ≤ℤ v
    → v ≤ℤ pos 32767
    → to_s16 (pos (to_u16 (v -ℤ negsuc 32767)) +ℤ negsuc 32767) ≡ v
unfolding ◌+ℤ◌ ◌-ℤ◌
level_shift v lo hi = ground arith

get_target_level :
    (w : App) → get_target level_light w ≡ to_s16 (pos w.ctl.light.target +ℤ negsuc 32767)
unfolding get_target
get_target_level w = refl

set_target_level :
    (v : ℤ) (w : App)
    → (set_target level_light v w).ctl.light.target
      ≡ constrain_lightness w.ctl.light (to_u16 (to_s16 v -ℤ negsuc 32767))
unfolding store_target
set_target_level v w = ap (λ (c : LightCtl). c.light.target) (ctl-set_target level_light v w)

-- A Level whose lightness is off or in the range is read back as it was set.
pub get_target-set_target_level :
    (v : ℤ) (w : App)
    → negsuc 32767 ≤ℤ v
    → v ≤ℤ pos 32767
    → 0 < w.ctl.light.range_min
    → w.ctl.light.range_min ≤ w.ctl.light.range_max
    → InRange w.ctl.light (to_u16 (v -ℤ negsuc 32767))
    → get_target level_light (set_target level_light v w) ≡ v
get_target-set_target_level v w lo hi h1 h2 allowed =
    let l = w.ctl.light in
    let read : to_s16 v ≡ v = to_s16_fits v lo hi in
    let kept : constrain_lightness l (to_u16 (v -ℤ negsuc 32767)) ≡ to_u16 (v -ℤ negsuc 32767) =
      (constrain_lightness_lem l _ h1 h2).1 allowed in
    let stored =
      set_target_level v w
      ∙ (ap (λ (z : ℤ). constrain_lightness l (to_u16 (z -ℤ negsuc 32767))) read ∙ kept) in
    get_target_level (set_target level_light v w)
    ∙ (ap (λ (t : ℕ). to_s16 (pos t +ℤ negsuc 32767)) stored ∙ level_shift v lo hi)
