-- ===== src/Mesh/Storage/Restore.antt =====
-- storage.c: `ps_set` key by key, and a range saved and read back.
use zephyr_samples.Base.{
  ℕ, zero, suc, ◌+◌, ◌*◌, ◌%◌, ◌<◌, ◌≡◌, refl, ap, ◌∙◌, Bool, true, false, ◌==◌, ◌&&◌, not, List,
  [], ◌∷◌, length, some, arith,
}
use zephyr_samples.Base.Int.{ℤ, pos}
use zephyr_samples.Base.Bits.{bit_or_shifted}
use zephyr_samples.Mesh.State.{App, LightCtl, lr, tr}
use zephyr_samples.Mesh.Storage.{
  pack_range, save_lightness_range, save_temperature_range, lightness_range, temperature_range,
}
use zephyr_samples.Mesh.Storage.Flash.{stored, saved}
use zephyr_samples.Mesh.Storage.Load.{
  Reader, ps_set, key_rc, key_gdtt, key_gpo, key_ld, key_td, key_dd, key_ll, key_llt, key_tlt,
  key_dlt, key_lr, key_tr, set_rc, set_gdtt, set_gpo, set_ld, set_td, set_dd, set_ll, set_llt,
  set_tlt, set_dlt, set_lr, set_tr,
}
use zephyr_samples.Mesh.Light.{retrieve_ranges}

-- Two strings agree in their first `n` characters; a string ends where its list does.
abbrev pub same_prefix : List ℕ → List ℕ → ℕ → Bool
same_prefix s t zero = true
same_prefix [] [] (suc n) = true
same_prefix [] (b ∷ t) (suc n) = false
same_prefix (a ∷ s) [] (suc n) = false
same_prefix (a ∷ s) (b ∷ t) (suc n) = a == b && same_prefix s t n

-- A key of one part: `settings_name_next` stops at '/' and at '='.
abbrev pub one_part : List ℕ → Bool
one_part [] = true
one_part (c ∷ s) = not (c == b'/') && (not (c == b'=') && one_part s)

-- The documented behaviour of what `ps_set` calls, where the value that is stored under the key is
-- `v`: `settings_name_next` finds a key of one part whole and no more, `strncmp` compares prefixes,
-- and the callback fills the variable.
pub record Serves (r : Reader) (v : ℕ) : Type 0 where
  pub whole : (key : List ℕ) → one_part key ≡ true → r.name_next key ≡ (length key, true)
  pub compares : r.strncmp_zero ≡ same_prefix
  pub reads : r.read_cb ≡ (λ size. (pos size, some v))

-- Each of the keys but "ll" restores its own variable and no other. The key "ll" restores the last
-- lightness, and stores the same value in the target lightness too: "ll" is a prefix of "llt", and
-- the comparison with "llt" stops at the length of the key.
pub ps_set_lem :
    (r : Reader) (v : ℕ) (w : App)
    → Serves r v
    → (ps_set r key_rc w ≡ (pos 0, set_rc v w))
      × (ps_set r key_gdtt w ≡ (pos 0, set_gdtt v w))
      × (ps_set r key_gpo w ≡ (pos 0, set_gpo v w))
      × (ps_set r key_ld w ≡ (pos 0, set_ld v w))
      × (ps_set r key_td w ≡ (pos 0, set_td v w))
      × (ps_set r key_dd w ≡ (pos 0, set_dd v w))
      × (ps_set r key_ll w ≡ (pos 0, set_llt v (set_ll v w)))
      × (ps_set r key_llt w ≡ (pos 0, set_llt v w))
      × (ps_set r key_tlt w ≡ (pos 0, set_tlt v w))
      × (ps_set r key_dlt w ≡ (pos 0, set_dlt v w))
      × (ps_set r key_lr w ≡ (pos 0, set_lr v w))
      × (ps_set r key_tr w ≡ (pos 0, set_tr v w))
unfolding ps_set
ps_set_lem r v w s = (
  rw (s.whole key_rc refl, s.compares, s.reads),
  rw (s.whole key_gdtt refl, s.compares, s.reads),
  rw (s.whole key_gpo refl, s.compares, s.reads),
  rw (s.whole key_ld refl, s.compares, s.reads),
  rw (s.whole key_td refl, s.compares, s.reads),
  rw (s.whole key_dd refl, s.compares, s.reads),
  rw (s.whole key_ll refl, s.compares, s.reads),
  rw (s.whole key_llt refl, s.compares, s.reads),
  rw (s.whole key_tlt refl, s.compares, s.reads),
  rw (s.whole key_dlt refl, s.compares, s.reads),
  rw (s.whole key_lr refl, s.compares, s.reads),
  rw (s.whole key_tr refl, s.compares, s.reads),
)

pack_range_sum : (max min : ℕ) → max < 65536 → min < 65536 → pack_range max min ≡ max * 65536 + min
unfolding pack_range
pack_range_sum max min h1 h2 = omega (arith, bit_or_shifted 16 max min h2)

-- The two ends of a stored range that is not 0.
unpacked :
    (c : LightCtl) (max min : ℕ)
    → max < 65536
    → min < 65536
    → 0 < max
    → (c.light.range ≡ (max * 65536 + min) % 4294967296
        → ((retrieve_ranges c).light.range_min ≡ min) × ((retrieve_ranges c).light.range_max ≡ max))
      × (c.temp.range ≡ (max * 65536 + min) % 4294967296
          → ((retrieve_ranges c).temp.range_min ≡ min) × ((retrieve_ranges c).temp.range_max ≡ max))
unfolding retrieve_ranges
unpacked c max min h1 h2 h3 = (λ e. (ground arith, ground arith), λ e. (ground arith, ground arith))

saved_light_range :
    (w : App)
    → stored lr (saved lightness_range w).calls
      ≡ pack_range w.ctl.light.range_max w.ctl.light.range_min
unfolding saved save_lightness_range
saved_light_range w = refl

saved_temp_range :
    (w : App)
    → stored tr (saved temperature_range w).calls
      ≡ pack_range w.ctl.temp.range_max w.ctl.temp.range_min
unfolding saved save_temperature_range
saved_temp_range w = refl

-- A range of the light that `save_on_flash` and the work item that it submits have stored is the range
-- again once `ps_set`, in an application in any state, has read back what the settings then hold under
-- the key "lr", and `retrieve_ranges` has taken it apart, if its ends fit 16 bits and the upper end is
-- not 0. The same holds of the range of the temperature and the key "tr".
pub range_survives :
    (r s : Reader) (w v : App)
    → (w.ctl.light.range_min < 65536) × (w.ctl.light.range_max < 65536)
    → 0 < w.ctl.light.range_max
    → (w.ctl.temp.range_min < 65536) × (w.ctl.temp.range_max < 65536)
    → 0 < w.ctl.temp.range_max
    → Serves r (stored lr (saved lightness_range w).calls)
    → Serves s (stored tr (saved temperature_range w).calls)
    → let light = (retrieve_ranges (ps_set r key_lr v).1.ctl).light in
      let temp = (retrieve_ranges (ps_set s key_tr v).1.ctl).temp in
      (light.range_min ≡ w.ctl.light.range_min)
      × (light.range_max ≡ w.ctl.light.range_max)
      × (temp.range_min ≡ w.ctl.temp.range_min)
      × (temp.range_max ≡ w.ctl.temp.range_max)
range_survives r s w v (l1, l2) l3 (t1, t2) t3 sr ss =
    let l = w.ctl.light in
    let t = w.ctl.temp in
    let read_lr = (ps_set_lem r _ v sr).10 in
    let read_tr = (ps_set_lem s _ v ss).11 in
    let light_value = saved_light_range w ∙ pack_range_sum l.range_max l.range_min l2 l1 in
    let temp_value = saved_temp_range w ∙ pack_range_sum t.range_max t.range_min t2 t1 in
    let light = (unpacked (ps_set r key_lr v).1.ctl l.range_max l.range_min l2 l1 l3).0 (
      ap (λ (x : ℤ × App). x.1.ctl.light.range) read_lr
      ∙ ap (λ (x : ℕ). x % 4294967296) light_value) in
    let temp = (unpacked (ps_set s key_tr v).1.ctl t.range_max t.range_min t2 t1 t3).1 (
      ap (λ (x : ℤ × App). x.1.ctl.temp.range) read_tr
      ∙ ap (λ (x : ℕ). x % 4294967296) temp_value) in
    (light.0, light.1, temp.0, temp.1)
