-- ===== src/Mesh/Transition/Move.antt =====
-- mesh/transition.c: the run of a move upwards of the lightness.
use zephyr_samples.Base.{
  ℕ, zero, suc, ◌+◌, ◌*◌, ◌≤◌, ◌<◌, ◌≡◌, refl, sym, ap, subst, ◌∙◌, true, false, ◌==◌, leb,
  if◌then◌else◌, Bool-cases, inl, inr, arith,
}
use zephyr_samples.Base.Int.{ℤ, pos, eqb_ℤ, ◌+ℤ◌}
use zephyr_samples.Base.Words.{to_u16}
use zephyr_samples.Mesh.State.{App, LightCtl, Lightness, move, with_light}
use zephyr_samples.Mesh.Light.{update_light_state}
use zephyr_samples.Mesh.Transition.Work.{
  moved, clamp_int, stop_move, level_move_lightness_work_handler, level_lightness_work_handler,
}
use zephyr_samples.Mesh.Transition.Ticks.{ticks, Stopped, ctl-update_light_state}

-- A move upwards by `d` a tick is running.
pub record MovesUp (d : ℕ) (c : LightCtl) : Type 0 where
  pub is_move : (c.transition.type == move) ≡ true
  pub runs : c.transition.just_started ≡ false
  pub step : c.light.delta ≡ pos d
  pub lit : 0 < c.light.current
  pub above : c.light.range_min ≤ c.light.current
  pub below : c.light.current ≤ c.light.range_max
  pub max_fits : c.light.range_max < 65536
  pub goal : c.light.target ≡ c.light.range_max

next_light :
    (d : ℕ) (c : LightCtl)
    → 0 < d
    → d < 32768
    → MovesUp d c
    → clamp_int c.light.range_min c.light.range_max (moved c.light.current c.light.delta)
      ≡ pos (
          if leb (c.light.current + d) c.light.range_max
          then c.light.current + d
          else c.light.range_max)
unfolding clamp_int moved ◌+ℤ◌
next_light d c h1 h2 m = rw (m.step) (ground arith)

-- The lightness one tick on.
abbrev pub next : ℕ → LightCtl → ℕ
next d c =
    if leb (c.light.current + d) c.light.range_max then c.light.current + d else c.light.range_max

-- The assignment that a tick makes, before the test for the end.
abbrev assigned : App → App
assigned w =
    let l = w.ctl.light in
    update_light_state (
      with_light w (record l {
        current = to_u16 (clamp_int l.range_min l.range_max (moved l.current l.delta));
      }))

work_of_move :
    (w : App)
    → (w.ctl.transition.type == move) ≡ true
    → w.ctl.transition.just_started ≡ false
    → level_lightness_work_handler w ≡ level_move_lightness_work_handler w
unfolding level_lightness_work_handler
work_of_move w m r = ground arith

light_after :
    (w : App)
    → ((level_move_lightness_work_handler w).ctl.light ≡ (assigned w).ctl.light)
      × ((level_move_lightness_work_handler w).ctl.transition.type
          ≡ (assigned w).ctl.transition.type)
      × ((level_move_lightness_work_handler w).ctl.transition.just_started
          ≡ (assigned w).ctl.transition.just_started)
unfolding level_move_lightness_work_handler stop_move
light_after w =
    let l = w.ctl.light in
    let light = clamp_int l.range_min l.range_max (moved l.current l.delta) in
    elim (Bool-cases (eqb_ℤ (pos (assigned w).ctl.light.target) light)) [
      | inl e ↦ rw e (refl, refl, refl)
      | inr e ↦ rw e (refl, refl, refl)
    ]

stops_at_goal :
    (w : App)
    → eqb_ℤ (pos (assigned w).ctl.light.target) (
        clamp_int w.ctl.light.range_min w.ctl.light.range_max
          (moved w.ctl.light.current w.ctl.light.delta))
      ≡ true
    → ((level_move_lightness_work_handler w).ctl.transition.counter ≡ 0)
      × Stopped (level_move_lightness_work_handler w)
unfolding level_move_lightness_work_handler stop_move
stops_at_goal w e = rw e (refl, ((assigned w).calls, refl))

-- One tick of the work handler.
moves_on :
    (d : ℕ) (w : App)
    → 0 < d
    → d < 32768
    → MovesUp d w.ctl
    → let v = level_lightness_work_handler w in
      MovesUp d v.ctl
      × (v.ctl.light.current ≡ next d w.ctl)
      × (v.ctl.light.range_max ≡ w.ctl.light.range_max)
moves_on d w h1 h2 m =
    let l = w.ctl.light in
    let value = next_light d w.ctl h1 h2 m in
    let same = ctl-update_light_state (
      with_light w (record l {
        current = to_u16 (clamp_int l.range_min l.range_max (moved l.current l.delta));
      })) in
    let (light, type, running) = light_after w in
    let stored : (assigned w).ctl.light ≡ record l { current = next d w.ctl } =
      ap (λ (c : LightCtl). c.light) same
      ∙ ap (λ (x : ℕ). record l { current = x })
          (ap to_u16 value ∙ (let fits = m.max_fits in ground arith)) in
    let whole : (level_lightness_work_handler w).ctl.light ≡ record l { current = next d w.ctl } =
      ap (λ (v : App). v.ctl.light) (work_of_move w m.is_move m.runs) ∙ (light ∙ stored) in
    let now = ap (λ (k : Lightness). k.current) whole in
    let types =
      ap (λ (v : App). v.ctl.transition.type == move) (work_of_move w m.is_move m.runs)
      ∙ (ap (λ (x : ℕ). x == move) type
          ∙ (ap (λ (c : LightCtl). c.transition.type == move) same ∙ m.is_move)) in
    let runs =
      ap (λ (v : App). v.ctl.transition.just_started) (work_of_move w m.is_move m.runs)
      ∙ (running ∙ (ap (λ (c : LightCtl). c.transition.just_started) same ∙ m.runs)) in
    let max = ap (λ (k : Lightness). k.range_max) whole in
    let min = ap (λ (k : Lightness). k.range_min) whole in
    let target = ap (λ (k : Lightness). k.target) whole in
    (
      record {
        is_move = types;
        runs = runs;
        step = ap (λ (k : Lightness). k.delta) whole ∙ m.step;
        lit = ground (arith, m.lit);
        above = ground (arith, m.above, m.below);
        below = ground (arith, m.below);
        max_fits = omega (arith, m.max_fits);
        goal = omega (arith, m.goal);
      },
      now,
      max,
    )

-- The tick that reaches the end of the range ends the move.
moves_end :
    (d : ℕ) (w : App)
    → 0 < d
    → d < 32768
    → MovesUp d w.ctl
    → w.ctl.light.range_max ≤ w.ctl.light.current + d
    → ((level_lightness_work_handler w).ctl.transition.counter ≡ 0)
      × Stopped (level_lightness_work_handler w)
moves_end d w h1 h2 m far =
    let l = w.ctl.light in
    let value = next_light d w.ctl h1 h2 m in
    let same = ctl-update_light_state (
      with_light w (record l {
        current = to_u16 (clamp_int l.range_min l.range_max (moved l.current l.delta));
      })) in
    let at_end : next d w.ctl ≡ l.range_max = ground arith in
    let target : (assigned w).ctl.light.target ≡ l.range_max =
      ap (λ (c : LightCtl). c.light.target) same ∙ m.goal in
    let here : eqb_ℤ (pos (assigned w).ctl.light.target)
          (clamp_int l.range_min l.range_max (moved l.current l.delta))
        ≡ true =
      ap (λ (x : ℕ). eqb_ℤ (pos x) (clamp_int l.range_min l.range_max (moved l.current l.delta)))
        target
      ∙ (ap (λ (z : ℤ). eqb_ℤ (pos l.range_max) z) (value ∙ ap pos at_end) ∙ (ground arith)) in
    subst (λ (v : App). (v.ctl.transition.counter ≡ 0) × Stopped v)
      (sym (work_of_move w m.is_move m.runs)) (stops_at_goal w here)

-- A move upwards of the lightness, past its first tick, that starts within the range, steps by `d` a
-- tick and is wanted to go to the upper end of the range, is there after any number of ticks, at least
-- one, that are enough for the distance: the lightness is the end of the range, the counter is 0, and
-- the last call stopped the timer.
pub move_up_completes :
    (n d : ℕ) (w : App)
    → 0 < d
    → d < 32768
    → MovesUp d w.ctl
    → w.ctl.light.range_max ≤ w.ctl.light.current + suc n * d
    → let v = ticks (suc n) level_lightness_work_handler w in
      (v.ctl.light.current ≡ w.ctl.light.range_max) × (v.ctl.transition.counter ≡ 0) × Stopped v
unfolding ticks
move_up_completes zero d w h1 h2 m far =
    let near : w.ctl.light.range_max ≤ w.ctl.light.current + d = omega arith in
    let (counter, stopped) = moves_end d w h1 h2 m near in
    let now = (moves_on d w h1 h2 m).1 in
    (now ∙ (let b = m.below in ground arith), counter, stopped)
move_up_completes (suc n) d w h1 h2 m far =
    let v = level_lightness_work_handler w in
    let (on, now, max) = moves_on d w h1 h2 m in
    let further : v.ctl.light.range_max ≤ v.ctl.light.current + suc n * d = ground arith in
    let (current, counter, stopped) = move_up_completes n d v h1 h2 on further in
    (current ∙ max, counter, stopped)
