-- ===== src/Mesh/Transition/Completes.antt =====
-- mesh/transition.c: the run of each of the seven work handlers to the end of a transition.
use zephyr_samples.Base.{ℕ, suc, ◌<◌, ◌^◌, ◌≡◌, refl, ap, true, false, ◌==◌}
use zephyr_samples.Base.Int.{ℤ}
use zephyr_samples.Mesh.State.{App, LightCtl, Lightness, Temperature, DeltaUv, move}
use zephyr_samples.Mesh.Transition.Work.{
  first_tick, count_down, step_light, step_temp, step_duv, end_light, end_temp, end_duv,
  onoff_work_handler, level_lightness_work_handler, level_temp_work_handler,
  light_lightness_actual_work_handler, light_lightness_linear_work_handler, light_ctl_work_handler,
  light_ctl_temp_work_handler,
}
use zephyr_samples.Mesh.Transition.Ticks.{
  ticks, Stopped, Stepwise, Handles, ctl-first_tick, completes,
}

-- The values that a handler moves, and where they are to go.
abbrev pub light_now : LightCtl → ℕ
light_now c = c.light.current

abbrev pub light_goal : LightCtl → ℕ
light_goal c = c.light.target

abbrev pub temp_now : LightCtl → ℕ
temp_now c = c.temp.current

abbrev pub temp_goal : LightCtl → ℕ
temp_goal c = c.temp.target

abbrev pub temp_duv_now : LightCtl → ℕ × ℤ
temp_duv_now c = (c.temp.current, c.duv.current)

abbrev pub temp_duv_goal : LightCtl → ℕ × ℤ
temp_duv_goal c = (c.temp.target, c.duv.target)

abbrev pub all_now : LightCtl → ℕ × ℕ × ℤ
all_now c = (c.light.current, c.temp.current, c.duv.current)

abbrev pub all_goal : LightCtl → ℕ × ℕ × ℤ
all_goal c = (c.light.target, c.temp.target, c.duv.target)

light-Stepwise : Stepwise light_now light_goal step_light end_light
unfolding step_light end_light count_down
light-Stepwise = record {
  step_transition = λ w. refl;
  step_wanted = λ w. refl;
  finish_transition = λ w. refl;
  finish_reaches = λ w. refl;
  count_wanted = λ w. refl;
}

temp-Stepwise : Stepwise temp_now temp_goal step_temp end_temp
unfolding step_temp end_temp count_down
temp-Stepwise = record {
  step_transition = λ w. refl;
  step_wanted = λ w. refl;
  finish_transition = λ w. refl;
  finish_reaches = λ w. refl;
  count_wanted = λ w. refl;
}

temp_duv-Stepwise :
    Stepwise temp_duv_now temp_duv_goal (λ v. step_duv (step_temp v)) (λ v. end_duv (end_temp v))
unfolding step_temp step_duv end_temp end_duv count_down
temp_duv-Stepwise = record {
  step_transition = λ w. refl;
  step_wanted = λ w. refl;
  finish_transition = λ w. refl;
  finish_reaches = λ w. refl;
  count_wanted = λ w. refl;
}

all-Stepwise :
    Stepwise all_now all_goal
      (λ v. step_duv (step_temp (step_light v)))
      (λ v. end_duv (end_temp (end_light v)))
unfolding step_light step_temp step_duv end_light end_temp end_duv count_down
all-Stepwise = record {
  step_transition = λ w. refl;
  step_wanted = λ w. refl;
  finish_transition = λ w. refl;
  finish_reaches = λ w. refl;
  count_wanted = λ w. refl;
}

level_lightness-Handles : Handles level_lightness_work_handler step_light end_light
unfolding level_lightness_work_handler
level_lightness-Handles w nm = rw nm

level_temp-Handles : Handles level_temp_work_handler step_temp end_temp
unfolding level_temp_work_handler
level_temp-Handles w nm = rw nm

-- `v` has the values that `w` was to reach, no step to go, and the timer stopped.
abbrev pub Reached : {A : Type 0} → (LightCtl → A) → (LightCtl → A) → App → App → Type 0
Reached now goal w v = (now v.ctl ≡ goal w.ctl) × (v.ctl.transition.counter ≡ 0) × Stopped v

-- A transition that is no move, just started with n + 1 steps to go, is brought to its targets by
-- n + 2 ticks of its work handler, whatever the steps are: afterwards the values that the handler
-- moves equal their targets, the counter is 0, and the last call stopped the timer.
pub transition_completes :
    (n : ℕ) (w : App)
    → n < 2 ^ 32
    → w.ctl.transition.just_started ≡ true
    → (w.ctl.transition.type == move) ≡ false
    → w.ctl.transition.counter ≡ suc n
    → Reached light_now light_goal w (ticks (suc (suc n)) onoff_work_handler w)
      × Reached light_now light_goal w (ticks (suc (suc n)) level_lightness_work_handler w)
      × Reached temp_now temp_goal w (ticks (suc (suc n)) level_temp_work_handler w)
      × Reached light_now light_goal w (ticks (suc (suc n)) light_lightness_actual_work_handler w)
      × Reached light_now light_goal w (ticks (suc (suc n)) light_lightness_linear_work_handler w)
      × Reached all_now all_goal w (ticks (suc (suc n)) light_ctl_work_handler w)
      × Reached temp_duv_now temp_duv_goal w (ticks (suc (suc n)) light_ctl_temp_work_handler w)
unfolding onoff_work_handler light_lightness_actual_work_handler light_lightness_linear_work_handler
    light_ctl_work_handler light_ctl_temp_work_handler
transition_completes n w h js nm e =
    let (_, light, temp, duv) = ctl-first_tick w n nm e in
    let light' : light_goal (first_tick w).ctl ≡ light_goal w.ctl =
      ap (λ (l : Lightness). l.target) light in
    let temp' : temp_goal (first_tick w).ctl ≡ temp_goal w.ctl =
      ap (λ (t : Temperature). t.target) temp in
    let duv' : (first_tick w).ctl.duv.target ≡ w.ctl.duv.target =
      ap (λ (d : DeltaUv). d.target) duv in
    (
      completes light-Stepwise (λ v m. refl) n w h js nm e light',
      completes light-Stepwise level_lightness-Handles n w h js nm e light',
      completes temp-Stepwise level_temp-Handles n w h js nm e temp',
      completes light-Stepwise (λ v m. refl) n w h js nm e light',
      completes light-Stepwise (λ v m. refl) n w h js nm e light',
      completes all-Stepwise (λ v m. refl) n w h js nm e (rw (light', temp', duv') refl),
      completes temp_duv-Stepwise (λ v m. refl) n w h js nm e (rw (temp', duv') refl),
    )
