-- ===== src/Mesh/Invariant/Ticks.antt =====
-- mesh/transition.c, storage.c and main.c: validity for the ticks of the transition timer and the work
-- item of storage.c.
use zephyr_samples.Base.{
  ◌<◌, ◌≡◌, refl, ◌∙◌, true, false, ◌||◌, ltb, ◌==◌, arith, if◌then◌else◌, Bool-cases, inl, inr,
}
use zephyr_samples.Base.Int.{eqb_ℤ, pos, ◌-ℤ◌}
use zephyr_samples.Base.Words.{to_u16, to_u16-lt}
use zephyr_samples.Mesh.State.{
  App, TimerHandler, emit, timer_stop, k_uptime_get, with_light, with_temp, with_transition, move,
}
use zephyr_samples.Mesh.Storage.{
  storage_work_handler, save_reset_counter, save_gen_def_trans_time_state, save_gen_onpowerup_state,
  save_def_states, save_lightness_last_state, save_last_target_states, save_lightness_range,
  save_temperature_range, save_on_flash,
}
use zephyr_samples.Mesh.Light.{update_light_state, reset_counter_timer_handler}
use zephyr_samples.Mesh.Transition.Work.{
  first_tick, later_tick, count_down, step_light, step_temp, step_duv, end_light, end_temp, end_duv,
  moved, clamp_int, stop_move, onoff_work_handler, level_move_lightness_work_handler,
  level_lightness_work_handler, level_move_temp_work_handler, level_temp_work_handler,
  light_lightness_actual_work_handler, light_lightness_linear_work_handler, light_ctl_work_handler,
  light_ctl_temp_work_handler, expired,
}
use zephyr_samples.Mesh.Invariant.{
  Kept-if, IsValid, Good, Good-compose, update_light_state-Good, end_light-Good, end_temp-Good,
  end_duv-Good,
}

-- The timer is to run on: its work has not run yet, or steps are left.
abbrev pub Live : App → Type 0
Live w = (w.ctl.transition.just_started || ltb 0 w.ctl.transition.counter) ≡ true

-- `f` keeps the invariant and the environment while the timer is to run on.
abbrev pub Lively : (App → App) → Type 0
Lively f = (w : App) → Live w → (IsValid w.ctl → IsValid (f w).ctl) × ((f w).env ≡ w.env)

step_light-Good : Good step_light
unfolding step_light
step_light-Good w =
    let lt = to_u16-lt (pos w.ctl.light.current -ℤ w.ctl.light.delta) in (λ h. omega arith, refl)

step_temp-Good : Good step_temp
unfolding step_temp
step_temp-Good w =
    let lt = to_u16-lt (pos w.ctl.temp.current -ℤ w.ctl.temp.delta) in (λ h. omega arith, refl)

step_duv-Good : Good step_duv
unfolding step_duv
step_duv-Good w = (λ h. omega arith, refl)

temp_duv_step-Good : Good (λ w. step_duv (step_temp w))
temp_duv_step-Good = Good-compose step_temp step_duv step_temp-Good step_duv-Good

all_step-Good : Good (λ w. step_duv (step_temp (step_light w)))
all_step-Good =
    Good-compose step_light (λ w. step_duv (step_temp w)) step_light-Good temp_duv_step-Good

temp_duv_end-Good : Good (λ w. end_duv (end_temp w))
temp_duv_end-Good = Good-compose end_temp end_duv end_temp-Good end_duv-Good

all_end-Good : Good (λ w. end_duv (end_temp (end_light w)))
all_end-Good = Good-compose end_light (λ w. end_duv (end_temp w)) end_light-Good temp_duv_end-Good

first_tick-Good : Good first_tick
unfolding first_tick
first_tick-Good w =
    let w1 = with_transition w (record w.ctl.transition { just_started = false }) in
    let over = update_light_state-Good w1 in
    let now = (k_uptime_get w1).0 in
    let w2 = (k_uptime_get w1).1 in
    Kept-if (w1.ctl.transition.counter == 0) w (emit timer_stop (update_light_state w1))
      (with_transition w2 (record w2.ctl.transition { start_timestamp = now }))
      (λ e. (λ h. over.0 (omega arith), over.1)) (λ e. (λ h. omega arith, refl))

count_down-Good :
    (w : App)
    → 0 < w.ctl.transition.counter
    → (IsValid w.ctl → IsValid (count_down w).ctl) × ((count_down w).env ≡ w.env)
unfolding count_down
count_down-Good w lt = (λ h. omega arith, refl)

later_tick-Good :
    (step finish : App → App)
    → Good step
    → Good finish
    → (w : App) → 0 < w.ctl.transition.counter
    → (IsValid w.ctl → IsValid (later_tick step finish w).ctl)
      × ((later_tick step finish w).env ≡ w.env)
unfolding later_tick
later_tick-Good step finish p q w lt =
    let w1 = count_down w in
    let down = count_down-Good w lt in
    let on = Good-compose step update_light_state p update_light_state-Good w1 in
    let over = Good-compose finish update_light_state q update_light_state-Good w1 in
    elim (Bool-cases (w1.ctl.transition.counter == 0)) [
      | inl e ↦ rw e (λ h. over.0 (down.0 h), over.1 ∙ down.1)
      | inr e ↦ rw e (λ h. on.0 (down.0 h), on.1 ∙ down.1)
    ]

-- The two branches of a work handler that knows no move.
stepwise-Lively :
    (step finish : App → App)
    → Good step
    → Good finish
    → Lively (λ w. if w.ctl.transition.just_started then first_tick w else later_tick step finish w)
stepwise-Lively step finish p q w live =
    Kept-if w.ctl.transition.just_started w (first_tick w) (later_tick step finish w)
      (λ e. first_tick-Good w) (λ e. later_tick-Good step finish p q w (ground arith))

stop_move-Good : Good stop_move
unfolding stop_move
stop_move-Good w = (λ h. omega arith, refl)

move_light-Good : Good level_move_lightness_work_handler
unfolding level_move_lightness_work_handler
move_light-Good w =
    let l = w.ctl.light in
    let light = clamp_int l.range_min l.range_max (moved l.current l.delta) in
    let w1 = with_light w (record l { current = to_u16 light }) in
    let (keeps, same) = update_light_state-Good w1 in
    let w2 = update_light_state w1 in
    let lt = to_u16-lt light in
    Kept-if (eqb_ℤ (pos w2.ctl.light.target) light) w (stop_move w2) w2
      (λ e. (λ h. (stop_move-Good w2).0 (keeps (omega arith)), (stop_move-Good w2).1 ∙ same))
      (λ e. (λ h. keeps (omega arith), same))

move_temp-Good : Good level_move_temp_work_handler
unfolding level_move_temp_work_handler
move_temp-Good w =
    let t = w.ctl.temp in
    let temp = clamp_int t.range_min t.range_max (moved t.current t.delta) in
    let w1 = with_temp w (record t { current = to_u16 temp }) in
    let (keeps, same) = update_light_state-Good w1 in
    let w2 = update_light_state w1 in
    let lt = to_u16-lt temp in
    Kept-if (eqb_ℤ (pos w2.ctl.temp.target) temp) w (stop_move w2) w2
      (λ e. (λ h. (stop_move-Good w2).0 (keeps (omega arith)), (stop_move-Good w2).1 ∙ same))
      (λ e. (λ h. keeps (omega arith), same))

-- The three branches of a work handler that knows moves.
level-Lively :
    (moving step finish : App → App)
    → Good moving
    → Good step
    → Good finish
    → Lively (λ w.
      if w.ctl.transition.just_started
      then first_tick w
      else if w.ctl.transition.type == move
      then moving w
      else later_tick step finish w)
level-Lively moving step finish m p q w live =
    Kept-if w.ctl.transition.just_started w (first_tick w)
      (if w.ctl.transition.type == move then moving w else later_tick step finish w)
      (λ e. first_tick-Good w)
      (λ e.
        Kept-if (w.ctl.transition.type == move) w (moving w) (later_tick step finish w) (λ i. m w)
          (λ i. later_tick-Good step finish p q w (ground arith)))

pub expired-Lively : (handler : TimerHandler) → Lively (expired handler)
unfolding expired onoff_work_handler level_lightness_work_handler level_temp_work_handler
    light_lightness_actual_work_handler light_lightness_linear_work_handler light_ctl_work_handler
    light_ctl_temp_work_handler
expired-Lively TimerHandler.onoff_tt w live =
    stepwise-Lively step_light end_light step_light-Good end_light-Good w live
expired-Lively TimerHandler.level_lightness_tt w live =
    level-Lively level_move_lightness_work_handler step_light end_light move_light-Good
      step_light-Good end_light-Good w live
expired-Lively TimerHandler.level_temp_tt w live =
    level-Lively level_move_temp_work_handler step_temp end_temp move_temp-Good step_temp-Good
      end_temp-Good w live
expired-Lively TimerHandler.light_lightness_actual_tt w live =
    stepwise-Lively step_light end_light step_light-Good end_light-Good w live
expired-Lively TimerHandler.light_lightness_linear_tt w live =
    stepwise-Lively step_light end_light step_light-Good end_light-Good w live
expired-Lively TimerHandler.light_ctl_tt w live =
    stepwise-Lively (λ v. step_duv (step_temp (step_light v)))
      (λ v. end_duv (end_temp (end_light v))) all_step-Good all_end-Good w live
expired-Lively TimerHandler.light_ctl_temp_tt w live =
    stepwise-Lively (λ v. step_duv (step_temp v)) (λ v. end_duv (end_temp v)) temp_duv_step-Good
      temp_duv_end-Good w live

pub storage_work_handler-Good : Good storage_work_handler
unfolding storage_work_handler save_reset_counter save_gen_def_trans_time_state
    save_gen_onpowerup_state save_def_states save_lightness_last_state save_last_target_states
    save_lightness_range save_temperature_range save_on_flash
storage_work_handler-Good w = (λ h. ground arith, ground arith)

pub reset_counter_timer_handler-Good : Good reset_counter_timer_handler
unfolding reset_counter_timer_handler save_on_flash
reset_counter_timer_handler-Good w = (λ h. h, refl)
