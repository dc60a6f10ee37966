-- ===== src/Mesh/Transition/Work.antt =====
-- The work handlers of mesh/transition.c, one tick of the transition timer each, and the functions
-- that start the timer.
use zephyr_samples.Base.{ℕ, ◌+◌, ◌*◌, ◌%◌, ◌&&◌, false, if◌then◌else◌, ◌==◌, not}
use zephyr_samples.Base.Int.{ℤ, pos, ltb_ℤ, eqb_ℤ, ◌+ℤ◌, ◌-ℤ◌}
use zephyr_samples.Base.Words.{to_u16, to_s16, to_s32}
use zephyr_samples.Mesh.State.{
  App, with_light, with_temp, with_duv, with_transition, emit, k_uptime_get, move, TimerHandler,
  onoff_tt, level_lightness_tt, level_temp_tt, light_lightness_actual_tt, light_lightness_linear_tt,
  light_ctl_tt, light_ctl_temp_tt, timer_init, timer_start, timer_stop,
}
use zephyr_samples.Mesh.Light.{update_light_state}

-- The `if (ctl->transition->just_started)` block that opens every work handler.
unfoldable pub first_tick : App → App
unfolding update_light_state
first_tick w =
    let w1 = with_transition w (record w.ctl.transition { just_started = false }) in
    if w1.ctl.transition.counter == 0
    then emit timer_stop (update_light_state w1)
    else (let (now, w2) = k_uptime_get w1 in
        with_transition w2 (record w2.ctl.transition { start_timestamp = now }))

-- `ctl->transition->counter--`
unfoldable pub count_down : App → App
count_down w =
    let t = w.ctl.transition in
    with_transition w (record t { counter = (t.counter + 4294967295) % 4294967296 })

unfoldable pub step_light : App → App
unfolding ◌-ℤ◌
step_light w =
    let l = w.ctl.light in with_light w (record l { current = to_u16 (pos l.current -ℤ l.delta) })

unfoldable pub step_temp : App → App
unfolding ◌-ℤ◌
step_temp w =
    let t = w.ctl.temp in with_temp w (record t { current = to_u16 (pos t.current -ℤ t.delta) })

unfoldable pub step_duv : App → App
unfolding ◌-ℤ◌
step_duv w = let d = w.ctl.duv in with_duv w (record d { current = to_s16 (d.current -ℤ d.delta) })

-- `current = target`
unfoldable pub end_light : App → App
end_light w = with_light w (record w.ctl.light { current = w.ctl.light.target })

unfoldable pub end_temp : App → App
end_temp w = with_temp w (record w.ctl.temp { current = w.ctl.temp.target })

unfoldable pub end_duv : App → App
end_duv w = with_duv w (record w.ctl.duv { current = w.ctl.duv.target })

-- The block that closes every work handler: one step on, or the end.
unfoldable pub later_tick : (App → App) → (App → App) → App → App
unfolding count_down update_light_state
later_tick step finish w =
    let w1 = count_down w in
    if not (w1.ctl.transition.counter == 0)
    then update_light_state (step w1)
    else emit timer_stop (update_light_state (finish w1))

unfoldable pub onoff_work_handler : App → App
unfolding first_tick later_tick step_light end_light
onoff_work_handler w =
    if w.ctl.transition.just_started then first_tick w else later_tick step_light end_light w

-- The `int` that a move reaches, before it is held in the range.
unfoldable pub moved : ℕ → ℤ → ℤ
unfolding ◌+ℤ◌
moved current delta =
    if not (current == 0)
    then to_s32 (pos current +ℤ delta)
    else if ltb_ℤ delta (pos 0)
    then to_s32 (pos 65535 +ℤ delta)
    else if ltb_ℤ (pos 0) delta
    then delta
    else pos 0

unfoldable pub clamp_int : ℕ → ℕ → ℤ → ℤ
clamp_int range_min range_max v =
    if ltb_ℤ (pos range_max) v
    then pos range_max
    else if ltb_ℤ v (pos range_min)
    then pos range_min
    else v

-- `ctl->transition->counter = 0; k_timer_stop(…)`
unfoldable pub stop_move : App → App
stop_move w = emit timer_stop (with_transition w (record w.ctl.transition { counter = 0 }))

unfoldable pub level_move_lightness_work_handler : App → App
unfolding moved clamp_int stop_move update_light_state
level_move_lightness_work_handler w =
    let l = w.ctl.light in
    let light = clamp_int l.range_min l.range_max (moved l.current l.delta) in
    let w1 = update_light_state (with_light w (record l { current = to_u16 light })) in
    if eqb_ℤ (pos w1.ctl.light.target) light then stop_move w1 else w1

unfoldable pub level_lightness_work_handler : App → App
unfolding first_tick later_tick step_light end_light level_move_lightness_work_handler
level_lightness_work_handler w =
    if w.ctl.transition.just_started
    then first_tick w
    else if w.ctl.transition.type == move
    then level_move_lightness_work_handler w
    else later_tick step_light end_light w

unfoldable pub level_move_temp_work_handler : App → App
unfolding moved clamp_int stop_move update_light_state
level_move_temp_work_handler w =
    let t = w.ctl.temp in
    let temp = clamp_int t.range_min t.range_max (moved t.current t.delta) in
    let w1 = update_light_state (with_temp w (record t { current = to_u16 temp })) in
    if eqb_ℤ (pos w1.ctl.temp.target) temp then stop_move w1 else w1

unfoldable pub level_temp_work_handler : App → App
unfolding first_tick later_tick step_temp end_temp level_move_temp_work_handler
level_temp_work_handler w =
    if w.ctl.transition.just_started
    then first_tick w
    else if w.ctl.transition.type == move
    then level_move_temp_work_handler w
    else later_tick step_temp end_temp w

unfoldable pub light_lightness_actual_work_handler : App → App
unfolding first_tick later_tick step_light end_light
light_lightness_actual_work_handler w =
    if w.ctl.transition.just_started then first_tick w else later_tick step_light end_light w

unfoldable pub light_lightness_linear_work_handler : App → App
unfolding first_tick later_tick step_light end_light
light_lightness_linear_work_handler w =
    if w.ctl.transition.just_started then first_tick w else later_tick step_light end_light w

unfoldable pub light_ctl_work_handler : App → App
unfolding first_tick later_tick step_light step_temp step_duv end_light end_temp end_duv
light_ctl_work_handler w =
    if w.ctl.transition.just_started
    then first_tick w
    else later_tick (λ v. step_duv (step_temp (step_light v)))
        (λ v. end_duv (end_temp (end_light v))) w

unfoldable pub light_ctl_temp_work_handler : App → App
unfolding first_tick later_tick step_temp step_duv end_temp end_duv
light_ctl_temp_work_handler w =
    if w.ctl.transition.just_started
    then first_tick w
    else later_tick (λ v. step_duv (step_temp v)) (λ v. end_duv (end_temp v)) w

-- The text that the seven message handlers of the end of the file share.
unfoldable pub start_timer : TimerHandler → App → App
unfolding update_light_state
start_timer expiry w =
    let t = w.ctl.transition in
    if t.counter == 0 && t.delay == 0
    then update_light_state w
    else emit (timer_start (t.delay * 5) t.quo_tt) (emit (timer_init expiry) w)

unfoldable pub onoff_handler : App → App
unfolding start_timer
onoff_handler w = start_timer onoff_tt w

unfoldable pub level_lightness_handler : App → App
unfolding start_timer
level_lightness_handler w = start_timer level_lightness_tt w

unfoldable pub level_temp_handler : App → App
unfolding start_timer
level_temp_handler w = start_timer level_temp_tt w

unfoldable pub light_lightness_actual_handler : App → App
unfolding start_timer
light_lightness_actual_handler w = start_timer light_lightness_actual_tt w

unfoldable pub light_lightness_linear_handler : App → App
unfolding start_timer
light_lightness_linear_handler w = start_timer light_lightness_linear_tt w

unfoldable pub light_ctl_handler : App → App
unfolding start_timer
light_ctl_handler w = start_timer light_ctl_tt w

unfoldable pub light_ctl_temp_handler : App → App
unfolding start_timer
light_ctl_temp_handler w = start_timer light_ctl_temp_tt w

-- The timer's expiry function submits a work item, whose handler runs.
unfoldable pub expired : TimerHandler → App → App
unfolding onoff_work_handler level_lightness_work_handler level_temp_work_handler
    light_lightness_actual_work_handler light_lightness_linear_work_handler light_ctl_work_handler
    light_ctl_temp_work_handler
expired onoff_tt w = onoff_work_handler w
expired level_lightness_tt w = level_lightness_work_handler w
expired level_temp_tt w = level_temp_work_handler w
expired light_lightness_actual_tt w = light_lightness_actual_work_handler w
expired light_lightness_linear_tt w = light_lightness_linear_work_handler w
expired light_ctl_tt w = light_ctl_work_handler w
expired light_ctl_temp_tt w = light_ctl_temp_work_handler w
