-- ===== src/Mesh/Transition.antt =====
-- mesh/transition.c: the timing of a change. The values are computed here, the ticks that carry it
-- out are in Mesh/Transition/Work.antt.
pub mod Work
pub mod Remaining
pub mod Ticks
pub mod Completes
pub mod Move
use zephyr_samples.Base.{
  ℕ, ◌+◌, ◌-◌, ◌*◌, ◌/◌, ◌%◌, ◌^◌, bit_or, Bool, true, false, if◌then◌else◌, ltb, ◌==◌,
}
use zephyr_samples.Base.Int.{ℤ, pos, negsuc, sub_ℕ, ◌-ℤ◌}
use zephyr_samples.Base.Words.{to_u32, to_s32}
use zephyr_samples.Mesh.State.{
  App, Env, LightCtl, Transition, StateBinding, onoff, level_light, actual, linear, ctl_light,
  level_temp, ctl_temp, with_light, with_temp, with_duv, with_transition, k_uptime_get, move,
  unknown_value, device_specific_resolution,
}

-- `(resolution << 6) | steps` for a number of milliseconds that are left.
unfoldable pub encode_remaining : ℤ → ℕ
encode_remaining (negsuc n) = 0
encode_remaining (pos n) =
    if ltb 620000 n
    then bit_or (3 * 2 ^ 6) (n / 600000 % 256) % 256
    else if ltb 62000 n
    then bit_or (2 * 2 ^ 6) (n / 10000 % 256) % 256
    else if ltb 6200 n
    then bit_or (1 * 2 ^ 6) (n / 1000 % 256) % 256
    else if ltb 0 n
    then bit_or (0 * 2 ^ 6) (n / 100 % 256) % 256
    else bit_or (0 * 2 ^ 6) 0 % 256

unfoldable pub calculate_rt : App → App
unfolding encode_remaining
calculate_rt w =
    let t = w.ctl.transition in
    if t.type == move
    then with_transition w (record t { rt = unknown_value })
    else if t.just_started
    then with_transition w (record t { rt = t.tt })
    else (let (now, w1) = k_uptime_get w in
        let duration_remainder = to_s32 (sub_ℕ (t.total_duration + t.start_timestamp) now) in
        with_transition w1 (record t { rt = encode_remaining duration_remainder }))

-- `steps_multiplier * …U` for the resolution in the two high bits of `tt`.
unfoldable pub duration_of : ℕ → ℕ → ℕ
duration_of resolution steps =
    if resolution == 0
    then steps * 100
    else if resolution == 1
    then steps * 1000
    else if resolution == 2
    then steps * 10000
    else steps * 600000

-- Returns what the function returns, and `*transition`.
unfoldable pub set_transition_counter : Env → Transition → Bool × Transition
unfolding duration_of
set_transition_counter e t =
    let resolution = t.tt / 2 ^ 6 in
    let steps_multiplier = t.tt % 64 in
    if steps_multiplier == 0
    then (false, t)
    else (let total = duration_of resolution steps_multiplier in
        let c = to_u32 (e.f_to_int (e.f_div (e.f_of_int (pos total)) (e.f_of_int (pos 100)))) in
        (
          true,
          record t {
            total_duration = total;
            counter = if ltb device_specific_resolution c then device_specific_resolution else c;
          },
        ))

-- `(float) (from - to) / counter`, stored in an `int`.
unfoldable pub step_of : Env → ℤ → ℕ → ℤ
step_of e difference counter =
    to_s32 (e.f_to_int (e.f_div (e.f_of_int difference) (e.f_of_int (pos counter))))

unfoldable pub set_light_delta : App → App
unfolding step_of
set_light_delta w =
    let l = w.ctl.light in
    with_light w
      (record l { delta = step_of w.env (sub_ℕ l.current l.target) w.ctl.transition.counter })

unfoldable pub set_temp_delta : App → App
unfolding step_of
set_temp_delta w =
    let t = w.ctl.temp in
    with_temp w
      (record t { delta = step_of w.env (sub_ℕ t.current t.target) w.ctl.transition.counter })

unfoldable pub set_duv_delta : App → App
unfolding step_of ◌-ℤ◌
set_duv_delta w =
    let d = w.ctl.duv in
    with_duv w (record d { delta = step_of w.env (d.current -ℤ d.target) w.ctl.transition.counter })

-- The `switch` of `set_transition_values`.
unfoldable pub set_deltas : StateBinding → App → App
unfolding set_light_delta set_temp_delta set_duv_delta
set_deltas onoff w = set_light_delta w
set_deltas level_light w = set_light_delta w
set_deltas actual w = set_light_delta w
set_deltas linear w = set_light_delta w
set_deltas ctl_light w = set_duv_delta (set_temp_delta (set_light_delta w))
set_deltas level_temp w = set_temp_delta w
set_deltas ctl_temp w = set_duv_delta (set_temp_delta w)
set_deltas _ w = w

unfoldable pub set_transition_values : StateBinding → App → App
set_transition_values type w =
    let (timed, t) = set_transition_counter w.env w.ctl.transition in
    if timed
    then (if t.type == move
        then with_transition w (record t { quo_tt = t.total_duration })
        else set_deltas type
            (with_transition w (record t { quo_tt = t.total_duration / t.counter })))
    else with_transition w t
