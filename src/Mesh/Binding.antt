-- ===== src/Mesh/Binding.antt =====
-- mesh/state_binding.c: the one light, seen as OnOff, Level, Lightness, CTL and Delta UV.
pub mod Range
use zephyr_samples.Base.{ℕ, ◌+◌, ◌*◌, ◌%◌, ◌&&◌, if◌then◌else◌, ltb, ◌==◌, not}
use zephyr_samples.Base.Int.{ℤ, pos, negsuc, sub_ℕ, ltb_ℤ, ◌+ℤ◌, ◌-ℤ◌}
use zephyr_samples.Base.Words.{to_u8, to_u16, to_s16, to_s32}
use zephyr_samples.Mesh.State.{
  App, Env, Lightness, Temperature, with_light, with_temp, with_duv, StateBinding, onoff,
  level_light, delta_level_light, move_light, actual, linear, ctl_light, level_temp, move_temp,
  ctl_temp, ctl_delta_uv, state_off, state_on, state_restore,
}
use zephyr_samples.Mesh.Storage.{save_on_flash, last_target_states}

unfoldable pub ceiling : Env → ℕ → ℤ
unfolding ◌+ℤ◌
ceiling e num =
    let inum = to_s32 (e.f_to_int num) in
    if e.f_eq num (e.f_of_int inum) then inum else to_s32 (inum +ℤ pos 1)

unfoldable pub actual_to_linear : Env → ℕ → ℕ
unfolding ceiling
actual_to_linear e val =
    let tmp = e.f_div (e.f_of_int (pos val)) (e.f_of_int (pos 65535)) in
    to_u16 (ceiling e (e.f_mul (e.f_mul (e.f_of_int (pos 65535)) tmp) tmp))

unfoldable pub linear_to_actual : Env → ℕ → ℕ
linear_to_actual e val =
    let ratio = e.f_div (e.f_of_int (pos val)) (e.f_of_int (pos 65535)) in
    to_u16 (e.f_to_int (e.f_mul (e.f_of_int (pos 65535)) (e.f_sqrt ratio)))

unfoldable pub constrain_lightness : Lightness → ℕ → ℕ
constrain_lightness l light =
    if ltb 0 light && ltb light l.range_min
    then l.range_min
    else if ltb l.range_max light
    then l.range_max
    else light

unfoldable pub constrain_target_lightness2 : Lightness → Lightness
constrain_target_lightness2 l =
    if ltb 0 l.target && ltb l.target l.range_min
    then (if ltb_ℤ l.delta (pos 0)
        then record l { target = 0 }
        else record l { target = l.range_min })
    else if ltb l.range_max l.target
    then record l { target = l.range_max }
    else l

unfoldable pub constrain_temperature : Temperature → ℕ → ℕ
constrain_temperature t temp =
    if ltb temp t.range_min then t.range_min else if ltb t.range_max temp then t.range_max else temp

-- `INT16_MIN` is `negsuc 32767`.
unfoldable pub light_ctl_temp_to_level : Env → Temperature → ℕ → ℤ
light_ctl_temp_to_level e t temp =
    let above = sub_ℕ (temp * 65535) (t.range_min * 65535) in
    let width = e.f_of_int (sub_ℕ t.range_max t.range_min) in
    let tmp = e.f_div (e.f_of_int (to_s32 above)) width in
    to_s16 (e.f_to_int (e.f_add tmp (e.f_of_int (negsuc 32767))))

unfoldable pub level_to_light_ctl_temp : Env → Temperature → ℤ → ℕ
unfolding ◌-ℤ◌
level_to_light_ctl_temp e t level =
    let diff = e.f_div (e.f_of_int (sub_ℕ t.range_max t.range_min)) (e.f_of_int (pos 65535)) in
    let tmp = to_u16 (e.f_to_int (e.f_mul (e.f_of_int (level -ℤ negsuc 32767)) diff)) in
    (t.range_min + tmp) % 65536

-- The `switch` of `set_target`. The value at `dptr` is given as an integer, and each case reads it
-- at the type that its cast names.
unfoldable pub store_target : StateBinding → ℤ → App → App
unfolding ◌-ℤ◌ linear_to_actual constrain_lightness constrain_target_lightness2
    constrain_temperature level_to_light_ctl_temp
store_target onoff v w =
    let light = w.ctl.light in
    if to_u8 v == state_off
    then with_light w (record light { target = 0 })
    else if to_u8 v == state_on
    then (if light.def == 0
        then with_light w (record light { target = light.last })
        else with_light w (record light { target = light.def }))
    else w
store_target level_light v w =
    let target = to_u16 (to_s16 v -ℤ negsuc 32767) in
    with_light w (record w.ctl.light { target = constrain_lightness w.ctl.light target })
store_target delta_level_light v w =
    let target = to_u16 (to_s16 v -ℤ negsuc 32767) in
    with_light w (constrain_target_lightness2 (record w.ctl.light { target = target }))
store_target move_light v w = with_light w (record w.ctl.light { target = to_u16 v })
store_target actual v w =
    with_light w (record w.ctl.light { target = constrain_lightness w.ctl.light (to_u16 v) })
store_target linear v w =
    let target = linear_to_actual w.env (to_u16 v) in
    with_light w (record w.ctl.light { target = constrain_lightness w.ctl.light target })
store_target ctl_light v w =
    with_light w (record w.ctl.light { target = constrain_lightness w.ctl.light (to_u16 v) })
store_target level_temp v w =
    let target = level_to_light_ctl_temp w.env w.ctl.temp (to_s16 v) in
    with_temp w (record w.ctl.temp { target = target })
store_target move_temp v w = with_temp w (record w.ctl.temp { target = to_u16 v })
store_target ctl_temp v w =
    with_temp w (record w.ctl.temp { target = constrain_temperature w.ctl.temp (to_u16 v) })
store_target ctl_delta_uv v w = with_duv w (record w.ctl.duv { target = to_s16 v })

unfoldable pub set_target : StateBinding → ℤ → App → App
unfolding store_target save_on_flash
set_target type v w =
    let w1 = store_target type v w in
    if w1.ctl.onpowerup == state_restore then save_on_flash last_target_states w1 else w1

unfoldable pub get_current : StateBinding → App → ℤ
unfolding ◌+ℤ◌ actual_to_linear light_ctl_temp_to_level
get_current onoff w =
    if not (w.ctl.light.current == 0)
    then pos state_on
    else if not (w.ctl.light.target == 0)
    then pos state_on
    else pos state_off
get_current level_light w = to_s16 (pos w.ctl.light.current +ℤ negsuc 32767)
get_current actual w = pos w.ctl.light.current
get_current linear w = pos (actual_to_linear w.env w.ctl.light.current)
get_current ctl_light w = pos w.ctl.light.current
get_current level_temp w = light_ctl_temp_to_level w.env w.ctl.temp w.ctl.temp.current
get_current ctl_temp w = pos w.ctl.temp.current
get_current ctl_delta_uv w = w.ctl.duv.current
get_current _ w = pos 0

unfoldable pub get_target : StateBinding → App → ℤ
unfolding ◌+ℤ◌ actual_to_linear light_ctl_temp_to_level
get_target onoff w = if not (w.ctl.light.target == 0) then pos state_on else pos state_off
get_target level_light w = to_s16 (pos w.ctl.light.target +ℤ negsuc 32767)
get_target actual w = pos w.ctl.light.target
get_target linear w = pos (actual_to_linear w.env w.ctl.light.target)
get_target ctl_light w = pos w.ctl.light.target
get_target level_temp w = light_ctl_temp_to_level w.env w.ctl.temp w.ctl.temp.target
get_target ctl_temp w = pos w.ctl.temp.target
get_target ctl_delta_uv w = w.ctl.duv.target
get_target _ w = pos 0
