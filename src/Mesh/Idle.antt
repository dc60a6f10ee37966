-- ===== src/Mesh/Idle.antt =====
-- mesh/no_transition_work_handler.c: what is done when no transition runs.
use zephyr_samples.Base.{◌||◌, if◌then◌else◌, ◌==◌, not}
use zephyr_samples.Mesh.State.{App, with_light, emit, publish_timer_start}
use zephyr_samples.Mesh.Storage.{save_on_flash, lightness_last_state}
use zephyr_samples.Mesh.Light.{update_led_gpio}
use zephyr_samples.Mesh.Transition.Work.{end_light, end_temp, end_duv}
use zephyr_samples.Mesh.Status.{
  light_settled, temp_settled, duv_settled, gen_onoff_publish, gen_level_publish,
  light_lightness_publish, light_lightness_linear_publish, light_ctl_publish,
  gen_level_publish_temp, light_ctl_temp_publish,
}

unfoldable pub unsolicitedly_publish_states_work_handler : App → App
unsolicitedly_publish_states_work_handler w =
    let e = w.env in
    let w1 = gen_onoff_publish (e.root_models 2) w in
    let w2 = gen_level_publish (e.root_models 4) w1 in
    let w3 = light_lightness_publish (e.root_models 11) w2 in
    let w4 = light_lightness_linear_publish (e.root_models 11) w3 in
    let w5 = light_ctl_publish (e.root_models 14) w4 in
    let w6 = gen_level_publish_temp (e.s0_models 0) w5 in light_ctl_temp_publish (e.s0_models 2) w6

unfoldable pub no_transition_work_handler : App → App
unfolding end_light end_temp end_duv save_on_flash update_led_gpio
no_transition_work_handler w =
    let readjust = not (light_settled w) || (not (temp_settled w) || not (duv_settled w)) in
    let w1 = if not (light_settled w) then end_light w else w in
    let w2 = if not (temp_settled w1) then end_temp w1 else w1 in
    let w3 = if not (duv_settled w2) then end_duv w2 else w2 in
    let w4 =
      if not (w3.ctl.light.current == 0)
      then save_on_flash lightness_last_state
          (with_light w3 (record w3.ctl.light { last = w3.ctl.light.current }))
      else w3 in
    let w5 = if readjust then update_led_gpio w4 else w4 in
    if not w.env.is_provisioned then w else emit (publish_timer_start 5000) w5
