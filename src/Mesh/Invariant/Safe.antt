-- ===== src/Mesh/Invariant/Safe.antt =====
-- Validity over the steps of Mesh/Invariant/Reach.antt.
use zephyr_samples.Base.{◌==◌, not, ◌||◌, if◌then◌else◌, ◌≡◌, refl, sym, subst, ◌∙◌, arith}
use zephyr_samples.Mesh.State.{emit, publish_timer_start, with_light, App}
use zephyr_samples.Mesh.Storage.{lightness_last_state, save_on_flash}
use zephyr_samples.Mesh.Light.{update_led_gpio}
use zephyr_samples.Mesh.Transition.Work.{end_light, end_temp, end_duv}
use zephyr_samples.Mesh.Idle.{no_transition_work_handler, unsolicitedly_publish_states_work_handler}
use zephyr_samples.Mesh.Invariant.{
  end_light-Good, end_temp-Good, end_duv-Good, Kept, Kept-if, Kept-trans, IsValid, Good,
}
use zephyr_samples.Mesh.Invariant.Handlers.{
  gen_onoff_publish-Good, gen_level_publish-Good, light_lightness_publish-Good,
  light_lightness_linear_publish-Good, light_ctl_publish-Good, light_ctl_temp_publish-Good,
  gen_level_publish_temp-Good,
}
use zephyr_samples.Mesh.Invariant.Setup.{Words}
use zephyr_samples.Mesh.Invariant.Ticks.{
  expired-Lively, storage_work_handler-Good, reset_counter_timer_handler-Good,
}
use zephyr_samples.Mesh.Invariant.Reach.{
  tables, Step, Reach, receive, tick, store, idle, announce, clear_resets, stay, then_step,
}
use zephyr_samples.Mesh.Status.{
  light_settled, temp_settled, duv_settled, gen_onoff_publish, gen_level_publish,
  light_lightness_publish, light_lightness_linear_publish, light_ctl_publish,
  gen_level_publish_temp,
}
use zephyr_samples.Mesh.Invariant.Tables.{Each, OpHeld, each_at, tables-Held}

publications-Good : Good unsolicitedly_publish_states_work_handler
unfolding unsolicitedly_publish_states_work_handler
publications-Good w =
    let e = w.env in
    let w1 = gen_onoff_publish (e.root_models 2) w in
    let w2 = gen_level_publish (e.root_models 4) w1 in
    let w3 = light_lightness_publish (e.root_models 11) w2 in
    let w4 = light_lightness_linear_publish (e.root_models 11) w3 in
    let w5 = light_ctl_publish (e.root_models 14) w4 in
    let w6 = gen_level_publish_temp (e.s0_models 0) w5 in
    let g1 = gen_onoff_publish-Good (e.root_models 2) w in
    let g2 = gen_level_publish-Good (e.root_models 4) w1 in
    let g3 = light_lightness_publish-Good (e.root_models 11) w2 in
    let g4 = light_lightness_linear_publish-Good (e.root_models 11) w3 in
    let g5 = light_ctl_publish-Good (e.root_models 14) w4 in
    let g6 = gen_level_publish_temp-Good (e.s0_models 0) w5 in
    let g7 = light_ctl_temp_publish-Good (e.s0_models 2) w6 in
    (
      λ h. g7.0 (g6.0 (g5.0 (g4.0 (g3.0 (g2.0 (g1.0 h)))))),
      g7.1 ∙ (g6.1 ∙ (g5.1 ∙ (g4.1 ∙ (g3.1 ∙ (g2.1 ∙ g1.1))))),
    )

-- Keeping what is there, and the last lightness.
same-Kept : (w : App) → Kept w w
same-Kept w = (λ h. h, refl)

last_stored :
    (w : App)
    → Kept w (
        save_on_flash lightness_last_state
          (with_light w (record w.ctl.light { last = w.ctl.light.current })))
unfolding save_on_flash
last_stored w = (λ h. omega arith, refl)

led-Kept : (w : App) → Kept w (update_led_gpio w)
unfolding update_led_gpio
led-Kept w = (λ h. h, refl)

no_transition-Good : Good no_transition_work_handler
unfolding no_transition_work_handler
no_transition-Good w =
    let readjust = not (light_settled w) || (not (temp_settled w) || not (duv_settled w)) in
    let w1 = if not (light_settled w) then end_light w else w in
    let w2 = if not (temp_settled w1) then end_temp w1 else w1 in
    let w3 = if not (duv_settled w2) then end_duv w2 else w2 in
    let last =
      save_on_flash lightness_last_state
        (with_light w3 (record w3.ctl.light { last = w3.ctl.light.current })) in
    let w4 = if not (w3.ctl.light.current == 0) then last else w3 in
    let w5 = if readjust then update_led_gpio w4 else w4 in
    let s1 =
      Kept-if (not (light_settled w)) w (end_light w) w (λ e. end_light-Good w)
        (λ e. same-Kept w) in
    let s2 =
      Kept-if (not (temp_settled w1)) w1 (end_temp w1) w1 (λ e. end_temp-Good w1)
        (λ e. same-Kept w1) in
    let s3 =
      Kept-if (not (duv_settled w2)) w2 (end_duv w2) w2 (λ e. end_duv-Good w2)
        (λ e. same-Kept w2) in
    let s4 =
      Kept-if (not (w3.ctl.light.current == 0)) w3 last w3 (λ e. last_stored w3)
        (λ e. same-Kept w3) in
    let s5 = Kept-if readjust w4 (update_led_gpio w4) w4 (λ e. led-Kept w4) (λ e. same-Kept w4) in
    let all =
      Kept-trans w w1 w5 s1
        (Kept-trans w1 w2 w5 s2 (Kept-trans w2 w3 w5 s3 (Kept-trans w3 w4 w5 s4 s5))) in
    Kept-if (not w.env.is_provisioned) w w (emit (publish_timer_start 5000) w5) (λ e. same-Kept w)
      (λ e. all)

step-IsValid :
    (w v : App) → Step w v → Words w.env → (IsValid w.ctl → IsValid v.ctl) × (v.env ≡ w.env)
step-IsValid _ _ (receive t i table o model ctx buf w e1 e2 len) words =
    each_at OpHeld table i o (each_at (Each OpHeld) tables t table tables-Held e1) e2 model ctx buf
      w words
step-IsValid _ _ (tick handler w live) words = expired-Lively handler w live
step-IsValid _ _ (store w) words = storage_work_handler-Good w
step-IsValid _ _ (idle w) words = no_transition-Good w
step-IsValid _ _ (announce w) words = publications-Good w
step-IsValid _ _ (clear_resets w) words = reset_counter_timer_handler-Good w

-- If 16-bit reads from a message yield 16 bits, a valid state stays valid through any sequence of
-- steps: messages to any handler of the server tables, expiries of a transition timer that is to run
-- on, and the other work items. The ranges stay in order and within the bounds of the models, the
-- 16-bit values fit, the transition times are known ones, and a transition has at most ten steps.
pub reachable-IsValid :
    (w v : App) → Reach w v → Words w.env → IsValid w.ctl → IsValid v.ctl × (v.env ≡ w.env)
reachable-IsValid _ _ (stay w) words h = (h, refl)
reachable-IsValid _ _ (then_step u v w r s) words h =
    let (valid, same) = reachable-IsValid u v r words h in
    let step = step-IsValid v w s (subst Words (sym same) words) in (step.0 valid, step.1 ∙ same)
