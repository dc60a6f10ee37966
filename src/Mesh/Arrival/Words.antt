-- ===== src/Mesh/Arrival/Words.antt =====
-- mesh/device_composition.c: the servers and targets of the Set messages with one 16-bit value.
use zephyr_samples.Base.{ℕ, ◌≡◌, refl, sym, ap, ◌∙◌, arith}
use zephyr_samples.Base.Int.{ℤ}
use zephyr_samples.Mesh.State.{
  level_lightness_tt, light_lightness_actual_tt, light_lightness_linear_tt, level_temp_tt, App,
  LightCtl, Ctx, level_light, actual, linear, level_temp, k_uptime_get,
}
use zephyr_samples.Mesh.Binding.{store_target, set_target}
use zephyr_samples.Mesh.Binding.Range.{ctl-set_target}
use zephyr_samples.Mesh.Transition.Work.{
  level_lightness_handler, light_lightness_actual_handler, light_lightness_linear_handler,
  level_temp_handler, end_light, end_temp,
}
use zephyr_samples.Mesh.Transition.Completes.{light_now, light_goal, temp_now, temp_goal}
use zephyr_samples.Mesh.Server.{Server, begin_transition}
use zephyr_samples.Mesh.Server.Ack.{Quiet}
use zephyr_samples.Mesh.Server.Handlers.{
  no_reply, level_server, lightness_server, linear_server, level_temp_server,
}
use zephyr_samples.Mesh.Arrival.{start_timer-Armed, Settles, goal-set_transition_values}

-- A server without an answer.
pub Quiet-no_reply : {s : Server} {reply : App → App} → Quiet s reply → Quiet s no_reply
Quiet-no_reply q = record {
  publish_keeps = q.publish_keeps;
  handler_keeps = q.handler_keeps;
  reply_keeps = λ w. refl;
}

pub level-Settles : Settles level_server level_lightness_tt light_now light_goal
unfolding end_light level_lightness_handler
level-Settles = record {
  now_rt = λ c. refl;
  goal_rt = λ c. refl;
  start_now = λ w. refl;
  start_goal = λ w. refl;
  settled = λ w e. ground arith;
  settle_now = λ w. refl;
  settle_goal = λ w. refl;
  arms = λ w nz. start_timer-Armed level_lightness_tt w nz;
  values_goal =
      λ w. ap (λ (p : ℕ × ℕ × ℤ). p.0) (goal-set_transition_values (level_server).binding w);
}

pub lightness-Settles : Settles lightness_server light_lightness_actual_tt light_now light_goal
unfolding end_light light_lightness_actual_handler
lightness-Settles = record {
  now_rt = λ c. refl;
  goal_rt = λ c. refl;
  start_now = λ w. refl;
  start_goal = λ w. refl;
  settled = λ w e. ground arith;
  settle_now = λ w. refl;
  settle_goal = λ w. refl;
  arms = λ w nz. start_timer-Armed light_lightness_actual_tt w nz;
  values_goal =
      λ w. ap (λ (p : ℕ × ℕ × ℤ). p.0) (goal-set_transition_values (lightness_server).binding w);
}

pub linear-Settles : Settles linear_server light_lightness_linear_tt light_now light_goal
unfolding end_light light_lightness_linear_handler
linear-Settles = record {
  now_rt = λ c. refl;
  goal_rt = λ c. refl;
  start_now = λ w. refl;
  start_goal = λ w. refl;
  settled = λ w e. ground arith;
  settle_now = λ w. refl;
  settle_goal = λ w. refl;
  arms = λ w nz. start_timer-Armed light_lightness_linear_tt w nz;
  values_goal =
      λ w. ap (λ (p : ℕ × ℕ × ℤ). p.0) (goal-set_transition_values (linear_server).binding w);
}

pub level_temp-Settles : Settles level_temp_server level_temp_tt temp_now temp_goal
unfolding end_temp level_temp_handler
level_temp-Settles = record {
  now_rt = λ c. refl;
  goal_rt = λ c. refl;
  start_now = λ w. refl;
  start_goal = λ w. refl;
  settled = λ w e. ground arith;
  settle_now = λ w. refl;
  settle_goal = λ w. refl;
  arms = λ w nz. start_timer-Armed level_temp_tt w nz;
  values_goal =
      λ w. ap (λ (p : ℕ × ℕ × ℤ). p.1) (goal-set_transition_values (level_temp_server).binding w);
}

pub transition-level :
    (v : ℤ) (w : App) → (set_target level_light v w).ctl.transition ≡ w.ctl.transition
unfolding store_target
transition-level v w = ap (λ (c : LightCtl). c.transition) (ctl-set_target level_light v w)

pub begun-level :
    (v : ℤ) (tid : ℕ) (ctx : Ctx) (now time delay type : ℕ) (w : App)
    → light_goal
        (set_target level_light v
          (begin_transition tid ctx now time delay type (k_uptime_get w).1)).ctl
      ≡ light_goal (set_target level_light v w).ctl
unfolding store_target begin_transition
begun-level v tid ctx now time delay type w =
    ap light_goal (ctl-set_target level_light v _)
    ∙ sym (ap light_goal (ctl-set_target level_light v w))

pub transition-lightness :
    (v : ℤ) (w : App) → (set_target actual v w).ctl.transition ≡ w.ctl.transition
unfolding store_target
transition-lightness v w = ap (λ (c : LightCtl). c.transition) (ctl-set_target actual v w)

pub begun-lightness :
    (v : ℤ) (tid : ℕ) (ctx : Ctx) (now time delay type : ℕ) (w : App)
    → light_goal
        (set_target actual v (begin_transition tid ctx now time delay type (k_uptime_get w).1)).ctl
      ≡ light_goal (set_target actual v w).ctl
unfolding store_target begin_transition
begun-lightness v tid ctx now time delay type w =
    ap light_goal (ctl-set_target actual v _) ∙ sym (ap light_goal (ctl-set_target actual v w))

pub transition-linear :
    (v : ℤ) (w : App) → (set_target linear v w).ctl.transition ≡ w.ctl.transition
unfolding store_target
transition-linear v w = ap (λ (c : LightCtl). c.transition) (ctl-set_target linear v w)

pub begun-linear :
    (v : ℤ) (tid : ℕ) (ctx : Ctx) (now time delay type : ℕ) (w : App)
    → light_goal
        (set_target linear v (begin_transition tid ctx now time delay type (k_uptime_get w).1)).ctl
      ≡ light_goal (set_target linear v w).ctl
unfolding store_target begin_transition
begun-linear v tid ctx now time delay type w =
    ap light_goal (ctl-set_target linear v _) ∙ sym (ap light_goal (ctl-set_target linear v w))

pub transition-level_temp :
    (v : ℤ) (w : App) → (set_target level_temp v w).ctl.transition ≡ w.ctl.transition
unfolding store_target
transition-level_temp v w = ap (λ (c : LightCtl). c.transition) (ctl-set_target level_temp v w)

pub begun-level_temp :
    (v : ℤ) (tid : ℕ) (ctx : Ctx) (now time delay type : ℕ) (w : App)
    → temp_goal
        (set_target level_temp v
          (begin_transition tid ctx now time delay type (k_uptime_get w).1)).ctl
      ≡ temp_goal (set_target level_temp v w).ctl
unfolding store_target begin_transition
begun-level_temp v tid ctx now time delay type w =
    ap temp_goal (ctl-set_target level_temp v _)
    ∙ sym (ap temp_goal (ctl-set_target level_temp v w))
