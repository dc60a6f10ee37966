-- ===== src/Mesh/Arrival/Targets.antt =====
-- mesh/device_composition.c: the servers and targets of the OnOff, CTL and CTL temperature Set messages.
use zephyr_samples.Base.{ℕ, ◌≡◌, refl, sym, ap, ◌∙◌, arith}
use zephyr_samples.Base.Int.{ℤ, pos}
use zephyr_samples.Base.Words.{signed16}
use zephyr_samples.Mesh.State.{
  onoff_tt, light_ctl_tt, light_ctl_temp_tt, App, LightCtl, Ctx, StateBinding, onoff, ctl_light,
  ctl_temp, ctl_delta_uv, k_uptime_get,
}
use zephyr_samples.Mesh.Storage.{save_on_flash}
use zephyr_samples.Mesh.Binding.{store_target, set_target}
use zephyr_samples.Mesh.Binding.Range.{ctl-set_target}
use zephyr_samples.Mesh.Transition.Work.{
  onoff_handler, light_ctl_handler, light_ctl_temp_handler, end_light, end_temp, end_duv,
}
use zephyr_samples.Mesh.Transition.Completes.{
  light_now, light_goal, temp_duv_now, temp_duv_goal, all_now, all_goal,
}
use zephyr_samples.Mesh.Server.{begin_transition}
use zephyr_samples.Mesh.Server.Handlers.{onoff_server, ctl_server, ctl_temp_server}
use zephyr_samples.Mesh.Arrival.{start_timer-Armed, Settles, goal-set_transition_values}

pub onoff-Settles : Settles onoff_server onoff_tt light_now light_goal
unfolding end_light onoff_handler
onoff-Settles = record {
  now_rt = λ c. refl;
  goal_rt = λ c. refl;
  start_now = λ w. refl;
  start_goal = λ w. refl;
  settled = λ w e. ground arith;
  settle_now = λ w. refl;
  settle_goal = λ w. refl;
  arms = λ w nz. start_timer-Armed onoff_tt w nz;
  values_goal =
      λ w. ap (λ (p : ℕ × ℕ × ℤ). p.0) (goal-set_transition_values (onoff_server).binding w);
}

pub ctl-Settles : Settles ctl_server light_ctl_tt all_now all_goal
unfolding end_light end_temp end_duv light_ctl_handler
ctl-Settles = record {
  now_rt = λ c. refl;
  goal_rt = λ c. refl;
  start_now = λ w. refl;
  start_goal = λ w. refl;
  settled = λ w e. ground arith;
  settle_now = λ w. refl;
  settle_goal = λ w. refl;
  arms = λ w nz. start_timer-Armed light_ctl_tt w nz;
  values_goal = λ w. ap (λ (p : ℕ × ℕ × ℤ). p) (goal-set_transition_values (ctl_server).binding w);
}

pub ctl_temp-Settles : Settles ctl_temp_server light_ctl_temp_tt temp_duv_now temp_duv_goal
unfolding end_temp end_duv light_ctl_temp_handler
ctl_temp-Settles = record {
  now_rt = λ c. refl;
  goal_rt = λ c. refl;
  start_now = λ w. refl;
  start_goal = λ w. refl;
  settled = λ w e. ground arith;
  settle_now = λ w. refl;
  settle_goal = λ w. refl;
  arms = λ w nz. start_timer-Armed light_ctl_temp_tt w nz;
  values_goal = λ w.
      ap (λ (p : ℕ × ℕ × ℤ). (p.1, p.2)) (goal-set_transition_values (ctl_temp_server).binding w);
}

-- The targets of a CTL message and of a CTL temperature message.
abbrev pub temp_asked : ℕ → ℕ → App → App
temp_asked temp delta_uv w =
    set_target ctl_delta_uv (signed16 delta_uv) (set_target ctl_temp (pos temp) w)

abbrev pub ctl_asked : ℕ → ℕ → ℕ → App → App
ctl_asked lightness temp delta_uv w =
    temp_asked temp delta_uv (set_target ctl_light (pos lightness) w)

-- What a target is depends on the state alone, and not on the part that a transition is begun in.
pub onoff_transition : (v : ℤ) (w : App) → (set_target onoff v w).ctl.transition ≡ w.ctl.transition
unfolding store_target
onoff_transition v w = ap (λ (c : LightCtl). c.transition) (ctl-set_target onoff v w) ∙ ground arith

pub set_ctl-transition :
    (b : StateBinding) (v : ℤ) (w : App)
    → (store_target b v w).ctl.transition ≡ w.ctl.transition
    → (set_target b v w).ctl.transition ≡ w.ctl.transition
set_ctl-transition b v w e = ap (λ (c : LightCtl). c.transition) (ctl-set_target b v w) ∙ e

pub temp_asked-transition :
    (temp delta_uv : ℕ) (w : App) → (temp_asked temp delta_uv w).ctl.transition ≡ w.ctl.transition
unfolding store_target
temp_asked-transition temp delta_uv w =
    set_ctl-transition ctl_delta_uv (signed16 delta_uv) (set_target ctl_temp (pos temp) w) refl
    ∙ set_ctl-transition ctl_temp (pos temp) w refl

pub ctl_asked-transition :
    (lightness temp delta_uv : ℕ) (w : App)
    → (ctl_asked lightness temp delta_uv w).ctl.transition ≡ w.ctl.transition
unfolding store_target
ctl_asked-transition lightness temp delta_uv w =
    temp_asked-transition temp delta_uv (set_target ctl_light (pos lightness) w)
    ∙ set_ctl-transition ctl_light (pos lightness) w refl

pub onoff_begun :
    (v : ℤ) (tid : ℕ) (ctx : Ctx) (now time delay type : ℕ) (w : App)
    → light_goal
        (set_target onoff v (begin_transition tid ctx now time delay type (k_uptime_get w).1)).ctl
      ≡ light_goal (set_target onoff v w).ctl
unfolding store_target begin_transition
onoff_begun v tid ctx now time delay type w =
    ap light_goal (ctl-set_target onoff v _)
    ∙ (ground arith ∙ sym (ap light_goal (ctl-set_target onoff v w)))

pub temp_begun :
    (temp delta_uv : ℕ) (tid : ℕ) (ctx : Ctx) (now time delay type : ℕ) (w : App)
    → temp_duv_goal
        (temp_asked temp delta_uv
          (begin_transition tid ctx now time delay type (k_uptime_get w).1)).ctl
      ≡ temp_duv_goal (temp_asked temp delta_uv w).ctl
unfolding set_target store_target save_on_flash begin_transition
temp_begun temp delta_uv tid ctx now time delay type w = ground arith

pub ctl_begun :
    (lightness temp delta_uv : ℕ) (tid : ℕ) (ctx : Ctx) (now time delay type : ℕ) (w : App)
    → all_goal
        (ctl_asked lightness temp delta_uv
          (begin_transition tid ctx now time delay type (k_uptime_get w).1)).ctl
      ≡ all_goal (ctl_asked lightness temp delta_uv w).ctl
unfolding set_target store_target save_on_flash begin_transition
ctl_begun lightness temp delta_uv tid ctx now time delay type w = ground arith
