-- ===== src/Mesh/Invariant/Reach.antt =====
-- mesh/device_composition.c, mesh/transition.c, mesh/no_transition_work_handler.c and storage.c as one
-- step relation: a message to a server model, the expiry of a timer, or a work item.
use zephyr_samples.Base.{ℕ, ◌≤◌, ◌≡◌, List, [], ◌∷◌, get_elem?, some}
use zephyr_samples.Mesh.State.{App, Model, Ctx, TimerHandler}
use zephyr_samples.Mesh.Storage.{storage_work_handler}
use zephyr_samples.Mesh.Light.{reset_counter_timer_handler}
use zephyr_samples.Mesh.Transition.Work.{expired}
use zephyr_samples.Mesh.Server.Tables.{
  Op, gen_onoff_srv_op, gen_level_srv_op, gen_def_trans_time_srv_op, gen_power_onoff_srv_op,
  gen_power_onoff_setup_srv_op, light_lightness_srv_op, light_lightness_setup_srv_op,
  light_ctl_srv_op, light_ctl_setup_srv_op, light_ctl_temp_srv_op, vnd_ops, gen_level_srv_op_temp,
}
use zephyr_samples.Mesh.Idle.{no_transition_work_handler, unsolicitedly_publish_states_work_handler}
use zephyr_samples.Mesh.Invariant.Ticks.{Live}

-- The tables of all server models of the two elements.
abbrev pub tables : List (List Op)
tables =
    gen_onoff_srv_op ∷ gen_level_srv_op ∷ gen_def_trans_time_srv_op ∷ gen_power_onoff_srv_op
    ∷ gen_power_onoff_setup_srv_op ∷ light_lightness_srv_op ∷ light_lightness_setup_srv_op
    ∷ light_ctl_srv_op ∷ light_ctl_setup_srv_op ∷ light_ctl_temp_srv_op ∷ vnd_ops
    ∷ gen_level_srv_op_temp ∷ []

-- One event. A message that is at least as long as its table asks for goes to the handler of its
-- opcode; a timer that is to run on expires; a work item runs.
pub data Step : App → App → Type 0 where
  receive :
      (t i : ℕ) (table : List Op) (o : Op) (model : Model) (ctx : Ctx) (buf : List ℕ) (w : App)
      → get_elem? tables t ≡ some table
      → get_elem? table i ≡ some o
      → o.min_len ≤ w.env.buf_len buf
      → Step w (o.func model ctx buf w)
  tick : (handler : TimerHandler) (w : App) → Live w → Step w (expired handler w)
  store : (w : App) → Step w (storage_work_handler w)
  idle : (w : App) → Step w (no_transition_work_handler w)
  announce : (w : App) → Step w (unsolicitedly_publish_states_work_handler w)
  clear_resets : (w : App) → Step w (reset_counter_timer_handler w)

pub data Reach : App → App → Type 0 where
  stay : (w : App) → Reach w w
  then_step : (u v w : App) → Reach u v → Step v w → Reach u w
