-- ===== src/Mesh/Server/Ack.antt =====
-- mesh/device_composition.c: the text that the Set handlers share, with and without an answer.
use zephyr_samples.Base.{
  ℕ, ◌≡◌, refl, sym, ◌∙◌, Bool, false, Bool-cases, inl, inr, List, ◌==◌, arith, Option-cases,
}
use zephyr_samples.Mesh.State.{k_uptime_get, App, LightCtl, Model, Ctx, Opcode, Field, TimerHandler}
use zephyr_samples.Mesh.Transition.{calculate_rt, set_transition_values}
use zephyr_samples.Mesh.Transition.Ticks.{ctl-update_light_state}
use zephyr_samples.Mesh.Transition.Work.{start_timer}
use zephyr_samples.Mesh.Status.{status_fields, send_status, publish_status}
use zephyr_samples.Mesh.Server.{
  is_duplicate, optional_fields, Server, respond, respond_move, set_message, move_message,
}

-- The state without the remaining time.
abbrev pub without_rt : LightCtl → LightCtl
without_rt c = record c { transition = record c.transition { rt = 0 } }

-- `f` changes no part of the state but the remaining time.
abbrev pub Keeps : (App → App) → Type 0
Keeps f = (w : App) → without_rt (f w).ctl ≡ without_rt w.ctl

calculate_rt-Keeps : Keeps calculate_rt
unfolding calculate_rt
calculate_rt-Keeps w = ground arith

status_fields-Keeps :
    (settled : Bool) (present target : App → List Field)
    → Keeps (λ w. (status_fields settled present target w).1)
unfolding status_fields
status_fields-Keeps settled present target w = ground (arith, calculate_rt-Keeps w)

pub send_status-Keeps :
    (op : Opcode) (settled : App → Bool) (present target : App → List Field) (model : Model)
    (ctx : Ctx)
    → Keeps (λ w. send_status op (settled w) present target model ctx w)
unfolding send_status
send_status-Keeps op settled present target model ctx w =
    status_fields-Keeps (settled w) present target w

pub publish_status-Keeps :
    (op : Opcode) (present target : App → List Field) (model : Model)
    → Keeps (publish_status op present target model)
unfolding publish_status
publish_status-Keeps op present target model w =
    ground (arith, status_fields-Keeps false present target w)

pub start_timer-Keeps : (expiry : TimerHandler) → Keeps (start_timer expiry)
unfolding start_timer
start_timer-Keeps expiry w = ground (arith, ctl-update_light_state w)

-- The answers and the last two steps of a server, as the shared text needs them.
pub record Quiet (s : Server) (reply : App → App) : Type 0 where
  pub publish_keeps : (model : Model) → Keeps (s.publish model)
  pub handler_keeps : Keeps s.handler
  pub reply_keeps : Keeps reply

module _ {s : Server} {reply : App → App} (q : Quiet s reply) (model : Model) where
  -- Publishing and starting the timer after the answer.
  pub tail-Keeps : Keeps (λ w. s.handler (s.publish model (reply w)))
  tail-Keeps w =
      q.handler_keeps (s.publish model (reply w))
      ∙ (q.publish_keeps model (reply w) ∙ q.reply_keeps w)

  -- The same with no answer.
  silent-Keeps : Keeps (λ w. s.handler (s.publish model w))
  silent-Keeps w = q.handler_keeps (s.publish model w) ∙ q.publish_keeps model w

  same_tail :
      (w : App)
      → without_rt (s.handler (s.publish model (reply w))).ctl
        ≡ without_rt (s.handler (s.publish model w)).ctl
  same_tail w = tail-Keeps w ∙ sym (silent-Keeps w)

  respond-same :
      (w : App)
      → without_rt (respond s reply model w).ctl ≡ without_rt (respond s (λ v. v) model w).ctl
  unfolding respond
  respond-same w = elim (Bool-cases (s.differs w)) [
    | inl e ↦ rw e (same_tail _)
    | inr e ↦ rw e (q.reply_keeps w)
  ]

  respond_move-same :
      (w : App)
      → without_rt (respond_move s reply model w).ctl
        ≡ without_rt (respond_move s (λ v. v) model w).ctl
  unfolding respond_move
  respond_move-same w = elim (Bool-cases (s.differs w)) [
    | inl e ↦
        rw e (elim (Bool-cases ((set_transition_values s.binding w).ctl.transition.counter == 0)) [
          | inl z ↦ rw z refl
          | inr z ↦ rw z (same_tail _)
        ])
    | inr e ↦ rw e (q.reply_keeps w)
  ]

  pub set_message-same :
      (targets : App → App) (ctx : Ctx) (tid : ℕ) (buf : List ℕ) (w : App)
      → without_rt (set_message s reply targets model ctx tid buf w).ctl
        ≡ without_rt (set_message s (λ v. v) targets model ctx tid buf w).ctl
  unfolding set_message
  set_message-same targets ctx tid buf w =
      let w1 = (k_uptime_get w).1 in
      elim (Bool-cases (is_duplicate w1.env tid ctx (k_uptime_get w).0 w1.ctl)) [
        | inl e ↦ rw e (q.reply_keeps w1)
        | inr e ↦ rw e (elim (Option-cases (optional_fields w1 buf)) [
          | inl o ↦ rw o refl
          | inr (f, o) ↦ rw o (respond-same _)
        ])
      ]

  pub move_message-same :
      (targets : App → App) (ctx : Ctx) (tid : ℕ) (buf : List ℕ) (w : App)
      → without_rt (move_message s reply targets model ctx tid buf w).ctl
        ≡ without_rt (move_message s (λ v. v) targets model ctx tid buf w).ctl
  unfolding move_message
  move_message-same targets ctx tid buf w =
      let w1 = (k_uptime_get w).1 in
      elim (Bool-cases (is_duplicate w1.env tid ctx (k_uptime_get w).0 w1.ctl)) [
        | inl e ↦ rw e (q.reply_keeps w1)
        | inr e ↦ rw e (elim (Option-cases (optional_fields w1 buf)) [
          | inl o ↦ rw o refl
          | inr (f, o) ↦ rw o (respond_move-same _)
        ])
      ]
