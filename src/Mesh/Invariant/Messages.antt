-- ===== src/Mesh/Invariant/Messages.antt =====
-- mesh/device_composition.c: validity for the text that the Set handlers share.
use zephyr_samples.Base.{
  ℕ, ◌%◌, ◌≤◌, ◌≡◌, refl, ◌∙◌, List, some, none, arith, ◌==◌, Bool-cases, Option-cases, inl, inr,
}
use zephyr_samples.Base.Int.{ℤ, eqb_ℤ, ◌+ℤ◌}
use zephyr_samples.Base.Words.{to_s16, to_s32}
use zephyr_samples.Mesh.State.{App, Model, Ctx, StateBinding, k_uptime_get, non_move, move}
use zephyr_samples.Mesh.Binding.{get_current}
use zephyr_samples.Mesh.Transition.{set_transition_values}
use zephyr_samples.Mesh.Server.{
  Server, Static, start, is_duplicate, optional_fields, begin_transition, respond, respond_move,
  set_message, move_message, clamp_level, delta_admitted, delta_message,
}
use zephyr_samples.Mesh.Invariant.{Good, Good-compose, set_transition_values-Good}

-- The parts of a server keep the invariant.
pub record Sound (s : Server) : Type 0 where
  pub settle_good : Good s.settle
  pub publish_good : (model : Model) → Good (s.publish model)
  pub handler_good : Good s.handler

start-Good : Good start
start-Good w = (λ h. omega arith, refl)

begin_transition-Good :
    (tid : ℕ) (ctx : Ctx) (now tt delay type : ℕ)
    → tt % 64 ≤ 62
    → Good (begin_transition tid ctx now tt delay type)
unfolding begin_transition
begin_transition-Good tid ctx now tt delay type known w = (λ h. omega arith, refl)

-- A transition time that is taken from a message, or by default, is known.
optional_fields_known :
    (w : App) (buf : List ℕ) (tt delay : ℕ)
    → w.ctl.tt % 64 ≤ 62
    → optional_fields w buf ≡ some (tt, delay)
    → tt % 64 ≤ 62
unfolding optional_fields
optional_fields_known w buf tt delay h e = ground arith

-- No part of what follows changes the environment, whatever the transition time is.
begin_env :
    (tid : ℕ) (ctx : Ctx) (now time delay type : ℕ) (w : App)
    → (begin_transition tid ctx now time delay type w).env ≡ w.env
unfolding begin_transition
begin_env tid ctx now time delay type w = refl

admitted_env :
    (finish targets : App → App) (tid : ℕ) (ctx : Ctx) (now time delay type : ℕ)
    → Good finish
    → Good targets
    → (w : App) → (finish (targets (begin_transition tid ctx now time delay type w))).env ≡ w.env
admitted_env finish targets tid ctx now time delay type fin good w =
    let b = begin_transition tid ctx now time delay type w in
    (fin (targets b)).1 ∙ ((good b).1 ∙ begin_env tid ctx now time delay type w)

module _ {s : Server} (sound : Sound s) (reply : App → App) (reply_good : Good reply)
    (model : Model) where
  tail-Good : Good (λ w. s.handler (s.publish model (reply (start w))))
  tail-Good =
      Good-compose start (λ w. s.handler (s.publish model (reply w))) start-Good
        (Good-compose reply (λ w. s.handler (s.publish model w)) reply_good
          (Good-compose (s.publish model) s.handler (sound.publish_good model) sound.handler_good))

  respond-Good : Good (respond s reply model)
  unfolding respond
  respond-Good w =
      let values = set_transition_values-Good s.binding w in
      let w1 = set_transition_values s.binding w in
      elim (Bool-cases (s.differs w)) [
        | inl e ↦ rw e (elim (Bool-cases (w1.ctl.transition.counter == 0)) [
          | inl z ↦ rw z (
            λ h. (tail-Good (s.settle w1)).0 ((sound.settle_good w1).0 (values.0 h)),
            (tail-Good (s.settle w1)).1 ∙ ((sound.settle_good w1).1 ∙ values.1),
          )
          | inr z ↦ rw z (λ h. (tail-Good w1).0 (values.0 h), (tail-Good w1).1 ∙ values.1)
        ])
        | inr e ↦ rw e (reply_good w)
      ]

  respond_move-Good : Good (respond_move s reply model)
  unfolding respond_move
  respond_move-Good w =
      let values = set_transition_values-Good s.binding w in
      let w1 = set_transition_values s.binding w in
      elim (Bool-cases (s.differs w)) [
        | inl e ↦ rw e (elim (Bool-cases (w1.ctl.transition.counter == 0)) [
          | inl z ↦ rw z values
          | inr z ↦ rw z (λ h. (tail-Good w1).0 (values.0 h), (tail-Good w1).1 ∙ values.1)
        ])
        | inr e ↦ rw e (reply_good w)
      ]

  -- What follows the reading of the clock, up to the answer of `finish`.
  admitted-Good :
      (finish targets : App → App) (tid : ℕ) (ctx : Ctx) (now time delay type : ℕ)
      → Good finish
      → Good targets
      → time % 64 ≤ 62
      → Good (λ w. finish (targets (begin_transition tid ctx now time delay type w)))
  admitted-Good finish targets tid ctx now time delay type fin good known =
      Good-compose (begin_transition tid ctx now time delay type) (λ w. finish (targets w))
        (begin_transition-Good tid ctx now time delay type known)
        (Good-compose targets finish good fin)

  message-Good :
      (finish targets : App → App) (tid : ℕ) (ctx : Ctx) (now type : ℕ) (buf : List ℕ)
      → Good finish
      → Good targets
      → Good (λ w. elim (optional_fields w buf) [
        | none ↦ w
        | some (time, delay) ↦ finish (targets (begin_transition tid ctx now time delay type w))
      ])
  message-Good finish targets tid ctx now type buf fin good w =
      elim (Option-cases (optional_fields w buf)) [
        | inl o ↦ rw o (λ h. h, refl)
        | inr ((time, delay), o) ↦ rw o (
          λ h.
              (admitted-Good finish targets tid ctx now time delay type fin good
                  (optional_fields_known w buf time delay h.default_tt o) w).0
                h,
          (admitted_env finish targets tid ctx now time delay type fin good w),
        )
      ]

  pub set_message-Good :
      (targets : App → App) (ctx : Ctx) (tid : ℕ) (buf : List ℕ)
      → Good targets
      → Good (set_message s reply targets model ctx tid buf)
  unfolding set_message
  set_message-Good targets ctx tid buf good w =
      let now = (k_uptime_get w).0 in
      let w1 = (k_uptime_get w).1 in
      elim (Bool-cases (is_duplicate w1.env tid ctx now w1.ctl)) [
        | inl e ↦ rw e (reply_good w1)
        | inr e ↦ rw e (
            message-Good (respond s reply model) targets tid ctx now non_move buf respond-Good good
              w1)
      ]

  pub move_message-Good :
      (targets : App → App) (ctx : Ctx) (tid : ℕ) (buf : List ℕ)
      → Good targets
      → Good (move_message s reply targets model ctx tid buf)
  unfolding move_message
  move_message-Good targets ctx tid buf good w =
      let now = (k_uptime_get w).0 in
      let w1 = (k_uptime_get w).1 in
      elim (Bool-cases (is_duplicate w1.env tid ctx now w1.ctl)) [
        | inl e ↦ rw e (reply_good w1)
        | inr e ↦ rw e (
            message-Good (respond_move s reply model) targets tid ctx now move buf respond_move-Good
              good w1)
      ]

  delta_admitted-Good :
      (set : ℤ → App → App) (ctx : Ctx) (tid now : ℕ) (target : ℤ) (buf : List ℕ)
      → ((v : ℤ) → Good (set v))
      → Good (delta_admitted s reply set model ctx tid now target buf)
  unfolding delta_admitted
  delta_admitted-Good set ctx tid now target buf good w =
      message-Good (respond s reply model) (set (clamp_level target)) tid ctx now non_move buf
        respond-Good (good _) w

  -- Writing the static changes nothing of the state.
  pub delta_message-Good :
      (last : Static) (level : StateBinding) (step : App → ℤ) (set : ℤ → App → App) (ctx : Ctx)
      (delta : ℤ) (tid : ℕ) (buf : List ℕ)
      → ((v : ℤ) → Good (last.write v))
      → ((v : ℤ) → Good (set v))
      → Good (delta_message s last level step reply set model ctx delta tid buf)
  unfolding delta_message
  delta_message-Good last level step set ctx delta tid buf keeps good w =
      let now = (k_uptime_get w).0 in
      let w1 = (k_uptime_get w).1 in
      let w2 = last.write (to_s16 (get_current level w1)) w1 in
      let rest = delta_admitted-Good set ctx tid now (to_s32 (last.read w2 +ℤ delta)) buf good w2 in
      let kept = keeps (to_s16 (get_current level w1)) w1 in
      elim (Bool-cases (is_duplicate w1.env tid ctx now w1.ctl)) [
        | inl e ↦ rw e (elim (Bool-cases (eqb_ℤ (step w1) delta)) [
          | inl d ↦ rw d (reply_good w1)
          | inr d ↦
              rw d
                (delta_admitted-Good set ctx tid now (to_s32 (last.read w1 +ℤ delta)) buf good w1)
        ])
        | inr e ↦ rw e (λ h. rest.0 (kept.0 h), rest.1 ∙ kept.1)
      ]
