-- ===== src/Mesh/Arrival.antt =====
-- mesh/device_composition.c and mesh/transition.c together: an accepted Set message, and the ticks of
-- the transition that it starts.
pub mod Words
pub mod Targets
pub mod Sets
pub mod Ctl
use zephyr_samples.Base.{
  ℕ, ◌-◌, zero, suc, ◌≤◌, ◌<◌, ◌^◌, ◌≡◌, refl, sym, ap, ◌∙◌, ◌⊎◌, inl, inr, Bool, true, false,
  if◌then◌else◌, ◌==◌, Bool-cases, List, [], ◌∷◌, Option, none, some, ◌*◌, arith,
}
use zephyr_samples.Base.Int.{ℤ}
use zephyr_samples.Mesh.State.{
  App, Env, LightCtl, Transition, Model, Ctx, StateBinding, move, k_uptime_get, non_move, Call,
  TimerHandler, timer_init, timer_start, timer_stop,
}
use zephyr_samples.Mesh.Transition.{
  set_transition_counter, set_light_delta, set_temp_delta, set_duv_delta, set_deltas,
  set_transition_values,
}
use zephyr_samples.Mesh.Transition.Work.{start_timer, expired}
use zephyr_samples.Mesh.Transition.Ticks.{ticks}
use zephyr_samples.Mesh.Transition.Completes.{all_goal}
use zephyr_samples.Mesh.Server.{
  Server, start, is_duplicate, optional_fields, begin_transition, respond, set_message,
}
use zephyr_samples.Mesh.Server.Ack.{without_rt, Keeps, Quiet, tail-Keeps}

-- What `set_deltas` and `set_transition_values` leave alone.
transition-set_deltas :
    (b : StateBinding) (w : App) → (set_deltas b w).ctl.transition ≡ w.ctl.transition
unfolding set_deltas set_light_delta set_temp_delta set_duv_delta
transition-set_deltas StateBinding.onoff w = refl
transition-set_deltas StateBinding.level_light w = refl
transition-set_deltas StateBinding.delta_level_light w = refl
transition-set_deltas StateBinding.move_light w = refl
transition-set_deltas StateBinding.actual w = refl
transition-set_deltas StateBinding.linear w = refl
transition-set_deltas StateBinding.ctl_light w = refl
transition-set_deltas StateBinding.level_temp w = refl
transition-set_deltas StateBinding.move_temp w = refl
transition-set_deltas StateBinding.ctl_temp w = refl
transition-set_deltas StateBinding.ctl_delta_uv w = refl

goal-set_deltas : (b : StateBinding) (w : App) → all_goal (set_deltas b w).ctl ≡ all_goal w.ctl
unfolding set_deltas set_light_delta set_temp_delta set_duv_delta
goal-set_deltas StateBinding.onoff w = refl
goal-set_deltas StateBinding.level_light w = refl
goal-set_deltas StateBinding.delta_level_light w = refl
goal-set_deltas StateBinding.move_light w = refl
goal-set_deltas StateBinding.actual w = refl
goal-set_deltas StateBinding.linear w = refl
goal-set_deltas StateBinding.ctl_light w = refl
goal-set_deltas StateBinding.level_temp w = refl
goal-set_deltas StateBinding.move_temp w = refl
goal-set_deltas StateBinding.ctl_temp w = refl
goal-set_deltas StateBinding.ctl_delta_uv w = refl

type-set_transition_counter :
    (e : Env) (t : Transition) → (set_transition_counter e t).1.type ≡ t.type
unfolding set_transition_counter
type-set_transition_counter e t = ground arith

type-set_transition_values :
    (b : StateBinding) (w : App)
    → (set_transition_values b w).ctl.transition.type ≡ w.ctl.transition.type
unfolding set_transition_values
type-set_transition_values b w =
    let same = type-set_transition_counter w.env w.ctl.transition in
    elim (Bool-cases (set_transition_counter w.env w.ctl.transition).0) [
      | inl e ↦
          rw e (elim (Bool-cases ((set_transition_counter w.env w.ctl.transition).1.type == move)) [
            | inl i ↦ rw i same
            | inr i ↦ rw i (ap (λ (t : Transition). t.type) (transition-set_deltas b _) ∙ same)
          ])
      | inr e ↦ rw e same
    ]

pub goal-set_transition_values :
    (b : StateBinding) (w : App) → all_goal (set_transition_values b w).ctl ≡ all_goal w.ctl
unfolding set_transition_values
goal-set_transition_values b w =
    elim (Bool-cases (set_transition_counter w.env w.ctl.transition).0) [
      | inl e ↦
          rw e (elim (Bool-cases ((set_transition_counter w.env w.ctl.transition).1.type == move)) [
            | inl i ↦ rw i refl
            | inr i ↦ rw i (goal-set_deltas b _)
          ])
      | inr e ↦ rw e refl
    ]

-- The expiry function that the calls, newest first, have set.
abbrev pub installed : List Call → Option TimerHandler
installed [] = none
installed (timer_init h ∷ cs) = some h
installed (_ ∷ cs) = installed cs

-- The timer that the calls leave running: its expiry function, and the delay and the period that it
-- was started with.
abbrev pub running : List Call → Option (TimerHandler × ℕ × ℕ)
running [] = none
running (timer_init h ∷ cs) = none
running (timer_start delay period ∷ cs) = elim (installed cs) [
  | none ↦ none
  | some h ↦ some (h, delay, period)
]
running (timer_stop ∷ cs) = none
running (_ ∷ cs) = running cs

-- The transition timer runs, with the expiry function `h` and the times of the transition.
abbrev pub Armed : TimerHandler → App → Type 0
Armed h v = running v.calls ≡ some (h, v.ctl.transition.delay * 5, v.ctl.transition.quo_tt)

pub start_timer-Armed :
    (h : TimerHandler) (w : App)
    → (w.ctl.transition.counter == 0) ≡ false
    → Armed h (start_timer h w)
unfolding start_timer
start_timer-Armed h w some_left = rw some_left refl

-- What a server reads of the light (`now`) and where it is to go (`goal`): where the server sees no
-- difference they agree, and its instantaneous end makes them agree. If there are steps, its end starts the timer with `h`.
pub record Settles {A : Type 0} (s : Server) (h : TimerHandler) (now goal : LightCtl → A)
    : Type 0 where
  pub now_rt : (c : LightCtl) → now (without_rt c) ≡ now c
  pub goal_rt : (c : LightCtl) → goal (without_rt c) ≡ goal c
  pub start_now : (w : App) → now (start w).ctl ≡ now w.ctl
  pub start_goal : (w : App) → goal (start w).ctl ≡ goal w.ctl
  pub settled : (w : App) → s.differs w ≡ false → now w.ctl ≡ goal w.ctl
  pub settle_now : (w : App) → now (s.settle w).ctl ≡ goal w.ctl
  pub settle_goal : (w : App) → goal (s.settle w).ctl ≡ goal w.ctl
  pub arms : (w : App) → (w.ctl.transition.counter == 0) ≡ false → Armed h (s.handler w)
  pub values_goal : (w : App) → goal (set_transition_values s.binding w).ctl ≡ goal w.ctl

-- The state is at `g` already, or a transition to `g` was just started, and the timer runs.
abbrev pub Started :
    {A : Type 0} → TimerHandler → (LightCtl → A) → (LightCtl → A) → A → App → Type 0
Started h now goal g v =
    (now v.ctl ≡ g)
    ⊎ ((goal v.ctl ≡ g)
        × (v.ctl.transition.just_started ≡ true)
        × ((v.ctl.transition.type == move) ≡ false)
        × (0 < v.ctl.transition.counter)
        × Armed h v)

-- The state is at `g` already; or the transition timer runs with the expiry function `h`, and the state
-- is at `g` after as many of its expiries as there are steps, and one.
abbrev pub Arrives : {A : Type 0} → (LightCtl → A) → A → TimerHandler → App → Type 0
Arrives now g h v =
    (now v.ctl ≡ g)
    ⊎ (Armed h v × (now (ticks (suc v.ctl.transition.counter) (expired h) v).ctl ≡ g))

pub Started-Arrives :
    {A : Type 0} (now goal : LightCtl → A) (g : A) (h : TimerHandler) (v : App)
    → v.ctl.transition.counter ≤ 10
    → ((n : ℕ)
        → n < 2 ^ 32
        → v.ctl.transition.just_started ≡ true
        → (v.ctl.transition.type == move) ≡ false
        → v.ctl.transition.counter ≡ suc n
        → now (ticks (suc (suc n)) (expired h) v).ctl ≡ goal v.ctl)
    → Started h now goal g v
    → Arrives now g h v
Started-Arrives now goal g h v few completes (inl e) = inl e
Started-Arrives now goal g h v few completes (inr (at_goal, js, nm, some_left, armed)) =
    let count : v.ctl.transition.counter ≡ suc (v.ctl.transition.counter - 1) = omega arith in
    inr (
      armed,
      ap (λ (k : ℕ). now (ticks (suc k) (expired h) v).ctl) count
          ∙ (completes (v.ctl.transition.counter - 1) (omega arith) js nm count ∙ at_goal),
    )

module _ {A : Type 0} {s : Server} {h : TimerHandler} {now goal : LightCtl → A}
    (settles : Settles s h now goal) {reply : App → App} (q : Quiet s reply) (model : Model) where
  kept_now : (f : App → App) → Keeps f → (w : App) → now (f w).ctl ≡ now w.ctl
  kept_now f k w = sym (settles.now_rt (f w).ctl) ∙ (ap now (k w) ∙ settles.now_rt w.ctl)

  kept_goal : (f : App → App) → Keeps f → (w : App) → goal (f w).ctl ≡ goal w.ctl
  kept_goal f k w = sym (settles.goal_rt (f w).ctl) ∙ (ap goal (k w) ∙ settles.goal_rt w.ctl)

  respond-Started :
      (w : App)
      → (w.ctl.transition.type == move) ≡ false
      → Started h now goal (goal w.ctl) (respond s reply model w)
  unfolding respond
  respond-Started w nm =
      let w1 = set_transition_values s.binding w in
      let tail = λ (v : App). s.handler (s.publish model (reply v)) in
      let keeps : Keeps tail = tail-Keeps q model in
      let started = start w1 in
      let same = ap (λ (c : LightCtl). c.transition) (keeps started) in
      elim (Bool-cases (s.differs w)) [
        | inl e ↦ rw e (elim (Bool-cases (w1.ctl.transition.counter == 0)) [
          | inl z ↦ rw z (
              inl (
                kept_now tail keeps (start (s.settle w1))
                ∙ (settles.start_now (s.settle w1)
                    ∙ (settles.settle_now w1 ∙ settles.values_goal w))))
          | inr z ↦ rw z (
              inr (
                kept_goal tail keeps started ∙ (settles.start_goal w1 ∙ settles.values_goal w),
                ap (λ (t : Transition). t.just_started) same,
                ap (λ (t : Transition). t.type == move) same
                    ∙ (ap (λ (x : ℕ). x == move) (type-set_transition_values s.binding w) ∙ nm),
                (let count = ap (λ (t : Transition). t.counter) same in ground arith),
                settles.arms (s.publish model (reply started)) (
                    ap (λ (c : LightCtl). c.transition.counter == 0)
                      (q.publish_keeps model (reply started) ∙ q.reply_keeps started)
                    ∙ z),
              ))
        ])
        | inr e ↦ rw e (inl (kept_now reply q.reply_keeps w ∙ settles.settled w e))
      ]

  -- A message that is no repetition and whose optional fields are sound.
  pub set_message-Started :
      (targets : App → App) (ctx : Ctx) (tid : ℕ) (buf : List ℕ) (w : App) (time delay : ℕ) (g : A)
      → is_duplicate w.env tid ctx (w.env.uptime w.readings) w.ctl ≡ false
      → optional_fields w buf ≡ some (time, delay)
      → ((v : App) → (targets v).ctl.transition ≡ v.ctl.transition)
      → goal
          (targets (
            begin_transition tid ctx
              (w.env.uptime w.readings)
              time
              delay
              non_move
              (k_uptime_get w).1)).ctl
        ≡ g
      → Started h now goal g (set_message s reply targets model ctx tid buf w)
  unfolding set_message optional_fields begin_transition
  set_message-Started targets ctx tid buf w time delay g new fields keeps reached =
      let b =
        begin_transition tid ctx (w.env.uptime w.readings) time delay non_move (k_uptime_get w).1 in
      let typed : ((targets b).ctl.transition.type == move) ≡ false =
        ap (λ (t : Transition). t.type == move) (keeps b) in
      rw (new, fields) (rw reached at (respond-Started (targets b) typed))
