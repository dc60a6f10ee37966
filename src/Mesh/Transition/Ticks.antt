-- ===== src/Mesh/Transition/Ticks.antt =====
-- What the ticks of the transition timer do to the light: the run of a work handler from the first
-- tick to the one that stops the timer.
use zephyr_samples.Base.{
  ℕ, zero, suc, ◌<◌, ◌^◌, ◌≡◌, refl, ap, ◌∙◌, sym, subst, true, false, if◌then◌else◌, ◌==◌, not,
  Bool-cases, inl, inr, List, ◌∷◌, arith,
}
use zephyr_samples.Mesh.State.{App, LightCtl, Transition, Call, timer_stop, move}
use zephyr_samples.Mesh.Light.{update_light_state, update_led_gpio}
use zephyr_samples.Mesh.Transition.Work.{first_tick, later_tick, count_down}

-- A work handler run for `n` expiries of the timer.
unfoldable pub ticks : ℕ → (App → App) → App → App
ticks zero handler w = w
ticks (suc n) handler w = ticks n handler (handler w)

-- The last call is the one that stops the timer.
abbrev pub Stopped : App → Type 0
Stopped w = (earlier : List Call) × (w.calls ≡ timer_stop ∷ earlier)

pub ctl-update_light_state : (w : App) → (update_light_state w).ctl ≡ w.ctl
unfolding update_light_state update_led_gpio
ctl-update_light_state w = ground arith

-- A transition that runs: it is past its first tick, is no move, and has `n` ticks to go.
abbrev Runs : ℕ → Transition → Type 0
Runs n t = (t.just_started ≡ false) × ((t.type == move) ≡ false) × (t.counter ≡ n)

abbrev pub Running : ℕ → LightCtl → Type 0
Running n c = Runs n c.transition

pub ctl-first_tick :
    (w : App) (n : ℕ)
    → (w.ctl.transition.type == move) ≡ false
    → w.ctl.transition.counter ≡ suc n
    → Running (suc n) (first_tick w).ctl
      × ((first_tick w).ctl.light ≡ w.ctl.light)
      × ((first_tick w).ctl.temp ≡ w.ctl.temp)
      × ((first_tick w).ctl.duv ≡ w.ctl.duv)
unfolding first_tick
ctl-first_tick w n h e = ground arith

count_down-Running :
    (w : App) (n : ℕ) → n < 2 ^ 32 → Running (suc n) w.ctl → Running n (count_down w).ctl
unfolding count_down
count_down-Running w n h r = ground arith

later_tick-suc :
    (step finish : App → App) (w : App) (n : ℕ)
    → (count_down w).ctl.transition.counter ≡ suc n
    → (later_tick step finish w).ctl ≡ (step (count_down w)).ctl
unfolding later_tick
later_tick-suc step finish w n e = ground (arith, ctl-update_light_state (step (count_down w)))

later_tick-zero :
    (step finish : App → App) (w : App)
    → (count_down w).ctl.transition.counter ≡ 0
    → ((later_tick step finish w).ctl ≡ (finish (count_down w)).ctl)
      × Stopped (later_tick step finish w)
unfolding later_tick
later_tick-zero step finish w e =
    elim (Bool-cases (not ((count_down w).ctl.transition.counter == 0))) [
      | inl more ↦ absurd (ground arith)
      | inr done ↦ rw done (ctl-update_light_state (finish (count_down w)), (_, refl))
    ]

-- What a step of a transition leaves alone, and what its end brings about: `present` are the values
-- that move and `wanted` their targets.
pub record Stepwise {A : Type 0} (present wanted : LightCtl → A) (step finish : App → App)
    : Type 0 where
  pub step_transition : (w : App) → (step w).ctl.transition ≡ w.ctl.transition
  pub step_wanted : (w : App) → wanted (step w).ctl ≡ wanted w.ctl
  pub finish_transition : (w : App) → (finish w).ctl.transition ≡ w.ctl.transition
  pub finish_reaches : (w : App) → present (finish w).ctl ≡ wanted w.ctl
  pub count_wanted : (w : App) → wanted (count_down w).ctl ≡ wanted w.ctl

-- A handler that, once started and not moving, does the one block or the other.
abbrev pub Handles : (App → App) → (App → App) → (App → App) → Type 0
Handles handler step finish =
    (w : App)
    → (w.ctl.transition.type == move) ≡ false
    → handler w ≡ (if w.ctl.transition.just_started then first_tick w else later_tick step finish w)

module _ {A : Type 0} {present wanted : LightCtl → A} {step finish handler : App → App}
    (s : Stepwise present wanted step finish) (handles : Handles handler step finish) where
  is_later : (w : App) (n : ℕ) → Running n w.ctl → handler w ≡ later_tick step finish w
  is_later w n r = handles w r.1 ∙ rw r.0

  handler-Running :
      (w : App) (n : ℕ)
      → suc n < 2 ^ 32
      → Running (suc (suc n)) w.ctl
      → Running (suc n) (handler w).ctl × (wanted (handler w).ctl ≡ wanted w.ctl)
  handler-Running w n h r =
      let c : Running (suc n) (count_down w).ctl = count_down-Running w (suc n) h r in
      let e : (handler w).ctl ≡ (step (count_down w)).ctl =
        ap (λ (v : App). v.ctl) (is_later w (suc (suc n)) r) ∙ later_tick-suc step finish w n c.2 in
      let t : (handler w).ctl.transition ≡ (count_down w).ctl.transition =
        ap (λ (v : LightCtl). v.transition) e ∙ s.step_transition (count_down w) in
      (
        subst (Runs (suc n)) (sym t) c,
        ap wanted e ∙ (s.step_wanted (count_down w) ∙ s.count_wanted w),
      )

  handler-ends :
      (w : App)
      → Running 1 w.ctl
      → (present (handler w).ctl ≡ wanted w.ctl)
        × ((handler w).ctl.transition.counter ≡ 0)
        × Stopped (handler w)
  handler-ends w r =
      let c : Running 0 (count_down w).ctl = count_down-Running w 0 (omega arith) r in
      let (e, stopped) = later_tick-zero step finish w c.2 in
      let later : handler w ≡ later_tick step finish w = is_later w 1 r in
      let f : (handler w).ctl ≡ (finish (count_down w)).ctl = ap (λ (v : App). v.ctl) later ∙ e in
      let t : (handler w).ctl.transition ≡ (count_down w).ctl.transition =
        ap (λ (v : LightCtl). v.transition) f ∙ s.finish_transition (count_down w) in
      (
        ap present f ∙ (s.finish_reaches (count_down w) ∙ s.count_wanted w),
        ap (λ (x : Transition). x.counter) t ∙ c.2,
        subst Stopped (sym later) stopped,
      )

  -- `n` ticks from the end.
  run_to_end :
      (n : ℕ) (w : App)
      → n < 2 ^ 32
      → Running (suc n) w.ctl
      → let v = ticks (suc n) handler w in
        (present v.ctl ≡ wanted w.ctl) × (v.ctl.transition.counter ≡ 0) × Stopped v
  unfolding ticks
  run_to_end zero w h r = handler-ends w r
  run_to_end (suc n) w h r =
      let (r', same) = handler-Running w n h r in
      let (reached, rest, stopped) = run_to_end n (handler w) (omega arith) r' in
      (reached ∙ same, rest, stopped)

  -- Started with `n + 1` steps to go, the handler needs one tick to start and one for each step.
  pub completes :
      (n : ℕ) (w : App)
      → n < 2 ^ 32
      → w.ctl.transition.just_started ≡ true
      → (w.ctl.transition.type == move) ≡ false
      → w.ctl.transition.counter ≡ suc n
      → wanted (first_tick w).ctl ≡ wanted w.ctl
      → let v = ticks (suc (suc n)) handler w in
        (present v.ctl ≡ wanted w.ctl) × (v.ctl.transition.counter ≡ 0) × Stopped v
  unfolding ticks
  completes n w h js nm e same =
      let first : handler w ≡ first_tick w = handles w nm ∙ rw js in
      let run = run_to_end n (first_tick w) h (ctl-first_tick w n nm e).0 in
      let (reached, rest, stopped) =
        subst
          (λ (u : App).
            let v = ticks (suc n) handler u in
            (present v.ctl ≡ wanted (first_tick w).ctl)
            × (v.ctl.transition.counter ≡ 0)
            × Stopped v)
          (sym first) run in
      (reached ∙ same, rest, stopped)
