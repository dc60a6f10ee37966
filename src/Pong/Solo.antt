-- ===== src/Pong/Solo.antt =====
-- boards/bbc_microbit/pong/src/main.c: a game of one player, from its start on.
use zephyr_samples.Base.{
  ℕ, ◌+◌, ◌-◌, ◌*◌, ◌≤◌, ◌≡◌, ◌≢◌, refl, sym, ap, ◌∙◌, Bool, true, false, not, ◌&&◌, ◌||◌, ltb,
  ◌==◌, ◌⊎◌, inl, inr, if-elim, none, some, arith,
}
use mathlib.Core.Bool.{false≢true}
use zephyr_samples.Base.Int.{ℤ, pos, pos_part, ◌+ℤ◌, ◌-ℤ◌}
use zephyr_samples.Pong.{
  Game, game_init, game_refresh, button_pressed, button_accepted, paddle_left, paddle_right,
  check_start, restart_threshold, is_single, is_multi, is_init, moves, sound_idle, PongState,
  single,
}
use zephyr_samples.Pong.Buttons.{OnDisplay, left_paddle, right_paddle}
use zephyr_samples.Pong.Refresh.{
  InPlay, moves-Outcome, Outcome, GoesOn, Lost, Shown, on_board-Shown,
}

-- Before the start: no refresh is due, and the ball lies on the paddle.
pub record Waiting (g : Game) : Type 0 where
  pub still : g.started ≡ false
  pub not_over : g.ended ≡ 0
  pub quiet : g.refresh ≡ none
  pub on_paddle : g.ball_pos ≡ record { x = pos (4 + 10 * pos_part g.paddle_x); y = pos 39 }

pub record Playing (g : Game) : Type 0 where
  pub runs : g.started ≡ true
  pub not_over : g.ended ≡ 0
  pub in_play : InPlay g.ball_pos g.ball_vel

abbrev pub Phase : Game → Type 0
Phase g = Waiting g ⊎ (Playing g ⊎ (g.ended ≢ 0))

pub record InGame (g : Game) : Type 0 where
  pub alone : g.state ≡ single
  pub unselected : g.select ≡ false
  pub paddle : OnDisplay g.paddle_x
  pub phase : Phase g

check_start-Phase :
    (rnd : ℕ) (g : Game)
    → OnDisplay g.paddle_x
    → Waiting g
    → Waiting (check_start rnd g)
      ⊎ (Playing (check_start rnd g) × ((check_start rnd g).ball_pos ≡ g.ball_pos))
unfolding check_start
check_start-Phase rnd g le w = ground arith

check_start_paddle :
    (rnd : ℕ) (g : Game)
    → ((check_start rnd g).paddle_x ≡ g.paddle_x) × ((check_start rnd g).ended ≡ g.ended)
unfolding check_start
check_start_paddle rnd g = ground arith

-- The paddle moves one to the left, or to the right, and the ball with it if the game has not started.
left-Waiting : (rnd : ℕ) (g : Game) → OnDisplay g.paddle_x → Waiting g → Phase (paddle_left rnd g)
unfolding paddle_left ◌-ℤ◌
left-Waiting rnd g le w = ground (arith, check_start-Phase rnd g le w, check_start_paddle rnd g)

left-Playing : (rnd : ℕ) (g : Game) → Playing g → Phase (paddle_left rnd g)
unfolding paddle_left
left-Playing rnd g p = ground arith

left_over : (rnd : ℕ) (g : Game) → g.ended ≢ 0 → Phase (paddle_left rnd g)
unfolding paddle_left
left_over rnd g o = ground (arith, check_start_paddle rnd g)

right-Waiting : (rnd : ℕ) (g : Game) → OnDisplay g.paddle_x → Waiting g → Phase (paddle_right rnd g)
unfolding paddle_right ◌+ℤ◌
right-Waiting rnd g le w = ground (arith, check_start-Phase rnd g le w, check_start_paddle rnd g)

right-Playing : (rnd : ℕ) (g : Game) → Playing g → Phase (paddle_right rnd g)
unfolding paddle_right
right-Playing rnd g p = ground arith

right_over : (rnd : ℕ) (g : Game) → g.ended ≢ 0 → Phase (paddle_right rnd g)
unfolding paddle_right
right_over rnd g o = ground (arith, check_start_paddle rnd g)

left_keeps :
    (rnd : ℕ) (g : Game)
    → ((paddle_left rnd g).state ≡ g.state) × ((paddle_left rnd g).select ≡ g.select)
unfolding paddle_left check_start
left_keeps rnd g = ground arith

right_keeps :
    (rnd : ℕ) (g : Game)
    → ((paddle_right rnd g).state ≡ g.state) × ((paddle_right rnd g).select ≡ g.select)
unfolding paddle_right check_start
right_keeps rnd g = ground arith

-- A new game of one player.
restarted-InGame :
    (initiator : Bool) (g : Game)
    → initiator ≡ true
    → g.state ≡ single
    → g.select ≡ false
    → g.refresh ≡ none
    → InGame (record (game_init initiator g) { disp_update = true })
unfolding game_init
restarted-InGame initiator g yes' alone free quiet = record {
  alone = alone;
  unselected = free;
  paddle = (omega arith, omega arith);
  phase = inl (record { still = refl; not_over = refl; quiet = quiet; on_paddle = rw yes' refl });
}

left-InGame : (rnd : ℕ) (g : Game) → InGame g → InGame (paddle_left rnd g)
left-InGame rnd g h = record {
  alone = (left_keeps rnd g).0 ∙ h.alone;
  unselected = (left_keeps rnd g).1 ∙ h.unselected;
  paddle = left_paddle rnd g h.paddle;
  phase = elim h.phase [
    | inl w ↦ left-Waiting rnd g h.paddle w
    | inr (inl p) ↦ left-Playing rnd g p
    | inr (inr o) ↦ left_over rnd g o
  ];
}

right-InGame : (rnd : ℕ) (g : Game) → InGame g → InGame (paddle_right rnd g)
right-InGame rnd g h = record {
  alone = (right_keeps rnd g).0 ∙ h.alone;
  unselected = (right_keeps rnd g).1 ∙ h.unselected;
  paddle = right_paddle rnd g h.paddle;
  phase = elim h.phase [
    | inl w ↦ right-Waiting rnd g h.paddle w
    | inr (inl p) ↦ right-Playing rnd g p
    | inr (inr o) ↦ right_over rnd g o
  ];
}

-- Time stamps are no part of it.
stamp_a-InGame : (now : ℕ) (g : Game) → InGame g → InGame (record g { a_timestamp = now })
stamp_a-InGame now g h = ground arith

stamp_b-InGame : (now : ℕ) (g : Game) → InGame g → InGame (record g { b_timestamp = now })
stamp_b-InGame now g h = ground arith

not_multi : (s : PongState) → s ≡ single → is_multi s ≡ true → false ≡ true
not_multi s e m = sym (ap is_multi e) ∙ m

accepted-InGame :
    (is_a : Bool) (now rnd : ℕ) (g : Game) → InGame g → InGame (button_accepted is_a now rnd g)
unfolding button_accepted
accepted-InGame is_a now rnd g h =
    if-elim InGame (not (g.ended == 0) && ltb restart_threshold (now - g.ended)) _ _
      (λ again.
        restarted-InGame (is_single g.state || g.remote_lost) (record g { refresh = none })
          (rw h.alone refl) h.alone h.unselected refl)
      (λ not_again.
        if-elim InGame (is_multi g.state) _ _
          (λ m. absurd (false≢true (not_multi g.state h.alone m)))
          (λ m.
            if-elim InGame is_a _ _
              (λ a.
                if-elim InGame g.select _ _ (λ e. absurd (false≢true (sym h.unselected ∙ e)))
                  (λ e. left-InGame rnd g h))
              (λ a.
                if-elim InGame g.select _ _ (λ e. absurd (false≢true (sym h.unselected ∙ e)))
                  (λ e. right-InGame rnd g h))))

pressed-InGame :
    (is_a : Bool) (now rnd : ℕ) (g : Game) → InGame g → InGame (button_pressed is_a now rnd g)
unfolding button_pressed
pressed-InGame true now rnd g h =
    let s = stamp_a-InGame now g h in
    if-elim InGame (ltb (now - g.a_timestamp) 100) _ _ (λ e. s)
      (λ e. accepted-InGame true now rnd (record g { a_timestamp = now }) s)
pressed-InGame false now rnd g h =
    let s = stamp_b-InGame now g h in
    if-elim InGame (ltb (now - g.b_timestamp) 100) _ _ (λ e. s)
      (λ e. accepted-InGame false now rnd (record g { b_timestamp = now }) s)

-- The state in which `game_refresh` moves the ball: the work is no longer pending, the sound is off.
abbrev in_refresh : Game → Game
in_refresh g = record g { refresh = none; sound_state = sound_idle }

outcome-Phase : (now : ℕ) (g g' : Game) → now ≢ 0 → Playing g → GoesOn g g' ⊎ Lost now g' → Phase g'
outcome-Phase now g g' later p (inl on) = inr (
    inl (record {
      runs = on.started_eq ∙ p.runs;
      not_over = on.ended_eq ∙ p.not_over;
      in_play = on.in_play;
    }))
outcome-Phase now g g' later p (inr lost) = inr (inr (λ e. later (sym lost.ended_now ∙ e)))

Outcome-InGame :
    (now : ℕ) (g g' : Game) → now ≢ 0 → InGame g → Playing g → Outcome now g g' → InGame g'
Outcome-InGame now g g' later h p (k, o) = record {
  alone = k.state_eq ∙ h.alone;
  unselected = k.select_eq ∙ h.unselected;
  paddle = rw k.paddle_eq h.paddle;
  phase = outcome-Phase now g g' later p o;
}

refreshed-Playing :
    (now : ℕ) (g : Game) → InGame g → Playing g → now ≢ 0 → InGame (moves now (in_refresh g))
refreshed-Playing now g h p later =
    let q : Playing (in_refresh g) = record {
      runs = p.runs;
      not_over = p.not_over;
      in_play = p.in_play;
    } in
    Outcome-InGame now (in_refresh g) (moves now (in_refresh g)) later
      (record {
        alone = h.alone;
        unselected = h.unselected;
        paddle = h.paddle;
        phase = inr (inl q);
      })
      q (moves-Outcome now (in_refresh g) (rw h.alone refl) p.in_play)

-- A refresh that is due.
refreshed-InGame :
    (now d : ℕ) (g : Game)
    → g.refresh ≡ some d
    → now ≢ 0
    → InGame g
    → InGame (game_refresh now (record g { refresh = none }))
unfolding game_refresh
refreshed-InGame now d g due later h =
    if-elim InGame (is_init g.state) _ _ (λ e. absurd (false≢true (sym (ap is_init h.alone) ∙ e)))
      (λ e.
        if-elim InGame (not (g.ended == 0)) _ _
          (λ over.
            restarted-InGame (is_single g.state || g.remote_lost) (in_refresh g) (rw h.alone refl)
              h.alone h.unselected refl)
          (λ on. elim h.phase [
            | inl w ↦ absurd (ground (arith, w.quiet, due))
            | inr (inl p) ↦ refreshed-Playing now g h p later
            | inr (inr o) ↦ absurd (ground arith)
          ]))

-- What can happen in a game of one player, from the time 1 on.
pub data SoloEvent : Game → Game → Type 0 where
  press : (is_a : Bool) (now rnd : ℕ) (g : Game) → SoloEvent g (button_pressed is_a now rnd g)
  refreshed :
      (now d : ℕ) (g : Game)
      → g.refresh ≡ some d
      → now ≢ 0
      → SoloEvent g (game_refresh now (record g { refresh = none }))

pub data SoloEvents : Game → Game → Type 0 where
  no_event : (g : Game) → SoloEvents g g
  next_event : (g h k : Game) → SoloEvents g h → SoloEvent h k → SoloEvents g k

SoloEvent-InGame : (g h : Game) → SoloEvent g h → InGame g → InGame h
SoloEvent-InGame _ _ (press is_a now rnd g) i = pressed-InGame is_a now rnd g i
SoloEvent-InGame _ _ (refreshed now d g due later) i = refreshed-InGame now d g due later i

pub SoloEvents-InGame : (g h : Game) → SoloEvents g h → InGame g → InGame h
SoloEvents-InGame _ _ (no_event g) i = i
SoloEvents-InGame _ _ (next_event g h k more event) i =
    SoloEvent-InGame h k event (SoloEvents-InGame g h more i)

OnDisplay-pos_part : (x : ℤ) → OnDisplay x → pos_part x ≤ 3
OnDisplay-pos_part x h = ground arith

Phase-Shown : (g : Game) → OnDisplay g.paddle_x → Phase g → (g.ended ≢ 0) ⊎ Shown g
Phase-Shown g le (inl w) = inr (
    on_board-Shown g (rw w.on_paddle (omega arith))
      (rw w.on_paddle (omega (arith, OnDisplay-pos_part g.paddle_x le)))
      (rw w.on_paddle (omega arith)) (rw w.on_paddle (omega arith)) w.not_over le.0)
Phase-Shown g le (inr (inl p)) =
    let h = p.in_play in inr (on_board-Shown g h.left h.right h.top h.bottom p.not_over le.0)
Phase-Shown g le (inr (inr over)) = inl over

-- After any presses of buttons and refreshes that are due, at times other than 0, in a game of one
-- player: the game has ended, or main shows the ball in a row below 4 and a column below 5; if the
-- game before is one that waits for its start, is played with the ball on the board and no faster
-- than 9 and 10, or has ended.
pub SoloEvents-Shown : (g h : Game) → SoloEvents g h → InGame g → (h.ended ≢ 0) ⊎ Shown h
SoloEvents-Shown g h events i =
    let j = SoloEvents-InGame g h events i in Phase-Shown h j.paddle j.phase
