-- ===== src/Pong/Refresh.antt =====
-- boards/bbc_microbit/pong/src/main.c: where the ball is after a refresh.
use zephyr_samples.Base.{
  ℕ, ◌+◌, ◌/◌, ◌^◌, bit_or, ◌<◌, ◌≡◌, refl, ◌∙◌, true, false, ◌⊎◌, inl, inr, Bool-cases, some,
  arith,
}
use zephyr_samples.Base.Int.{ℤ, pos, negsuc, pos_part, ltb_ℤ, ◌≤ℤ◌, ◌+ℤ◌, ◌-ℤ◌, neg_ℤ}
use zephyr_samples.Pong.{
  Game, Xy, fly, off_the_wall, off_the_sides, off_the_paddle, over_top, at_paddle, missed, lose,
  goes_on, sides_and_paddle, moves, is_single, display, virt_to_real, paddle_bits, to_other_side,
}

-- The ball between two refreshes: on the board, above the paddle's row, at most 9 wide and 10 high a step.
pub record InPlay (p v : Xy) : Type 0 where
  pub left : pos 0 ≤ℤ p.x
  pub right : p.x ≤ℤ pos 49
  pub top : pos 0 ≤ℤ p.y
  pub bottom : p.y ≤ℤ pos 39
  pub slow_left : negsuc 8 ≤ℤ v.x
  pub slow_right : v.x ≤ℤ pos 9
  pub slow_up : negsuc 9 ≤ℤ v.y
  pub slow_down : v.y ≤ℤ pos 10

-- The ball while it is moved: it may be a step off the board, and below it only on its way down.
record Moved (p v : Xy) : Type 0 where
  pub left : negsuc 8 ≤ℤ p.x
  pub right : p.x ≤ℤ pos 58
  pub top : negsuc 9 ≤ℤ p.y
  pub bottom : p.y ≤ℤ pos 49
  pub sinks : (ltb_ℤ (pos 0) v.y ≡ true) ⊎ (p.y ≤ℤ pos 39)
  pub slow_left : negsuc 8 ≤ℤ v.x
  pub slow_right : v.x ≤ℤ pos 9
  pub slow_up : negsuc 9 ≤ℤ v.y
  pub slow_down : v.y ≤ℤ pos 10

fly-Moved : (g : Game) → InPlay g.ball_pos g.ball_vel → Moved (fly g).ball_pos (fly g).ball_vel
unfolding fly ◌+ℤ◌
fly-Moved g h = ground arith

off_the_wall-Moved :
    (g : Game)
    → Moved g.ball_pos g.ball_vel
    → over_top g ≡ true
    → Moved (off_the_wall g).ball_pos (off_the_wall g).ball_vel
      × (pos 0 ≤ℤ (off_the_wall g).ball_pos.y)
unfolding off_the_wall neg_ℤ
off_the_wall-Moved g h over = ground arith

off_the_sides-Moved :
    (g : Game)
    → Moved g.ball_pos g.ball_vel
    → Moved (off_the_sides g).ball_pos (off_the_sides g).ball_vel
      × (pos 0 ≤ℤ (off_the_sides g).ball_pos.x)
      × ((off_the_sides g).ball_pos.x ≤ℤ pos 49)
      × ((off_the_sides g).ball_pos.y ≡ g.ball_pos.y)
unfolding off_the_sides neg_ℤ ◌-ℤ◌
off_the_sides-Moved g h = ground arith

off_the_paddle-InPlay :
    (g : Game)
    → Moved g.ball_pos g.ball_vel
    → pos 0 ≤ℤ g.ball_pos.x
    → g.ball_pos.x ≤ℤ pos 49
    → at_paddle g ≡ true
    → InPlay (off_the_paddle g).ball_pos (off_the_paddle g).ball_vel
unfolding off_the_paddle neg_ℤ ◌-ℤ◌ ◌+ℤ◌
off_the_paddle-InPlay g h l r at = ground arith

not_at_paddle-InPlay :
    (g : Game)
    → Moved g.ball_pos g.ball_vel
    → pos 0 ≤ℤ g.ball_pos.x
    → g.ball_pos.x ≤ℤ pos 49
    → pos 0 ≤ℤ g.ball_pos.y
    → at_paddle g ≡ false
    → InPlay g.ball_pos g.ball_vel
not_at_paddle-InPlay g h l r t at = ground arith

-- What stays: the mode, the paddle, and whether something is selected.
pub record Keeps (g g' : Game) : Type 0 where
  pub state_eq : g'.state ≡ g.state
  pub select_eq : g'.select ≡ g.select
  pub paddle_eq : g'.paddle_x ≡ g.paddle_x

-- A refresh leaves the ball in play, and another one is due, or the game is lost.
pub record GoesOn (g g' : Game) : Type 0 where
  pub in_play : InPlay g'.ball_pos g'.ball_vel
  pub started_eq : g'.started ≡ g.started
  pub ended_eq : g'.ended ≡ g.ended
  pub due : g'.refresh ≡ some 100

pub record Lost (now : ℕ) (g' : Game) : Type 0 where
  pub ended_now : g'.ended ≡ now
  pub stopped : g'.started ≡ false
  pub due : g'.refresh ≡ some 2000

abbrev pub Outcome : ℕ → Game → Game → Type 0
Outcome now g g' = Keeps g g' × (GoesOn g g' ⊎ Lost now g')

lose-Lost : (now : ℕ) (g : Game) → Keeps g (lose now g) × Lost now (lose now g)
unfolding lose
lose-Lost now g = ground arith

sides_keep :
    (g : Game)
    → Keeps g (off_the_sides g)
      × ((off_the_sides g).started ≡ g.started)
      × ((off_the_sides g).ended ≡ g.ended)
unfolding off_the_sides
sides_keep g = ground arith

paddle-Keeps : (g : Game) → Keeps g (off_the_paddle g)
unfolding off_the_paddle
paddle-Keeps g = record { state_eq = refl; select_eq = refl; paddle_eq = refl }

Keeps-trans : (f g h : Game) → Keeps f g → Keeps g h → Keeps f h
Keeps-trans f g h k l = record {
  state_eq = l.state_eq ∙ k.state_eq;
  select_eq = l.select_eq ∙ k.select_eq;
  paddle_eq = l.paddle_eq ∙ k.paddle_eq;
}

goes_on-GoesOn :
    (f g : Game)
    → Keeps f g
    → InPlay g.ball_pos g.ball_vel
    → g.started ≡ f.started
    → g.ended ≡ f.ended
    → (now : ℕ) → Outcome now f (goes_on g)
unfolding goes_on
goes_on-GoesOn f g k h s e now = (
  record { state_eq = k.state_eq; select_eq = k.select_eq; paddle_eq = k.paddle_eq },
  inl (record { in_play = h; started_eq = s; ended_eq = e; due = refl }),
)

sides_and_paddle-Outcome :
    (now : ℕ) (f g : Game)
    → Keeps f g
    → g.started ≡ f.started
    → g.ended ≡ f.ended
    → Moved g.ball_pos g.ball_vel
    → pos 0 ≤ℤ g.ball_pos.y
    → Outcome now f (sides_and_paddle now g)
unfolding sides_and_paddle off_the_paddle
sides_and_paddle-Outcome now f g keeps s e h top =
    let g1 = off_the_sides g in
    let (m, l, r, y_eq) = off_the_sides-Moved g h in
    let (k, s1, e1) = sides_keep g in
    let k1 = Keeps-trans f g g1 keeps k in
    elim (Bool-cases (at_paddle g1)) [
      | inr at ↦
          let play = not_at_paddle-InPlay g1 m l r (rw y_eq top) at in
          simp at (goes_on-GoesOn f g1 k1 play (s1 ∙ s) (e1 ∙ e) now)
      | inl at ↦ elim (Bool-cases (missed g1)) [
        | inl miss ↦
            let (k2, lost) = lose-Lost now g1 in
            simp (at, miss) ((Keeps-trans f g1 (lose now g1) k1 k2, inr lost))
        | inr hit ↦
            simp (at, hit)
              (goes_on-GoesOn f (off_the_paddle g1)
                (Keeps-trans f g1 (off_the_paddle g1) k1 (paddle-Keeps g1))
                (off_the_paddle-InPlay g1 m l r at) (s1 ∙ s) (e1 ∙ e) now)
      ]
    ]

fly_below_top :
    (g : Game)
    → InPlay g.ball_pos g.ball_vel
    → over_top (fly g) ≡ false
    → pos 0 ≤ℤ (fly g).ball_pos.y
unfolding fly ◌+ℤ◌
fly_below_top g h under = ground arith

fly-Keeps : (g : Game) → Keeps g (fly g) × Keeps g (off_the_wall (fly g))
unfolding fly off_the_wall
fly-Keeps g = (
  record { state_eq = refl; select_eq = refl; paddle_eq = refl },
  record { state_eq = refl; select_eq = refl; paddle_eq = refl },
)

-- In a game with one player, a refresh keeps the ball in play or ends the game.
pub moves-Outcome :
    (now : ℕ) (g : Game)
    → is_single g.state ≡ true
    → InPlay g.ball_pos g.ball_vel
    → Outcome now g (moves now g)
unfolding moves
moves-Outcome now g alone h =
    let g1 = fly g in
    let (k, k') = fly-Keeps g in
    let m = fly-Moved g h in
    elim (Bool-cases (over_top g1)) [
      | inl over ↦
          let (m', top) = off_the_wall-Moved g1 m over in
          simp (over, alone) (sides_and_paddle-Outcome now g (off_the_wall g1) k' refl refl m' top)
      | inr under ↦
          simp under (sides_and_paddle-Outcome now g g1 k refl refl m (fly_below_top g h under))
    ]

real_of : (z : ℤ) → pos 0 ≤ℤ z → virt_to_real z ≡ pos (pos_part z / 10)
real_of z h = ground arith

bits_of :
    (z : ℤ) → pos 0 ≤ℤ z → paddle_bits z ≡ some (bit_or (2 ^ pos_part z) (2 ^ (pos_part z + 1)))
bits_of z h = ground arith

not_negative : (z : ℤ) → pos 0 ≤ℤ z → ltb_ℤ z (pos 0) ≡ false
not_negative z h = ground arith

-- `main` shows a ball on the board as a point of the four rows above the paddle.
abbrev pub Shown : Game → Type 0
Shown g =
    (row : ℕ) × (column : ℕ) × (paddle : ℕ) × (row < 4)
    × (column < 5)
    × (display g ≡ some (record { paddle_row = some paddle; ball = some (pos row, pos column) }))

pub on_board-Shown :
    (g : Game)
    → pos 0 ≤ℤ g.ball_pos.x
    → g.ball_pos.x ≤ℤ pos 49
    → pos 0 ≤ℤ g.ball_pos.y
    → g.ball_pos.y ≤ℤ pos 39
    → g.ended ≡ 0
    → pos 0 ≤ℤ g.paddle_x
    → Shown g
unfolding display
on_board-Shown g left right top bottom on paddle = (
  pos_part g.ball_pos.y / 10,
  pos_part g.ball_pos.x / 10,
  bit_or (2 ^ pos_part g.paddle_x) (2 ^ (pos_part g.paddle_x + 1)),
  ground arith,
  ground arith,
  simp (
    on,
    not_negative g.ball_pos.y top,
    real_of g.ball_pos.y top,
    real_of g.ball_pos.x left,
    bits_of g.paddle_x paddle,
  ),
)

-- In any mode, no refresh moves the paddle.
sides_paddle : (now : ℕ) (g : Game) → (sides_and_paddle now g).paddle_x ≡ g.paddle_x
unfolding sides_and_paddle off_the_paddle goes_on
sides_paddle now g =
    ground (arith, (sides_keep g).0.paddle_eq, (lose-Lost now (off_the_sides g)).0.paddle_eq)

pub moves_paddle : (now : ℕ) (g : Game) → (moves now g).paddle_x ≡ g.paddle_x
unfolding moves fly off_the_wall to_other_side
moves_paddle now g =
    ground (arith, sides_paddle now (fly g), sides_paddle now (off_the_wall (fly g)))
