-- ===== src/Pong/Link.antt =====
-- boards/bbc_microbit/pong/src/main.c: a ball that goes over to the other board, and the buttons there.
use zephyr_samples.Base.{
  ℕ, ◌+◌, ◌-◌, ◌≤◌, ◌≡◌, ◌≢◌, sym, ap, ◌∙◌, true, false, not, ◌&&◌, ltb, ◌==◌, some, arith, [], ◌∷◌,
  ◌++◌,
}
use zephyr_samples.Base.Int.{pos, negsuc, ◌≤ℤ◌, ◌+ℤ◌, ◌-ℤ◌, neg_ℤ}
use zephyr_samples.Base.Words.{to_s8}
use zephyr_samples.Pong.{
  Game, Xy, BleCall, ble_send_ball, fly, moves, to_other_side, over_top, pong_ball_received,
  paddle_left, off_the_sides, sides_and_paddle, at_paddle, goes_on, check_start, button_pressed,
  button_accepted, game_refresh, game_init, is_single, is_init, is_multi, single, restart_threshold,
}
use zephyr_samples.Pong.Refresh.{InPlay}

-- The ball that is sent: none of the four values is cut to its 8 bits.
abbrev pub sent_ball : Game → BleCall
sent_ball g =
    ble_send_ball (pos 49 -ℤ (g.ball_pos.x +ℤ g.ball_vel.x)) (g.ball_pos.y +ℤ g.ball_vel.y)
      (neg_ℤ g.ball_vel.x) (neg_ℤ g.ball_vel.y)

sent_values :
    (p v : Xy)
    → InPlay p v
    → (to_s8 (pos 49 -ℤ (p.x +ℤ v.x)) ≡ pos 49 -ℤ (p.x +ℤ v.x))
      × (to_s8 (p.y +ℤ v.y) ≡ p.y +ℤ v.y)
      × (to_s8 (neg_ℤ v.x) ≡ neg_ℤ v.x)
      × (to_s8 (neg_ℤ v.y) ≡ neg_ℤ v.y)
unfolding ◌+ℤ◌ ◌-ℤ◌ neg_ℤ
sent_values p v h = ground arith

moves_over :
    (now : ℕ) (g : Game)
    → InPlay g.ball_pos g.ball_vel
    → is_single g.state ≡ false
    → over_top (fly g) ≡ true
    → (moves now g).radio ≡ g.radio ++ sent_ball g ∷ []
unfolding moves to_other_side fly
moves_over now g h two over =
    let (a, b, c, d) = sent_values g.ball_pos g.ball_vel h in simp (over, two, a, b, c, d)

-- The receiver's ball, after its refresh.
abbrev pub received : Game → Game → Game
received g r =
    pong_ball_received (pos 49 -ℤ (g.ball_pos.x +ℤ g.ball_vel.x)) (g.ball_pos.y +ℤ g.ball_vel.y)
      (neg_ℤ g.ball_vel.x) (neg_ℤ g.ball_vel.y) r

-- The ball once the receiver has moved it: two steps past a side at most, on its way down.
record Handed (p v : Xy) : Type 0 where
  pub left : negsuc 17 ≤ℤ p.x
  pub right : p.x ≤ℤ pos 67
  pub top : pos 0 ≤ℤ p.y
  pub bottom : p.y ≤ℤ pos 39
  pub slow_left : negsuc 8 ≤ℤ v.x
  pub slow_right : v.x ≤ℤ pos 9
  pub sinks : pos 1 ≤ℤ v.y
  pub slow_down : v.y ≤ℤ pos 10

received-Handed :
    (g r : Game)
    → InPlay g.ball_pos g.ball_vel
    → over_top (fly g) ≡ true
    → Handed (fly (received g r)).ball_pos (fly (received g r)).ball_vel
unfolding fly pong_ball_received ◌+ℤ◌ ◌-ℤ◌ neg_ℤ
received-Handed g r h over = ground arith

Handed-InPlay :
    (g : Game)
    → Handed g.ball_pos g.ball_vel
    → InPlay (off_the_sides g).ball_pos (off_the_sides g).ball_vel
unfolding off_the_sides neg_ℤ ◌-ℤ◌
Handed-InPlay g h = ground arith

Handed-goes_on :
    (g : Game)
    → Handed g.ball_pos g.ball_vel
    → (over_top g ≡ false) × (at_paddle (off_the_sides g) ≡ false)
unfolding off_the_sides
Handed-goes_on g h = ground arith

received-InPlay :
    (now : ℕ) (g r : Game)
    → InPlay g.ball_pos g.ball_vel
    → over_top (fly g) ≡ true
    → InPlay (moves now (received g r)).ball_pos (moves now (received g r)).ball_vel
unfolding moves sides_and_paddle goes_on
received-InPlay now g r h over =
    let g1 = fly (received g r) in
    let handed = received-Handed g r h over in
    let (down, free) = Handed-goes_on g1 handed in simp (down, free) (Handed-InPlay g1 handed)

-- In a game of two, a ball in play that leaves at the top is sent with its exact values, and the
-- receiver's next refresh, which moves it, has it in play.
pub handover :
    (now later : ℕ) (g r : Game)
    → InPlay g.ball_pos g.ball_vel
    → is_single g.state ≡ false
    → over_top (fly g) ≡ true
    → ((moves now g).radio ≡ g.radio ++ sent_ball g ∷ [])
      × InPlay (moves later (received g r)).ball_pos (moves later (received g r)).ball_vel
handover now later g r h two over = (moves_over now g h two over, received-InPlay later g r h over)

press_accepted :
    (now rnd : ℕ) (g : Game)
    → g.state ≡ single
    → g.select ≡ false
    → g.a_timestamp + 100 ≤ now
    → now ≤ g.ended + 2000
    → button_pressed true now rnd g ≡ paddle_left rnd (record g { a_timestamp = now })
unfolding button_pressed button_accepted
press_accepted now rnd g alone free a1 e1 =
    let slow : ltb (now - g.a_timestamp) 100 ≡ false = ground arith in
    let soon : (not (g.ended == 0) && ltb restart_threshold (now - g.ended)) ≡ false =
      ground arith in
    let alone' : is_multi g.state ≡ false = ap is_multi alone in simp (slow, soon, alone', free)

press_starts :
    (rnd : ℕ) (g : Game)
    → g.started ≡ false
    → g.b_timestamp ≢ 0
    → g.b_timestamp ≤ g.a_timestamp
    → g.a_timestamp ≤ g.b_timestamp + 100
    → ((paddle_left rnd g).refresh ≡ some 0)
      × ((paddle_left rnd g).ended ≡ g.ended)
      × ((paddle_left rnd g).state ≡ g.state)
unfolding paddle_left check_start
press_starts rnd g still b1 b2 b3 = ground arith

refresh_restarts :
    (now : ℕ) (g : Game) → g.ended ≢ 0 → g.state ≡ single → (game_refresh now g).ended ≡ 0
unfolding game_refresh game_init
refresh_restarts now g over alone =
    let alone' : is_init g.state ≡ false = ap is_init alone in
    let over' : (g.ended == 0) ≡ false = ground arith in simp (alone', over')

-- In a game of one that has ended at most 2 s ago and is not started, with no selection open, a
-- press of A that is at least 100 ms after the one before and at most 100 ms after one of B
-- submits the refresh without delay, and that refresh starts the game anew.
pub early_restart :
    (now later rnd : ℕ) (g : Game)
    → g.ended ≢ 0
    → g.state ≡ single
    → g.select ≡ false
    → g.started ≡ false
    → g.b_timestamp ≢ 0
    → g.b_timestamp ≤ now
    → now ≤ g.b_timestamp + 100
    → g.a_timestamp + 100 ≤ now
    → now ≤ g.ended + 2000
    → ((button_pressed true now rnd g).refresh ≡ some 0)
      × ((game_refresh later (button_pressed true now rnd g)).ended ≡ 0)
early_restart now later rnd g over alone free still b1 b2 b3 a1 e1 =
    let g1 = record g { a_timestamp = now } in
    let (due, e, s) = press_starts rnd g1 still b1 b2 b3 in
    rw (press_accepted now rnd g alone free a1 e1)
      (due, refresh_restarts later (paddle_left rnd g1) (λ z. over (sym e ∙ z)) (s ∙ alone))
