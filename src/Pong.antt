-- ===== src/Pong.antt =====
-- boards/bbc_microbit/pong/src/main.c: the game, its buttons and its radio.
pub mod Refresh
pub mod Buttons
pub mod Solo
pub mod Link
mod Tests
use zephyr_samples.Base.{
  ℕ, suc, ◌+◌, ◌-◌, ◌*◌, ◌/◌, ◌%◌, ◌^◌, Bool, true, false, not, ◌&&◌, ◌||◌, if◌then◌else◌, ltb,
  ◌==◌, List, [], ◌∷◌, ◌++◌, Option, none, some, bit_or,
}
use zephyr_samples.Base.Int.{ℤ, pos, negsuc, ltb_ℤ, ◌+ℤ◌, ◌-ℤ◌, neg_ℤ}
use zephyr_samples.Base.Words.{to_s8}

-- `enum pong_state`
pub data PongState : Type 0 where
  init multi single connected : PongState

-- `enum sound_state`
pub data SoundState : Type 0 where
  sound_idle sound_paddle sound_wall : SoundState

-- `struct x_y`
pub record Xy : Type 0 where
  pub x : ℤ
  pub y : ℤ

-- The calls of the radio's functions.
pub data BleCall : Type 0 where
  ble_send_ball : ℤ → ℤ → ℤ → ℤ → BleCall
  ble_send_lost ble_connect ble_cancel_connect : BleCall

-- The static variables. `select` is whether there is a selection, `refresh` the delay with which the
-- work is submitted, `disp_update` whether the semaphore is given, `radio` the calls so far. Times
-- are uptimes in milliseconds.
pub record Game : Type 0 where
  pub state : PongState
  pub select : Bool
  pub select_idx : ℕ
  pub remote_lost : Bool
  pub started : Bool
  pub ended : ℕ
  pub refresh : Option ℕ
  pub disp_update : Bool
  pub paddle_x : ℤ
  pub ball_pos : Xy
  pub ball_vel : Xy
  pub a_timestamp : ℕ
  pub b_timestamp : ℕ
  pub sound_state : SoundState
  pub radio : List BleCall

abbrev pub pixel_size : ℕ
pixel_size = 10

abbrev pub paddle_min : ℕ
paddle_min = 0

abbrev pub paddle_max : ℕ
paddle_max = 3

abbrev pub ball_pos_x_max : ℕ
ball_pos_x_max = 49

abbrev pub ball_pos_y_max : ℕ
ball_pos_y_max = 39

abbrev pub game_refresh_delay : ℕ
game_refresh_delay = 100

abbrev pub start_threshold : ℕ
start_threshold = 100

abbrev pub restart_threshold : ℕ
restart_threshold = 2000

abbrev pub is_init : PongState → Bool
is_init init = true
is_init multi = false
is_init single = false
is_init connected = false

abbrev pub is_multi : PongState → Bool
is_multi init = false
is_multi multi = true
is_multi single = false
is_multi connected = false

abbrev pub is_single : PongState → Bool
is_single init = false
is_single multi = false
is_single single = true
is_single connected = false

abbrev pub is_connected : PongState → Bool
is_connected init = false
is_connected multi = false
is_connected single = false
is_connected connected = true

-- `pong_select`
unfoldable pub pong_select : Game → Game
pong_select g = if g.select then g else record g { select = true; select_idx = 0 }

-- `pong_select_change`: there are two choices.
unfoldable pub pong_select_change : Game → Game
pong_select_change g = record g { select_idx = (g.select_idx + 1) % 2 }

-- `game_init`
unfoldable pub game_init : Bool → Game → Game
game_init initiator g = record g {
  started = false;
  ended = 0;
  ball_pos = record { x = pos 4; y = if initiator then pos ball_pos_y_max else negsuc 0 };
  paddle_x = pos paddle_min;
  a_timestamp = 0;
  b_timestamp = 0;
}

-- `mode_selected`
unfoldable pub mode_selected : PongState → Game → Game
unfolding game_init
mode_selected init g = record g { state = init }
mode_selected single g = record (game_init true (record g { state = single })) {
  disp_update = true;
}
mode_selected multi g = record g { state = multi; radio = g.radio ++ ble_connect ∷ [] }
mode_selected connected g = record g { state = connected }

-- `mode_choice`
abbrev pub mode_choice : ℕ → PongState
mode_choice idx = if idx == 0 then single else multi

-- `pong_select_complete`
unfoldable pub pong_select_complete : Game → Game
unfolding mode_selected
pong_select_complete g = mode_selected (mode_choice g.select_idx) (record g { select = false })

-- `check_start`, given the byte that `bt_rand` fills in.
unfoldable pub check_start : ℕ → Game → Game
check_start rnd g =
    let a = g.a_timestamp in
    let b = g.b_timestamp in
    let delta = (if ltb b a then a - b else b - a) % 4294967296 in
    if a == 0 || b == 0 then g else if ltb start_threshold delta then g else record g {
      ball_vel = record {
        x = if ltb b a then pos (2 + rnd % 8) else negsuc (1 + rnd % 8);
        y = negsuc 3;
      };
      started = true;
      remote_lost = false;
      refresh = some 0;
    }

-- `game_ended`, at the uptime `now`.
unfoldable pub game_ended : ℕ → Bool → Game → Game
game_ended now won g = record g {
  sound_state = sound_idle;
  remote_lost = won;
  ended = now;
  started = false;
  refresh = some restart_threshold;
}

-- `game_refresh`, where the ball is moved.
unfoldable pub fly : Game → Game
fly g = record g {
  ball_pos = record { x = g.ball_pos.x +ℤ g.ball_vel.x; y = g.ball_pos.y +ℤ g.ball_vel.y };
}

-- "Ball went over to the other side"
abbrev pub over_top : Game → Bool
over_top g = ltb_ℤ g.ball_vel.y (pos 0) && ltb_ℤ g.ball_pos.y (pos 0)

unfoldable pub off_the_wall : Game → Game
off_the_wall g = record g {
  ball_pos = record { x = g.ball_pos.x; y = neg_ℤ g.ball_pos.y };
  ball_vel = record { x = g.ball_vel.x; y = neg_ℤ g.ball_vel.y };
  sound_state = sound_wall;
}

unfoldable pub to_other_side : Game → Game
to_other_side g = record g {
  radio =
      g.radio
      ++ ble_send_ball (to_s8 (pos ball_pos_x_max -ℤ g.ball_pos.x)) (to_s8 g.ball_pos.y)
          (to_s8 (neg_ℤ g.ball_vel.x)) (to_s8 (neg_ℤ g.ball_vel.y))
        ∷ [];
  disp_update = true;
}

-- "Check for side-wall collision"
unfoldable pub off_the_sides : Game → Game
off_the_sides g =
    if ltb_ℤ g.ball_pos.x (pos 0)
    then record g {
      ball_pos = record { x = neg_ℤ g.ball_pos.x; y = g.ball_pos.y };
      ball_vel = record { x = neg_ℤ g.ball_vel.x; y = g.ball_vel.y };
      sound_state = sound_wall;
    }
    else if ltb_ℤ (pos ball_pos_x_max) g.ball_pos.x
    then record g {
      ball_pos = record { x = pos (2 * ball_pos_x_max) -ℤ g.ball_pos.x; y = g.ball_pos.y };
      ball_vel = record { x = neg_ℤ g.ball_vel.x; y = g.ball_vel.y };
      sound_state = sound_wall;
    }
    else g

-- "Ball approaching paddle"
abbrev pub at_paddle : Game → Bool
at_paddle g = ltb_ℤ (pos 0) g.ball_vel.y && ltb_ℤ (pos ball_pos_y_max) g.ball_pos.y

-- `REAL_TO_VIRT`
abbrev pub real_to_virt : ℤ → ℤ
real_to_virt (pos n) = pos (n * pixel_size)
real_to_virt (negsuc n) = neg_ℤ (pos (suc n * pixel_size))

abbrev pub missed : Game → Bool
missed g =
    ltb_ℤ g.ball_pos.x (real_to_virt g.paddle_x)
    || not (ltb_ℤ g.ball_pos.x (real_to_virt (g.paddle_x +ℤ pos 2)))

unfoldable pub lose : ℕ → Game → Game
unfolding game_ended
lose now g =
    let g1 = game_ended now false g in
    if is_connected g1.state then record g1 { radio = g1.radio ++ ble_send_lost ∷ [] } else g1

unfoldable pub off_the_paddle : Game → Game
off_the_paddle g =
    let vy = if ltb_ℤ g.ball_vel.y (pos pixel_size) then g.ball_vel.y +ℤ pos 1 else g.ball_vel.y in
    record g {
      ball_pos = record { x = g.ball_pos.x; y = pos (2 * ball_pos_y_max) -ℤ g.ball_pos.y };
      ball_vel = record { x = g.ball_vel.x; y = neg_ℤ vy };
      sound_state = sound_paddle;
    }

-- The end of `game_refresh`.
unfoldable pub goes_on : Game → Game
goes_on g = record g { refresh = some game_refresh_delay; disp_update = true }

unfoldable pub sides_and_paddle : ℕ → Game → Game
unfolding off_the_sides lose off_the_paddle goes_on
sides_and_paddle now g =
    let g1 = off_the_sides g in
    if at_paddle g1
    then (if missed g1 then lose now g1 else goes_on (off_the_paddle g1))
    else goes_on g1

unfoldable pub moves : ℕ → Game → Game
unfolding fly off_the_wall to_other_side sides_and_paddle
moves now g =
    let g1 = fly g in
    if over_top g1
    then (if is_single g1.state then sides_and_paddle now (off_the_wall g1) else to_other_side g1)
    else sides_and_paddle now g1

-- `game_refresh`, at the uptime `now`. The sound is off at its start in any case.
unfoldable pub game_refresh : ℕ → Game → Game
unfolding pong_select game_init moves
game_refresh now g =
    let g1 = record g { sound_state = sound_idle } in
    if is_init g1.state
    then pong_select g1
    else if not (g1.ended == 0)
    then record (game_init (is_single g1.state || g1.remote_lost) g1) { disp_update = true }
    else moves now g1

-- `pong_ball_received`
unfoldable pub pong_ball_received : ℤ → ℤ → ℤ → ℤ → Game → Game
pong_ball_received x_pos y_pos x_vel y_vel g = record g {
  ball_pos = record { x = x_pos; y = y_pos };
  ball_vel = record { x = x_vel; y = y_vel };
  refresh = some 0;
}

-- `button_pressed` for the button A, after the presses that are too quick.
unfoldable pub paddle_left : ℕ → Game → Game
unfolding check_start
paddle_left rnd g =
    let g1 = if g.started then g else check_start rnd g in
    if ltb_ℤ (pos paddle_min) g1.paddle_x
    then record g1 {
      paddle_x = g1.paddle_x -ℤ pos 1;
      ball_pos =
          if g1.started
          then g1.ball_pos
          else record { x = g1.ball_pos.x -ℤ pos pixel_size; y = g1.ball_pos.y };
      disp_update = true;
    }
    else g1

unfoldable pub paddle_right : ℕ → Game → Game
unfolding check_start
paddle_right rnd g =
    let g1 = if g.started then g else check_start rnd g in
    if ltb_ℤ g1.paddle_x (pos paddle_max)
    then record g1 {
      paddle_x = g1.paddle_x +ℤ pos 1;
      ball_pos =
          if g1.started
          then g1.ball_pos
          else record { x = g1.ball_pos.x +ℤ pos pixel_size; y = g1.ball_pos.y };
      disp_update = true;
    }
    else g1

-- `button_pressed` from `if (ended …` on; the first argument is whether the pin is that of A.
unfoldable pub button_accepted : Bool → ℕ → ℕ → Game → Game
unfolding game_init pong_select pong_select_change pong_select_complete paddle_left paddle_right
button_accepted is_a now rnd g =
    if not (g.ended == 0) && ltb restart_threshold (now - g.ended)
    then record (game_init (is_single g.state || g.remote_lost) (record g { refresh = none })) {
      disp_update = true;
    }
    else if is_multi g.state
    then pong_select (record g { state = init; radio = g.radio ++ ble_cancel_connect ∷ [] })
    else if is_a
    then (if g.select then pong_select_change g else paddle_left rnd g)
    else (if g.select then pong_select_complete g else paddle_right rnd g)

-- `button_pressed`, at the uptime `now`; `k_uptime_delta` sets the time stamp in any case.
unfoldable pub button_pressed : Bool → ℕ → ℕ → Game → Game
unfolding button_accepted
button_pressed is_a now rnd g =
    if is_a
    then (if ltb (now - g.a_timestamp) 100
        then record g { a_timestamp = now }
        else button_accepted true now rnd (record g { a_timestamp = now }))
    else (if ltb (now - g.b_timestamp) 100
        then record g { b_timestamp = now }
        else button_accepted false now rnd (record g { b_timestamp = now }))

-- `pong_conn_ready`
unfoldable pub pong_conn_ready : Bool → Game → Game
unfolding game_init
pong_conn_ready initiator g = record (game_init initiator (record g { state = connected })) {
  disp_update = true;
}

-- `pong_remote_disconnected`
unfoldable pub pong_remote_disconnected : Game → Game
pong_remote_disconnected g = record g { state = init; refresh = some 1000 }

-- `pong_remote_lost`
unfoldable pub pong_remote_lost : ℕ → Game → Game
unfolding game_ended
pong_remote_lost now g = game_ended now true g

-- `VIRT_TO_REAL`: division of C, towards zero.
abbrev pub virt_to_real : ℤ → ℤ
virt_to_real (pos n) = pos (n / 10)
virt_to_real (negsuc n) = neg_ℤ (pos (suc n / 10))

-- What the loop of `main` writes to the image: the row of the paddle, and row and column of the ball.
pub record Image : Type 0 where
  pub paddle_row : Option ℕ
  pub ball : Option (ℤ × ℤ)

-- `BIT(paddle_x) | BIT(paddle_x + 1)`; a shift by a negative number has no value in C.
abbrev pub paddle_bits : ℤ → Option ℕ
paddle_bits (pos n) = some (bit_or (2 ^ n) (2 ^ (n + 1)))
paddle_bits (negsuc n) = none

unfoldable pub display : Game → Option Image
display g =
    if not (g.ended == 0)
    then none
    else some (record {
      paddle_row = paddle_bits g.paddle_x;
      ball =
          if ltb_ℤ g.ball_pos.y (pos 0)
          then none
          else some (virt_to_real g.ball_pos.y, virt_to_real g.ball_pos.x);
    })
