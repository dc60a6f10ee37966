-- ===== src/Pong/Buttons.antt =====
-- boards/bbc_microbit/pong/src/main.c: the paddle, and a game of one player from its start on.
use zephyr_samples.Base.{ℕ, Bool, true, false, none, arith}
use zephyr_samples.Base.Int.{ℤ, pos, ◌≤ℤ◌, ◌-ℤ◌, ◌+ℤ◌}
use zephyr_samples.Pong.{
  Game, PongState, paddle_min, paddle_max, game_init, game_refresh, button_pressed, button_accepted,
  paddle_left, paddle_right, sound_idle, mode_choice, pong_select, pong_select_change,
  pong_select_complete, mode_selected, pong_remote_lost, pong_remote_disconnected, pong_conn_ready,
  pong_ball_received,
}
use zephyr_samples.Pong.Refresh.{moves_paddle}

-- Any event of the program: a press of A or B at an uptime with a byte of `bt_rand`, the work
-- `refresh`, and what the radio reports.
pub data Event : Game → Game → Type 0 where
  press : (is_a : Bool) (now rnd : ℕ) (g : Game) → Event g (button_pressed is_a now rnd g)
  refreshed : (now : ℕ) (g : Game) → Event g (game_refresh now (record g { refresh = none }))
  ball_received :
      (x_pos y_pos x_vel y_vel : ℤ) (g : Game)
      → Event g (pong_ball_received x_pos y_pos x_vel y_vel g)
  conn_ready : (initiator : Bool) (g : Game) → Event g (pong_conn_ready initiator g)
  disconnected : (g : Game) → Event g (pong_remote_disconnected g)
  remote_lost : (now : ℕ) (g : Game) → Event g (pong_remote_lost now g)

pub data Events : Game → Game → Type 0 where
  no_event : (g : Game) → Events g g
  next_event : (g h k : Game) → Events g h → Event h k → Events g k

-- Both points of the paddle are on the display.
abbrev pub OnDisplay : ℤ → Type 0
OnDisplay x = (pos paddle_min ≤ℤ x) × (x ≤ℤ pos paddle_max)

pub left_paddle :
    (rnd : ℕ) (g : Game) → OnDisplay g.paddle_x → OnDisplay (paddle_left rnd g).paddle_x
unfolding paddle_left ◌-ℤ◌
left_paddle rnd g h = ground arith

pub right_paddle :
    (rnd : ℕ) (g : Game) → OnDisplay g.paddle_x → OnDisplay (paddle_right rnd g).paddle_x
unfolding paddle_right ◌+ℤ◌
right_paddle rnd g h = ground arith

mode_selected_paddle :
    (mode : PongState) (g : Game) → OnDisplay g.paddle_x → OnDisplay (mode_selected mode g).paddle_x
unfolding mode_selected game_init
mode_selected_paddle mode g h = ground arith

accepted_paddle :
    (is_a : Bool) (now rnd : ℕ) (g : Game)
    → OnDisplay g.paddle_x
    → OnDisplay (button_accepted is_a now rnd g).paddle_x
unfolding button_accepted pong_select_complete pong_select_change pong_select game_init
accepted_paddle is_a now rnd g h = ground (
  arith,
  left_paddle rnd g h,
  right_paddle rnd g h,
  mode_selected_paddle (mode_choice g.select_idx) (record g { select = false }) h,
)

pressed_paddle :
    (is_a : Bool) (now rnd : ℕ) (g : Game)
    → OnDisplay g.paddle_x
    → OnDisplay (button_pressed is_a now rnd g).paddle_x
unfolding button_pressed
pressed_paddle is_a now rnd g h = ground (
  arith,
  accepted_paddle true now rnd (record g { a_timestamp = now }) h,
  accepted_paddle false now rnd (record g { b_timestamp = now }) h,
)

refresh_paddle :
    (now : ℕ) (g : Game) → OnDisplay g.paddle_x → OnDisplay (game_refresh now g).paddle_x
unfolding game_refresh pong_select game_init
refresh_paddle now g h = ground (arith, moves_paddle now (record g { sound_state = sound_idle }))

Event-paddle_x : (g h : Game) → Event g h → OnDisplay g.paddle_x → OnDisplay h.paddle_x
unfolding pong_ball_received pong_conn_ready pong_remote_disconnected pong_remote_lost
Event-paddle_x _ _ (press is_a now rnd g) h = pressed_paddle is_a now rnd g h
Event-paddle_x _ _ (refreshed now g) h = refresh_paddle now (record g { refresh = none }) h
Event-paddle_x _ _ (ball_received a b c d g) h = h
Event-paddle_x _ _ (conn_ready i g) h = (omega arith, omega arith)
Event-paddle_x _ _ (disconnected g) h = h
Event-paddle_x _ _ (remote_lost now g) h = h

-- Whatever events happen, radio events included, a paddle position from 0 to 3 stays between 0 and 3,
-- so that both points of the paddle are on the display.
pub Events-paddle_x : (g h : Game) → Events g h → OnDisplay g.paddle_x → OnDisplay h.paddle_x
Events-paddle_x _ _ (no_event g) le = le
Events-paddle_x _ _ (next_event g h k more event) le =
    Event-paddle_x h k event (Events-paddle_x g h more le)
