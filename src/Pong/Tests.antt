-- ===== src/Pong/Tests.antt =====
-- boards/bbc_microbit/pong/src/main.c: games at concrete states.
use zephyr_samples.Base.{◌≡◌, ◌≢◌, refl, true, false, [], ◌∷◌, ◌++◌, none, some, ◌⊎◌, inl, arith}
use zephyr_samples.Base.Int.{pos, negsuc, ◌+ℤ◌}
use zephyr_samples.Pong.{
  Game, init, single, connected, sound_idle, button_pressed, game_refresh, pong_ball_received,
  moves, over_top, fly, pong_remote_disconnected,
}
use zephyr_samples.Pong.Refresh.{InPlay, Shown}
use zephyr_samples.Pong.Buttons.{
  OnDisplay, press, disconnected, no_event, next_event, Events-paddle_x,
}
use zephyr_samples.Pong.Solo as Solo
use zephyr_samples.Pong.Solo.{SoloEvents, InGame, SoloEvents-Shown}
use zephyr_samples.Pong.Link.{handover, sent_ball, received, early_restart}

-- The static variables as the program starts.
abbrev fresh : Game
fresh = record {
  state = init;
  select = false;
  select_idx = 0;
  remote_lost = false;
  started = false;
  ended = 0;
  refresh = none;
  disp_update = false;
  paddle_x = pos 0;
  ball_pos = record { x = pos 4; y = pos 39 };
  ball_vel = record { x = pos 0; y = pos 0 };
  a_timestamp = 0;
  b_timestamp = 0;
  sound_state = sound_idle;
  radio = [];
}

-- A game of one player that waits.
abbrev waiting : Game
waiting = record fresh {
  state = single;
  paddle_x = pos 1;
  ball_pos = record { x = pos 14; y = pos 39 };
}

-- B, then A 50 ms later: the ball flies.
abbrev first_press : Game
first_press = button_pressed false 1000 5 waiting

abbrev second_press : Game
second_press = button_pressed true 1050 5 first_press

flies : (second_press.started ≡ true) × (second_press.ball_vel ≡ record { x = pos 7; y = negsuc 3 })
unfolding button_pressed ◌+ℤ◌
flies = (refl, refl)

waiting-InGame : InGame waiting
waiting-InGame = record {
  alone = refl;
  unselected = refl;
  paddle = (omega arith, omega arith);
  phase = inl (record { still = refl; not_over = refl; quiet = refl; on_paddle = refl });
}

SoloEvents-Shown_example : (second_press.ended ≢ 0) ⊎ Shown second_press
SoloEvents-Shown_example =
    SoloEvents-Shown waiting second_press
      (Solo.next_event waiting first_press second_press
        (Solo.next_event waiting waiting first_press (Solo.no_event waiting)
          (Solo.press false 1000 5 waiting))
        (Solo.press true 1050 5 first_press))
      waiting-InGame

Events-paddle_x_example : OnDisplay (pong_remote_disconnected first_press).paddle_x
Events-paddle_x_example =
    Events-paddle_x waiting (pong_remote_disconnected first_press)
      (next_event waiting first_press (pong_remote_disconnected first_press)
        (next_event waiting waiting first_press (no_event waiting) (press false 1000 5 waiting))
        (disconnected first_press))
      (omega arith, omega arith)

-- A ball near the top and near the right side, of a game of two.
abbrev leaving : Game
leaving = record fresh {
  state = connected;
  started = true;
  ball_pos = record { x = pos 45; y = pos 2 };
  ball_vel = record { x = pos 7; y = negsuc 3 };
}

abbrev other_side : Game
other_side = record fresh { state = connected; paddle_x = pos 2 }

leaving-InPlay : InPlay leaving.ball_pos leaving.ball_vel
leaving-InPlay = record {
  left = omega arith;
  right = omega arith;
  top = omega arith;
  bottom = omega arith;
  slow_left = omega arith;
  slow_right = omega arith;
  slow_up = omega arith;
  slow_down = omega arith;
}

leaves : over_top (fly leaving) ≡ true
unfolding fly ◌+ℤ◌
leaves = refl

handover_example :
    ((moves 100 leaving).radio ≡ leaving.radio ++ sent_ball leaving ∷ [])
    × InPlay
        (moves 200 (received leaving other_side)).ball_pos
        (moves 200 (received leaving other_side)).ball_vel
handover_example = handover 100 200 leaving other_side leaving-InPlay refl leaves

-- The other board, its paddle one off the middle, with a ball that has come over.
abbrev joined : Game
joined = pong_ball_received (pos 20) (pos 5) (pos 3) (pos 4) other_side

-- Lost at 5000; B was pressed at 5400, A at 4000.
abbrev lost_game : Game
lost_game = record waiting {
  ended = 5000;
  refresh = some 2000;
  a_timestamp = 4000;
  b_timestamp = 5400;
}

early_restart_example :
    ((button_pressed true 5450 3 lost_game).refresh ≡ some 0)
    × ((game_refresh 5451 (button_pressed true 5450 3 lost_game)).ended ≡ 0)
early_restart_example =
    early_restart 5450 5451 3 lost_game (λ e. omega (arith, e)) refl refl refl
      (λ e. omega (arith, e)) (omega arith) (omega arith) (omega arith) (omega arith)
