-- ===== src/Mesh/Server/Steps.antt =====
-- mesh/device_composition.c: the Delta Set and Move Set handlers, for lightness and temperature.
use zephyr_samples.Base.{ℕ, if◌then◌else◌, List}
use zephyr_samples.Base.Int.{ℤ, pos, ltb_ℤ}
use zephyr_samples.Base.Words.{signed16, signed32}
use zephyr_samples.Mesh.State.{
  App, Model, Ctx, StateBinding, level_light, delta_level_light, move_light, level_temp, move_temp,
  with_light, with_temp,
}
use zephyr_samples.Mesh.Binding.{set_target}
use zephyr_samples.Mesh.Status.{gen_level_get, gen_level_get_temp}
use zephyr_samples.Mesh.Server.{Server, Static, move_message, delta_message}
use zephyr_samples.Mesh.Server.Handlers.{
  no_reply, level_server, level_temp_server, move_server, move_temp_server,
}

abbrev pub delta_unack_static : Static
delta_unack_static = record {
  read = λ w. w.delta_unack_last_level;
  write = λ v w. record w { delta_unack_last_level = v };
}

abbrev pub delta_static : Static
delta_static = record {
  read = λ w. w.delta_last_level;
  write = λ v w. record w { delta_last_level = v };
}

abbrev pub delta_unack_temp_static : Static
delta_unack_temp_static = record {
  read = λ w. w.delta_unack_temp_last_level;
  write = λ v w. record w { delta_unack_temp_last_level = v };
}

abbrev pub delta_temp_static : Static
delta_temp_static = record {
  read = λ w. w.delta_temp_last_level;
  write = λ v w. record w { delta_temp_last_level = v };
}

abbrev pub light_step : App → ℤ
light_step w = w.ctl.light.delta

abbrev pub temp_step : App → ℤ
temp_step w = w.ctl.temp.delta

abbrev delta_body :
    Server
    → Static
    → StateBinding
    → StateBinding
    → (App → ℤ)
    → (App → App)
    → Model
    → Ctx
    → List ℕ
    → App
    → App
delta_body s last level binding step reply model ctx buf w =
    let (delta, buf1) = w.env.pull_le32 buf in
    let (tid, buf2) = w.env.pull_u8 buf1 in
    delta_message s last level step reply (set_target binding) model ctx (signed32 delta) tid buf2 w

unfoldable pub gen_delta_set_unack : Model → Ctx → List ℕ → App → App
gen_delta_set_unack model ctx buf w =
    delta_body level_server delta_unack_static level_light delta_level_light light_step no_reply
      model ctx buf w

unfoldable pub gen_delta_set : Model → Ctx → List ℕ → App → App
gen_delta_set model ctx buf w =
    delta_body level_server delta_static level_light delta_level_light light_step
      (gen_level_get model ctx) model ctx buf w

unfoldable pub gen_delta_set_unack_temp : Model → Ctx → List ℕ → App → App
gen_delta_set_unack_temp model ctx buf w =
    delta_body level_temp_server delta_unack_temp_static level_temp level_temp temp_step no_reply
      model ctx buf w

unfoldable pub gen_delta_set_temp : Model → Ctx → List ℕ → App → App
gen_delta_set_temp model ctx buf w =
    delta_body level_temp_server delta_temp_static level_temp level_temp temp_step
      (gen_level_get_temp model ctx) model ctx buf w

-- Where a move goes: the end of the range that the sign of `delta` points to.
unfoldable pub move_goal : ℤ → ℕ → ℕ → ℕ → ℕ
move_goal delta range_min range_max current =
    if ltb_ℤ delta (pos 0) then range_min else if ltb_ℤ (pos 0) delta then range_max else current

unfoldable pub move_light_targets : ℤ → App → App
unfolding move_goal set_target
move_light_targets delta w =
    let l = record w.ctl.light { delta = delta } in
    set_target move_light (pos (move_goal delta l.range_min l.range_max l.current)) (with_light w l)

unfoldable pub move_temp_targets : ℤ → App → App
unfolding move_goal set_target
move_temp_targets delta w =
    let t = record w.ctl.temp { delta = delta } in
    set_target move_temp (pos (move_goal delta t.range_min t.range_max t.current)) (with_temp w t)

abbrev move_body : Server → (App → App) → (ℤ → App → App) → Model → Ctx → List ℕ → App → App
move_body s reply targets model ctx buf w =
    let (delta, buf1) = w.env.pull_le16 buf in
    let (tid, buf2) = w.env.pull_u8 buf1 in
    move_message s reply (targets (signed16 delta)) model ctx tid buf2 w

unfoldable pub gen_move_set_unack : Model → Ctx → List ℕ → App → App
gen_move_set_unack model ctx buf w =
    move_body move_server no_reply move_light_targets model ctx buf w

unfoldable pub gen_move_set : Model → Ctx → List ℕ → App → App
gen_move_set model ctx buf w =
    move_body move_server (gen_level_get model ctx) move_light_targets model ctx buf w

unfoldable pub gen_move_set_unack_temp : Model → Ctx → List ℕ → App → App
gen_move_set_unack_temp model ctx buf w =
    move_body move_temp_server no_reply move_temp_targets model ctx buf w

unfoldable pub gen_move_set_temp : Model → Ctx → List ℕ → App → App
gen_move_set_temp model ctx buf w =
    move_body move_temp_server (gen_level_get_temp model ctx) move_temp_targets model ctx buf w
