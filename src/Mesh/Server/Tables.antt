-- ===== src/Mesh/Server/Tables.antt =====
-- mesh/device_composition.c: the tables of opcodes and message handlers of the server models. The
-- handlers of the client models, and `vnd_status`, only print.
use zephyr_samples.Base.{ℕ, List, [], ◌∷◌}
use zephyr_samples.Mesh.State.{App, Model, Ctx, Opcode, op_2, op_3}
use zephyr_samples.Mesh.Status.{
  gen_onoff_get, gen_level_get, light_lightness_get, light_lightness_linear_get, light_ctl_get,
  light_ctl_temp_get, gen_level_get_temp,
}
use zephyr_samples.Mesh.Server.Handlers.{
  gen_onoff_set, gen_onoff_set_unack, gen_level_set, gen_level_set_unack, light_lightness_set,
  light_lightness_set_unack, light_lightness_linear_set, light_lightness_linear_set_unack,
  light_ctl_set, light_ctl_set_unack, light_ctl_temp_set, light_ctl_temp_set_unack,
  gen_level_set_temp, gen_level_set_unack_temp,
}
use zephyr_samples.Mesh.Server.Steps.{
  gen_delta_set, gen_delta_set_unack, gen_move_set, gen_move_set_unack, gen_delta_set_temp,
  gen_delta_set_unack_temp, gen_move_set_temp, gen_move_set_unack_temp,
}
use zephyr_samples.Mesh.Server.Setup.{
  gen_def_trans_time_get, gen_def_trans_time_set, gen_def_trans_time_set_unack, gen_onpowerup_get,
  gen_onpowerup_set, gen_onpowerup_set_unack, light_lightness_last_get, light_lightness_default_get,
  light_lightness_default_set, light_lightness_default_set_unack, light_lightness_range_get,
  light_lightness_range_set, light_lightness_range_set_unack,
}
use zephyr_samples.Mesh.Server.CtlSetup.{
  light_ctl_temp_range_get, light_ctl_temp_range_set, light_ctl_temp_range_set_unack,
  light_ctl_default_get, light_ctl_default_set, light_ctl_default_set_unack,
}
use zephyr_samples.Mesh.Server.Vendor.{vnd_get, vnd_set, vnd_set_unack}

-- `struct bt_mesh_model_op`
pub record Op : Type 0 where
  pub opcode : Opcode
  pub min_len : ℕ
  pub func : Model → Ctx → List ℕ → App → App

-- A Get handler, which reads nothing of the message.
abbrev got : (Model → Ctx → App → App) → Model → Ctx → List ℕ → App → App
got get model ctx buf w = get model ctx w

abbrev op : Opcode → ℕ → (Model → Ctx → List ℕ → App → App) → Op
op code len f = record { opcode = code; min_len = len; func = f }

unfoldable pub gen_onoff_srv_op : List Op
gen_onoff_srv_op =
    op (op_2 0x82 0x01) 0 (got gen_onoff_get)
    ∷ op (op_2 0x82 0x02) 2 gen_onoff_set
    ∷ op (op_2 0x82 0x03) 2 gen_onoff_set_unack
    ∷ []

unfoldable pub gen_level_srv_op : List Op
gen_level_srv_op =
    op (op_2 0x82 0x05) 0 (got gen_level_get)
    ∷ op (op_2 0x82 0x06) 3 gen_level_set
    ∷ op (op_2 0x82 0x07) 3 gen_level_set_unack
    ∷ op (op_2 0x82 0x09) 5 gen_delta_set
    ∷ op (op_2 0x82 0x0A) 5 gen_delta_set_unack
    ∷ op (op_2 0x82 0x0B) 3 gen_move_set
    ∷ op (op_2 0x82 0x0C) 3 gen_move_set_unack
    ∷ []

unfoldable pub gen_def_trans_time_srv_op : List Op
gen_def_trans_time_srv_op =
    op (op_2 0x82 0x0D) 0 (got gen_def_trans_time_get)
    ∷ op (op_2 0x82 0x0E) 1 gen_def_trans_time_set
    ∷ op (op_2 0x82 0x0F) 1 gen_def_trans_time_set_unack
    ∷ []

unfoldable pub gen_power_onoff_srv_op : List Op
gen_power_onoff_srv_op = op (op_2 0x82 0x11) 0 (got gen_onpowerup_get) ∷ []

unfoldable pub gen_power_onoff_setup_srv_op : List Op
gen_power_onoff_setup_srv_op =
    op (op_2 0x82 0x13) 1 gen_onpowerup_set ∷ op (op_2 0x82 0x14) 1 gen_onpowerup_set_unack ∷ []

unfoldable pub light_lightness_srv_op : List Op
light_lightness_srv_op =
    op (op_2 0x82 0x4B) 0 (got light_lightness_get)
    ∷ op (op_2 0x82 0x4C) 3 light_lightness_set
    ∷ op (op_2 0x82 0x4D) 3 light_lightness_set_unack
    ∷ op (op_2 0x82 0x4F) 0 (got light_lightness_linear_get)
    ∷ op (op_2 0x82 0x50) 3 light_lightness_linear_set
    ∷ op (op_2 0x82 0x51) 3 light_lightness_linear_set_unack
    ∷ op (op_2 0x82 0x53) 0 (got light_lightness_last_get)
    ∷ op (op_2 0x82 0x55) 0 (got light_lightness_default_get)
    ∷ op (op_2 0x82 0x57) 0 (got light_lightness_range_get)
    ∷ []

unfoldable pub light_lightness_setup_srv_op : List Op
light_lightness_setup_srv_op =
    op (op_2 0x82 0x59) 2 light_lightness_default_set
    ∷ op (op_2 0x82 0x5A) 2 light_lightness_default_set_unack
    ∷ op (op_2 0x82 0x5B) 4 light_lightness_range_set
    ∷ op (op_2 0x82 0x5C) 4 light_lightness_range_set_unack
    ∷ []

unfoldable pub light_ctl_srv_op : List Op
light_ctl_srv_op =
    op (op_2 0x82 0x5D) 0 (got light_ctl_get)
    ∷ op (op_2 0x82 0x5E) 7 light_ctl_set
    ∷ op (op_2 0x82 0x5F) 7 light_ctl_set_unack
    ∷ op (op_2 0x82 0x62) 0 (got light_ctl_temp_range_get)
    ∷ op (op_2 0x82 0x67) 0 (got light_ctl_default_get)
    ∷ []

unfoldable pub light_ctl_setup_srv_op : List Op
light_ctl_setup_srv_op =
    op (op_2 0x82 0x69) 6 light_ctl_default_set
    ∷ op (op_2 0x82 0x6A) 6 light_ctl_default_set_unack
    ∷ op (op_2 0x82 0x6B) 4 light_ctl_temp_range_set
    ∷ op (op_2 0x82 0x6C) 4 light_ctl_temp_range_set_unack
    ∷ []

unfoldable pub light_ctl_temp_srv_op : List Op
light_ctl_temp_srv_op =
    op (op_2 0x82 0x61) 0 (got light_ctl_temp_get)
    ∷ op (op_2 0x82 0x64) 5 light_ctl_temp_set
    ∷ op (op_2 0x82 0x65) 5 light_ctl_temp_set_unack
    ∷ []

-- `vnd_status`: what it prints is not modelled.
unfoldable pub vnd_status : Model → Ctx → List ℕ → App → App
vnd_status model ctx buf w = w

unfoldable pub vnd_ops : List Op
vnd_ops =
    op (op_3 0x01 0x0002) 0 (got vnd_get)
    ∷ op (op_3 0x02 0x0002) 3 vnd_set
    ∷ op (op_3 0x03 0x0002) 3 vnd_set_unack
    ∷ op (op_3 0x04 0x0002) 6 vnd_status
    ∷ []

unfoldable pub gen_level_srv_op_temp : List Op
gen_level_srv_op_temp =
    op (op_2 0x82 0x05) 0 (got gen_level_get_temp)
    ∷ op (op_2 0x82 0x06) 3 gen_level_set_temp
    ∷ op (op_2 0x82 0x07) 3 gen_level_set_unack_temp
    ∷ op (op_2 0x82 0x09) 5 gen_delta_set_temp
    ∷ op (op_2 0x82 0x0A) 5 gen_delta_set_unack_temp
    ∷ op (op_2 0x82 0x0B) 3 gen_move_set_temp
    ∷ op (op_2 0x82 0x0C) 3 gen_move_set_unack_temp
    ∷ []
