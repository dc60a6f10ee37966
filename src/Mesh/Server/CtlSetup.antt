-- ===== src/Mesh/Server/CtlSetup.antt =====
-- mesh/device_composition.c: the setup handlers of the Light CTL server.
use zephyr_samples.Base.{ℕ, ◌||◌, Bool, if◌then◌else◌, ltb, leb, ◌==◌, not, List, [], ◌∷◌}
use zephyr_samples.Base.Int.{ℤ, eqb_ℤ}
use zephyr_samples.Base.Words.{signed16, to_u16}
use zephyr_samples.Mesh.State.{
  App, Model, Ctx, op_2, Field, u8, le16, with_temp, temp_min, temp_max, range_successfully_updated,
  cannot_set_range_max,
}
use zephyr_samples.Mesh.Storage.{save_on_flash, def_states, temperature_range}
use zephyr_samples.Mesh.Binding.{constrain_lightness, constrain_temperature}
use zephyr_samples.Mesh.Server.Setup.{send, publish}

abbrev pub temp_range_fields : App → List Field
temp_range_fields w =
    u8 w.ctl.temp.status_code ∷ le16 w.ctl.temp.range_min ∷ le16 w.ctl.temp.range_max ∷ []

unfoldable pub light_ctl_temp_range_get : Model → Ctx → App → App
unfolding send
light_ctl_temp_range_get model ctx w =
    let w1 = with_temp w (record w.ctl.temp { status_code = range_successfully_updated }) in
    send (op_2 0x82 0x63) (temp_range_fields w1) model ctx w1

unfoldable pub light_ctl_temp_range_publish : Model → App → App
unfolding publish
light_ctl_temp_range_publish model w = publish (op_2 0x82 0x63) (temp_range_fields w) model w

abbrev pub default_fields : App → List Field
default_fields w = le16 w.ctl.light.def ∷ le16 w.ctl.temp.def ∷ le16 (to_u16 w.ctl.duv.def) ∷ []

unfoldable pub light_ctl_default_get : Model → Ctx → App → App
unfolding send
light_ctl_default_get model ctx w = send (op_2 0x82 0x68) (default_fields w) model ctx w

unfoldable pub light_ctl_default_publish : Model → App → App
unfolding publish
light_ctl_default_publish model w = publish (op_2 0x82 0x68) (default_fields w) model w

-- The three defaults, constrained and stored.
abbrev store_defaults : ℕ → ℕ → ℤ → App → App
store_defaults lightness temp delta_uv w = record w {
  ctl = record w.ctl {
    light = record w.ctl.light { def = lightness };
    temp = record w.ctl.temp { def = temp };
    duv = record w.ctl.duv { def = delta_uv };
  };
}

abbrev defaults_differ : ℕ → ℕ → ℤ → App → Bool
defaults_differ lightness temp delta_uv w =
    not (w.ctl.light.def == lightness)
    || (not (w.ctl.temp.def == temp) || not (eqb_ℤ w.ctl.duv.def delta_uv))

unfoldable pub light_ctl_default_set_unack : Model → Ctx → List ℕ → App → App
unfolding constrain_lightness constrain_temperature light_ctl_default_publish save_on_flash
light_ctl_default_set_unack model ctx buf w =
    let (lightness0, buf1) = w.env.pull_le16 buf in
    let (temp0, buf2) = w.env.pull_le16 buf1 in
    let (delta_uv0, buf3) = w.env.pull_le16 buf2 in
    let delta_uv = signed16 delta_uv0 in
    let lightness = constrain_lightness w.ctl.light lightness0 in
    let temp = constrain_temperature w.ctl.temp temp0 in
    if ltb temp0 temp_min || ltb temp_max temp0
    then w
    else if defaults_differ lightness temp delta_uv w
    then (let w1 = store_defaults lightness temp delta_uv w in
        save_on_flash def_states (light_ctl_default_publish model w1))
    else w

unfoldable pub light_ctl_default_set : Model → Ctx → List ℕ → App → App
unfolding constrain_lightness constrain_temperature light_ctl_default_get light_ctl_default_publish
    save_on_flash
light_ctl_default_set model ctx buf w =
    let (lightness0, buf1) = w.env.pull_le16 buf in
    let (temp0, buf2) = w.env.pull_le16 buf1 in
    let (delta_uv0, buf3) = w.env.pull_le16 buf2 in
    let delta_uv = signed16 delta_uv0 in
    let lightness = constrain_lightness w.ctl.light lightness0 in
    let temp = constrain_temperature w.ctl.temp temp0 in
    if ltb temp0 temp_min || ltb temp_max temp0
    then w
    else if defaults_differ lightness temp delta_uv w
    then (let w1 = light_ctl_default_get model ctx (store_defaults lightness temp delta_uv w) in
        save_on_flash def_states (light_ctl_default_publish model w1))
    else light_ctl_default_get model ctx w

-- 6.1.3.1 of the Mesh Model Specification.
abbrev outside : ℕ → Bool
outside v = ltb v temp_min || ltb temp_max v

unfoldable pub light_ctl_temp_range_set_unack : Model → Ctx → List ℕ → App → App
unfolding light_ctl_temp_range_publish save_on_flash
light_ctl_temp_range_set_unack model ctx buf w =
    let (min, buf1) = w.env.pull_le16 buf in
    let (max, buf2) = w.env.pull_le16 buf1 in
    let t = w.ctl.temp in
    if outside min || outside max
    then w
    else if leb min max
    then (let w1 = with_temp w (record t { status_code = range_successfully_updated }) in
        if not (t.range_min == min) || not (t.range_max == max)
        then (let w2 = with_temp w1 (record w1.ctl.temp { range_min = min; range_max = max }) in
            save_on_flash temperature_range (light_ctl_temp_range_publish model w2))
        else w1)
    else with_temp w (record t { status_code = cannot_set_range_max })

unfoldable pub light_ctl_temp_range_set : Model → Ctx → List ℕ → App → App
unfolding light_ctl_temp_range_get light_ctl_temp_range_publish save_on_flash
light_ctl_temp_range_set model ctx buf w =
    let (min, buf1) = w.env.pull_le16 buf in
    let (max, buf2) = w.env.pull_le16 buf1 in
    let t = w.ctl.temp in
    if outside min || outside max
    then w
    else if leb min max
    then (let w1 = with_temp w (record t { status_code = range_successfully_updated }) in
        if not (t.range_min == min) || not (t.range_max == max)
        then (let w2 = with_temp w1 (record w1.ctl.temp { range_min = min; range_max = max }) in
            save_on_flash temperature_range
              (light_ctl_temp_range_publish model (light_ctl_temp_range_get model ctx w2)))
        else light_ctl_temp_range_get model ctx w1)
    else with_temp w (record t { status_code = cannot_set_range_max })
