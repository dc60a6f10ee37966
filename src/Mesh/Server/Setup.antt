-- ===== src/Mesh/Server/Setup.antt =====
-- mesh/device_composition.c: the handlers that change what is kept across power cycles: default
-- transition time, power-up behaviour, default values and ranges.
use zephyr_samples.Base.{ℕ, ◌%◌, ◌||◌, if◌then◌else◌, ltb, leb, ◌==◌, not, List, [], ◌∷◌}
use zephyr_samples.Mesh.State.{
  App, Model, Ctx, Opcode, op_2, Field, u8, le16, emit, model_send, model_publish, with_light,
  state_restore, range_successfully_updated, cannot_set_range_max,
}
use zephyr_samples.Mesh.Storage.{
  save_on_flash, gen_def_trans_time_state, gen_onpowerup_state, def_states, lightness_range,
}
use zephyr_samples.Mesh.Binding.{constrain_lightness}

-- A status with no transition in it, sent or published.
unfoldable pub send : Opcode → List Field → Model → Ctx → App → App
send op fields model ctx w = emit (model_send model ctx (record { opcode = op; fields = fields })) w

unfoldable pub publish : Opcode → List Field → Model → App → App
publish op fields model w =
    if model.pub_addr == w.env.addr_unassigned
    then w
    else emit (model_publish model (record { opcode = op; fields = fields })) w

unfoldable pub gen_def_trans_time_get : Model → Ctx → App → App
unfolding send
gen_def_trans_time_get model ctx w = send (op_2 0x82 0x10) (u8 w.ctl.tt ∷ []) model ctx w

unfoldable pub gen_def_trans_time_publish : Model → App → App
unfolding publish
gen_def_trans_time_publish model w = publish (op_2 0x82 0x10) (u8 w.ctl.tt ∷ []) model w

unfoldable pub gen_def_trans_time_set_unack : Model → Ctx → List ℕ → App → App
unfolding gen_def_trans_time_publish save_on_flash
gen_def_trans_time_set_unack model ctx buf w =
    let (tt, buf1) = w.env.pull_u8 buf in
    if tt % 64 == 0x3F
    then w
    else if not (w.ctl.tt == tt)
    then (let w1 = record w { ctl = record w.ctl { tt = tt } } in
        save_on_flash gen_def_trans_time_state (gen_def_trans_time_publish model w1))
    else w

unfoldable pub gen_def_trans_time_set : Model → Ctx → List ℕ → App → App
unfolding gen_def_trans_time_get gen_def_trans_time_publish save_on_flash
gen_def_trans_time_set model ctx buf w =
    let (tt, buf1) = w.env.pull_u8 buf in
    if tt % 64 == 0x3F
    then w
    else if not (w.ctl.tt == tt)
    then (let w1 = gen_def_trans_time_get model ctx (record w { ctl = record w.ctl { tt = tt } }) in
        save_on_flash gen_def_trans_time_state (gen_def_trans_time_publish model w1))
    else gen_def_trans_time_get model ctx w

unfoldable pub gen_onpowerup_get : Model → Ctx → App → App
unfolding send
gen_onpowerup_get model ctx w = send (op_2 0x82 0x12) (u8 w.ctl.onpowerup ∷ []) model ctx w

unfoldable pub gen_onpowerup_publish : Model → App → App
unfolding publish
gen_onpowerup_publish model w = publish (op_2 0x82 0x12) (u8 w.ctl.onpowerup ∷ []) model w

unfoldable pub gen_onpowerup_set_unack : Model → Ctx → List ℕ → App → App
unfolding gen_onpowerup_publish save_on_flash
gen_onpowerup_set_unack model ctx buf w =
    let (onpowerup, buf1) = w.env.pull_u8 buf in
    if ltb state_restore onpowerup
    then w
    else if not (w.ctl.onpowerup == onpowerup)
    then (let w1 = record w { ctl = record w.ctl { onpowerup = onpowerup } } in
        save_on_flash gen_onpowerup_state (gen_onpowerup_publish model w1))
    else w

unfoldable pub gen_onpowerup_set : Model → Ctx → List ℕ → App → App
unfolding gen_onpowerup_get gen_onpowerup_publish save_on_flash
gen_onpowerup_set model ctx buf w =
    let (onpowerup, buf1) = w.env.pull_u8 buf in
    if ltb state_restore onpowerup
    then w
    else if not (w.ctl.onpowerup == onpowerup)
    then (let w1 =
          gen_onpowerup_get model ctx (record w { ctl = record w.ctl { onpowerup = onpowerup } }) in
        save_on_flash gen_onpowerup_state (gen_onpowerup_publish model w1))
    else gen_onpowerup_get model ctx w

unfoldable pub light_lightness_last_get : Model → Ctx → App → App
unfolding send
light_lightness_last_get model ctx w =
    send (op_2 0x82 0x54) (le16 w.ctl.light.last ∷ []) model ctx w

unfoldable pub light_lightness_default_get : Model → Ctx → App → App
unfolding send
light_lightness_default_get model ctx w =
    send (op_2 0x82 0x56) (le16 w.ctl.light.def ∷ []) model ctx w

unfoldable pub light_lightness_default_publish : Model → App → App
unfolding publish
light_lightness_default_publish model w =
    publish (op_2 0x82 0x56) (le16 w.ctl.light.def ∷ []) model w

unfoldable pub light_lightness_default_set_unack : Model → Ctx → List ℕ → App → App
unfolding constrain_lightness light_lightness_default_publish save_on_flash
light_lightness_default_set_unack model ctx buf w =
    let lightness = constrain_lightness w.ctl.light (w.env.pull_le16 buf).0 in
    if not (w.ctl.light.def == lightness)
    then (let w1 = with_light w (record w.ctl.light { def = lightness }) in
        save_on_flash def_states (light_lightness_default_publish model w1))
    else w

unfoldable pub light_lightness_default_set : Model → Ctx → List ℕ → App → App
unfolding constrain_lightness light_lightness_default_get light_lightness_default_publish
    save_on_flash
light_lightness_default_set model ctx buf w =
    let lightness = constrain_lightness w.ctl.light (w.env.pull_le16 buf).0 in
    if not (w.ctl.light.def == lightness)
    then (let w1 =
          light_lightness_default_get model ctx
            (with_light w (record w.ctl.light { def = lightness })) in
        save_on_flash def_states (light_lightness_default_publish model w1))
    else light_lightness_default_get model ctx w

-- The three fields of a range status.
abbrev pub light_range_fields : App → List Field
light_range_fields w =
    u8 w.ctl.light.status_code ∷ le16 w.ctl.light.range_min ∷ le16 w.ctl.light.range_max ∷ []

unfoldable pub light_lightness_range_get : Model → Ctx → App → App
unfolding send
light_lightness_range_get model ctx w =
    let w1 = with_light w (record w.ctl.light { status_code = range_successfully_updated }) in
    send (op_2 0x82 0x58) (light_range_fields w1) model ctx w1

unfoldable pub light_lightness_range_publish : Model → App → App
unfolding publish
light_lightness_range_publish model w = publish (op_2 0x82 0x58) (light_range_fields w) model w

unfoldable pub light_lightness_range_set_unack : Model → Ctx → List ℕ → App → App
unfolding light_lightness_range_publish save_on_flash
light_lightness_range_set_unack model ctx buf w =
    let (min, buf1) = w.env.pull_le16 buf in
    let (max, buf2) = w.env.pull_le16 buf1 in
    let l = w.ctl.light in
    if min == 0 || max == 0
    then w
    else if leb min max
    then (let w1 = with_light w (record l { status_code = range_successfully_updated }) in
        if not (l.range_min == min) || not (l.range_max == max)
        then (let w2 = with_light w1 (record w1.ctl.light { range_min = min; range_max = max }) in
            save_on_flash lightness_range (light_lightness_range_publish model w2))
        else w1)
    else with_light w (record l { status_code = cannot_set_range_max })

unfoldable pub light_lightness_range_set : Model → Ctx → List ℕ → App → App
unfolding light_lightness_range_get light_lightness_range_publish save_on_flash
light_lightness_range_set model ctx buf w =
    let (min, buf1) = w.env.pull_le16 buf in
    let (max, buf2) = w.env.pull_le16 buf1 in
    let l = w.ctl.light in
    if min == 0 || max == 0
    then w
    else if leb min max
    then (let w1 = with_light w (record l { status_code = range_successfully_updated }) in
        if not (l.range_min == min) || not (l.range_max == max)
        then (let w2 = with_light w1 (record w1.ctl.light { range_min = min; range_max = max }) in
            save_on_flash lightness_range
              (light_lightness_range_publish model (light_lightness_range_get model ctx w2)))
        else light_lightness_range_get model ctx w1)
    else with_light w (record l { status_code = cannot_set_range_max })
