-- ===== src/Mesh/Status.antt =====
-- mesh/device_composition.c: the status messages, sent in answer (`*_get`) or published.
use zephyr_samples.Base.{◌&&◌, ◌||◌, Bool, false, if◌then◌else◌, ◌==◌, List, [], ◌∷◌, ◌++◌}
use zephyr_samples.Base.Int.{ℤ, eqb_ℤ}
use zephyr_samples.Base.Words.{to_u8, to_u16}
use zephyr_samples.Mesh.State.{
  App, Model, Ctx, Opcode, op_2, Field, u8, le16, emit, model_send, model_publish, onoff,
  level_light, actual, linear, ctl_light, level_temp, ctl_temp, ctl_delta_uv,
}
use zephyr_samples.Mesh.Binding.{get_current, get_target}
use zephyr_samples.Mesh.Transition.{calculate_rt}

-- The values of a status: the present ones, and while a transition runs the target ones and the
-- remaining time. `settled` is the test before `goto send`.
unfoldable pub status_fields :
    Bool → (App → List Field) → (App → List Field) → App → List Field × App
unfolding calculate_rt
status_fields settled present target w =
    if settled || w.ctl.transition.counter == 0
    then (present w, w)
    else (let w1 = calculate_rt w in
        (present w ++ (target w1 ++ (u8 w1.ctl.transition.rt ∷ [])), w1))

unfoldable pub send_status :
    Opcode → Bool → (App → List Field) → (App → List Field) → Model → Ctx → App → App
unfolding status_fields
send_status op settled present target model ctx w =
    let (fields, w1) = status_fields settled present target w in
    emit (model_send model ctx (record { opcode = op; fields = fields })) w1

unfoldable pub publish_status : Opcode → (App → List Field) → (App → List Field) → Model → App → App
unfolding status_fields
publish_status op present target model w =
    if model.pub_addr == w.env.addr_unassigned
    then w
    else (let (fields, w1) = status_fields false present target w in
        emit (model_publish model (record { opcode = op; fields = fields })) w1)

abbrev pub byte_of : (App → ℤ) → App → List Field
byte_of f w = u8 (to_u8 (f w)) ∷ []

abbrev pub word_of : (App → ℤ) → App → List Field
word_of f w = le16 (to_u16 (f w)) ∷ []

abbrev pub words_of : (App → ℤ) → (App → ℤ) → App → List Field
words_of f g w = le16 (to_u16 (f w)) ∷ le16 (to_u16 (g w)) ∷ []

abbrev pub light_settled : App → Bool
light_settled w = w.ctl.light.current == w.ctl.light.target

abbrev pub temp_settled : App → Bool
temp_settled w = w.ctl.temp.current == w.ctl.temp.target

abbrev pub duv_settled : App → Bool
duv_settled w = eqb_ℤ w.ctl.duv.current w.ctl.duv.target

unfoldable pub gen_onoff_get : Model → Ctx → App → App
unfolding send_status
gen_onoff_get model ctx w =
    send_status (op_2 0x82 0x04) (light_settled w) (byte_of (get_current onoff))
      (byte_of (get_target onoff)) model ctx w

unfoldable pub gen_onoff_publish : Model → App → App
unfolding publish_status
gen_onoff_publish model w =
    publish_status (op_2 0x82 0x04) (byte_of (get_current onoff)) (byte_of (get_target onoff)) model
      w

unfoldable pub gen_level_get : Model → Ctx → App → App
unfolding send_status
gen_level_get model ctx w =
    send_status (op_2 0x82 0x08) (light_settled w) (word_of (get_current level_light))
      (word_of (get_target level_light)) model ctx w

unfoldable pub gen_level_publish : Model → App → App
unfolding publish_status
gen_level_publish model w =
    publish_status (op_2 0x82 0x08) (word_of (get_current level_light))
      (word_of (get_target level_light)) model w

unfoldable pub light_lightness_get : Model → Ctx → App → App
unfolding send_status
light_lightness_get model ctx w =
    send_status (op_2 0x82 0x4E) (light_settled w) (word_of (get_current actual))
      (word_of (get_target actual)) model ctx w

unfoldable pub light_lightness_publish : Model → App → App
unfolding publish_status
light_lightness_publish model w =
    publish_status (op_2 0x82 0x4E) (word_of (get_current actual)) (word_of (get_target actual))
      model w

unfoldable pub light_lightness_linear_get : Model → Ctx → App → App
unfolding send_status
light_lightness_linear_get model ctx w =
    send_status (op_2 0x82 0x52) (light_settled w) (word_of (get_current linear))
      (word_of (get_target linear)) model ctx w

unfoldable pub light_lightness_linear_publish : Model → App → App
unfolding publish_status
light_lightness_linear_publish model w =
    publish_status (op_2 0x82 0x52) (word_of (get_current linear)) (word_of (get_target linear))
      model w

unfoldable pub light_ctl_get : Model → Ctx → App → App
unfolding send_status
light_ctl_get model ctx w =
    send_status (op_2 0x82 0x60) (light_settled w && temp_settled w)
      (words_of (get_current ctl_light) (get_current ctl_temp))
      (words_of (get_target ctl_light) (get_target ctl_temp)) model ctx w

unfoldable pub light_ctl_publish : Model → App → App
unfolding publish_status
light_ctl_publish model w =
    publish_status (op_2 0x82 0x60) (words_of (get_current ctl_light) (get_current ctl_temp))
      (words_of (get_target ctl_light) (get_target ctl_temp)) model w

unfoldable pub light_ctl_temp_get : Model → Ctx → App → App
unfolding send_status
light_ctl_temp_get model ctx w =
    send_status (op_2 0x82 0x66) (temp_settled w && duv_settled w)
      (words_of (get_current ctl_temp) (get_current ctl_delta_uv))
      (words_of (get_target ctl_temp) (get_target ctl_delta_uv)) model ctx w

unfoldable pub light_ctl_temp_publish : Model → App → App
unfolding publish_status
light_ctl_temp_publish model w =
    publish_status (op_2 0x82 0x66) (words_of (get_current ctl_temp) (get_current ctl_delta_uv))
      (words_of (get_target ctl_temp) (get_target ctl_delta_uv)) model w

unfoldable pub gen_level_get_temp : Model → Ctx → App → App
unfolding send_status
gen_level_get_temp model ctx w =
    send_status (op_2 0x82 0x08) (temp_settled w) (word_of (get_current level_temp))
      (word_of (get_target level_temp)) model ctx w

unfoldable pub gen_level_publish_temp : Model → App → App
unfolding publish_status
gen_level_publish_temp model w =
    publish_status (op_2 0x82 0x08) (word_of (get_current level_temp))
      (word_of (get_target level_temp)) model w
