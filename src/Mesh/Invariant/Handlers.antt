-- ===== src/Mesh/Invariant/Handlers.antt =====
-- mesh/device_composition.c: validity for the parts of each server, its answers, publications, timer
-- starts and instantaneous ends.
use zephyr_samples.Base.{◌&&◌}
use zephyr_samples.Mesh.State.{
  Model, Ctx, op_2, onoff, level_light, actual, linear, ctl_light, level_temp, ctl_temp,
  ctl_delta_uv, onoff_tt, level_lightness_tt, level_temp_tt, light_lightness_actual_tt,
  light_lightness_linear_tt, light_ctl_tt, light_ctl_temp_tt,
}
use zephyr_samples.Mesh.Binding.{get_current, get_target}
use zephyr_samples.Mesh.Transition.Work.{
  end_light, end_temp, end_duv, onoff_handler, level_lightness_handler, level_temp_handler,
  light_lightness_actual_handler, light_lightness_linear_handler, light_ctl_handler,
  light_ctl_temp_handler,
}
use zephyr_samples.Mesh.Status.{
  byte_of, word_of, words_of, light_settled, temp_settled, duv_settled, gen_onoff_get,
  gen_onoff_publish, gen_level_get, gen_level_publish, light_lightness_get, light_lightness_publish,
  light_lightness_linear_get, light_lightness_linear_publish, light_ctl_get, light_ctl_publish,
  light_ctl_temp_get, light_ctl_temp_publish, gen_level_get_temp, gen_level_publish_temp,
}
use zephyr_samples.Mesh.Server.Handlers.{
  onoff_server, level_server, move_server, lightness_server, linear_server, ctl_server,
  ctl_temp_server, level_temp_server, move_temp_server,
}
use zephyr_samples.Mesh.Invariant.{
  Good, Good-compose, send_status-Good, publish_status-Good, start_timer-Good, end_light-Good,
  end_temp-Good, end_duv-Good,
}
use zephyr_samples.Mesh.Invariant.Messages.{Sound}

temp_duv-Good : Good (λ w. end_duv (end_temp w))
temp_duv-Good = Good-compose end_temp end_duv end_temp-Good end_duv-Good

all-Good : Good (λ w. end_duv (end_temp (end_light w)))
all-Good = Good-compose end_light (λ w. end_duv (end_temp w)) end_light-Good temp_duv-Good

pub gen_onoff_get-Good : (model : Model) (ctx : Ctx) → Good (gen_onoff_get model ctx)
unfolding gen_onoff_get
gen_onoff_get-Good =
    send_status-Good (op_2 0x82 0x04) light_settled (byte_of (get_current onoff))
      (byte_of (get_target onoff))

pub gen_onoff_publish-Good : (model : Model) → Good (gen_onoff_publish model)
unfolding gen_onoff_publish
gen_onoff_publish-Good =
    publish_status-Good (op_2 0x82 0x04) (byte_of (get_current onoff)) (byte_of (get_target onoff))

pub onoff-Sound : Sound onoff_server
unfolding onoff_handler
onoff-Sound = record {
  settle_good = end_light-Good;
  publish_good = gen_onoff_publish-Good;
  handler_good = start_timer-Good onoff_tt;
}

pub gen_level_get-Good : (model : Model) (ctx : Ctx) → Good (gen_level_get model ctx)
unfolding gen_level_get
gen_level_get-Good =
    send_status-Good (op_2 0x82 0x08) light_settled (word_of (get_current level_light))
      (word_of (get_target level_light))

pub gen_level_publish-Good : (model : Model) → Good (gen_level_publish model)
unfolding gen_level_publish
gen_level_publish-Good =
    publish_status-Good (op_2 0x82 0x08) (word_of (get_current level_light))
      (word_of (get_target level_light))

pub level-Sound : Sound level_server
unfolding level_lightness_handler
level-Sound = record {
  settle_good = end_light-Good;
  publish_good = gen_level_publish-Good;
  handler_good = start_timer-Good level_lightness_tt;
}

pub move-Sound : Sound move_server
unfolding level_lightness_handler
move-Sound = record {
  settle_good = end_light-Good;
  publish_good = gen_level_publish-Good;
  handler_good = start_timer-Good level_lightness_tt;
}

pub light_lightness_get-Good : (model : Model) (ctx : Ctx) → Good (light_lightness_get model ctx)
unfolding light_lightness_get
light_lightness_get-Good =
    send_status-Good (op_2 0x82 0x4E) light_settled (word_of (get_current actual))
      (word_of (get_target actual))

pub light_lightness_publish-Good : (model : Model) → Good (light_lightness_publish model)
unfolding light_lightness_publish
light_lightness_publish-Good =
    publish_status-Good (op_2 0x82 0x4E) (word_of (get_current actual))
      (word_of (get_target actual))

pub lightness-Sound : Sound lightness_server
unfolding light_lightness_actual_handler
lightness-Sound = record {
  settle_good = end_light-Good;
  publish_good = light_lightness_publish-Good;
  handler_good = start_timer-Good light_lightness_actual_tt;
}

pub light_lightness_linear_get-Good :
    (model : Model) (ctx : Ctx) → Good (light_lightness_linear_get model ctx)
unfolding light_lightness_linear_get
light_lightness_linear_get-Good =
    send_status-Good (op_2 0x82 0x52) light_settled (word_of (get_current linear))
      (word_of (get_target linear))

pub light_lightness_linear_publish-Good :
    (model : Model) → Good (light_lightness_linear_publish model)
unfolding light_lightness_linear_publish
light_lightness_linear_publish-Good =
    publish_status-Good (op_2 0x82 0x52) (word_of (get_current linear))
      (word_of (get_target linear))

pub linear-Sound : Sound linear_server
unfolding light_lightness_linear_handler
linear-Sound = record {
  settle_good = end_light-Good;
  publish_good = light_lightness_linear_publish-Good;
  handler_good = start_timer-Good light_lightness_linear_tt;
}

pub light_ctl_get-Good : (model : Model) (ctx : Ctx) → Good (light_ctl_get model ctx)
unfolding light_ctl_get
light_ctl_get-Good =
    send_status-Good (op_2 0x82 0x60) (λ w. light_settled w && temp_settled w)
      (words_of (get_current ctl_light) (get_current ctl_temp))
      (words_of (get_target ctl_light) (get_target ctl_temp))

pub light_ctl_publish-Good : (model : Model) → Good (light_ctl_publish model)
unfolding light_ctl_publish
light_ctl_publish-Good =
    publish_status-Good (op_2 0x82 0x60) (words_of (get_current ctl_light) (get_current ctl_temp))
      (words_of (get_target ctl_light) (get_target ctl_temp))

pub ctl-Sound : Sound ctl_server
unfolding light_ctl_handler
ctl-Sound = record {
  settle_good = all-Good;
  publish_good = light_ctl_publish-Good;
  handler_good = start_timer-Good light_ctl_tt;
}

pub light_ctl_temp_get-Good : (model : Model) (ctx : Ctx) → Good (light_ctl_temp_get model ctx)
unfolding light_ctl_temp_get
light_ctl_temp_get-Good =
    send_status-Good (op_2 0x82 0x66) (λ w. temp_settled w && duv_settled w)
      (words_of (get_current ctl_temp) (get_current ctl_delta_uv))
      (words_of (get_target ctl_temp) (get_target ctl_delta_uv))

pub light_ctl_temp_publish-Good : (model : Model) → Good (light_ctl_temp_publish model)
unfolding light_ctl_temp_publish
light_ctl_temp_publish-Good =
    publish_status-Good (op_2 0x82 0x66)
      (words_of (get_current ctl_temp) (get_current ctl_delta_uv))
      (words_of (get_target ctl_temp) (get_target ctl_delta_uv))

pub ctl_temp-Sound : Sound ctl_temp_server
unfolding light_ctl_temp_handler
ctl_temp-Sound = record {
  settle_good = temp_duv-Good;
  publish_good = light_ctl_temp_publish-Good;
  handler_good = start_timer-Good light_ctl_temp_tt;
}

pub gen_level_get_temp-Good : (model : Model) (ctx : Ctx) → Good (gen_level_get_temp model ctx)
unfolding gen_level_get_temp
gen_level_get_temp-Good =
    send_status-Good (op_2 0x82 0x08) temp_settled (word_of (get_current level_temp))
      (word_of (get_target level_temp))

pub gen_level_publish_temp-Good : (model : Model) → Good (gen_level_publish_temp model)
unfolding gen_level_publish_temp
gen_level_publish_temp-Good =
    publish_status-Good (op_2 0x82 0x08) (word_of (get_current level_temp))
      (word_of (get_target level_temp))

pub level_temp-Sound : Sound level_temp_server
unfolding level_temp_handler
level_temp-Sound = record {
  settle_good = end_temp-Good;
  publish_good = gen_level_publish_temp-Good;
  handler_good = start_timer-Good level_temp_tt;
}

pub move_temp-Sound : Sound move_temp_server
unfolding level_temp_handler
move_temp-Sound = record {
  settle_good = end_temp-Good;
  publish_good = gen_level_publish_temp-Good;
  handler_good = start_timer-Good level_temp_tt;
}
