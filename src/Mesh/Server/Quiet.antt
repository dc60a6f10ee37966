-- ===== src/Mesh/Server/Quiet.antt =====
-- mesh/device_composition.c: what the answers, publications and timer starts of the nine kinds of Set
-- message do to the state.
use zephyr_samples.Base.{◌&&◌}
use zephyr_samples.Mesh.State.{
  Model, Ctx, op_2, onoff, level_light, actual, linear, ctl_light, level_temp, ctl_temp,
  ctl_delta_uv, onoff_tt, level_lightness_tt, level_temp_tt, light_lightness_actual_tt,
  light_lightness_linear_tt, light_ctl_tt, light_ctl_temp_tt,
}
use zephyr_samples.Mesh.Binding.{get_current, get_target}
use zephyr_samples.Mesh.Transition.Work.{
  onoff_handler, level_lightness_handler, level_temp_handler, light_lightness_actual_handler,
  light_lightness_linear_handler, light_ctl_handler, light_ctl_temp_handler,
}
use zephyr_samples.Mesh.Status.{
  byte_of, word_of, words_of, light_settled, temp_settled, duv_settled, gen_onoff_get,
  gen_onoff_publish, gen_level_get, gen_level_publish, light_lightness_get, light_lightness_publish,
  light_lightness_linear_get, light_lightness_linear_publish, light_ctl_get, light_ctl_publish,
  light_ctl_temp_get, light_ctl_temp_publish, gen_level_get_temp, gen_level_publish_temp,
}
use zephyr_samples.Mesh.Server.Ack.{
  Quiet, send_status-Keeps, publish_status-Keeps, start_timer-Keeps,
}
use zephyr_samples.Mesh.Server.Handlers.{
  onoff_server, level_server, move_server, lightness_server, linear_server, ctl_server,
  ctl_temp_server, level_temp_server, move_temp_server,
}

pub onoff-Quiet : (model : Model) (ctx : Ctx) → Quiet onoff_server (gen_onoff_get model ctx)
unfolding gen_onoff_get gen_onoff_publish onoff_handler
onoff-Quiet model ctx = record {
  publish_keeps =
      publish_status-Keeps (op_2 0x82 0x04) (byte_of (get_current onoff))
        (byte_of (get_target onoff));
  handler_keeps = start_timer-Keeps onoff_tt;
  reply_keeps =
      send_status-Keeps (op_2 0x82 0x04) light_settled (byte_of (get_current onoff))
        (byte_of (get_target onoff)) model ctx;
}

pub level-Quiet : (model : Model) (ctx : Ctx) → Quiet level_server (gen_level_get model ctx)
unfolding gen_level_get gen_level_publish level_lightness_handler
level-Quiet model ctx = record {
  publish_keeps =
      publish_status-Keeps (op_2 0x82 0x08) (word_of (get_current level_light))
        (word_of (get_target level_light));
  handler_keeps = start_timer-Keeps level_lightness_tt;
  reply_keeps =
      send_status-Keeps (op_2 0x82 0x08) light_settled (word_of (get_current level_light))
        (word_of (get_target level_light)) model ctx;
}

pub move-Quiet : (model : Model) (ctx : Ctx) → Quiet move_server (gen_level_get model ctx)
unfolding gen_level_get gen_level_publish level_lightness_handler
move-Quiet model ctx = record {
  publish_keeps =
      publish_status-Keeps (op_2 0x82 0x08) (word_of (get_current level_light))
        (word_of (get_target level_light));
  handler_keeps = start_timer-Keeps level_lightness_tt;
  reply_keeps =
      send_status-Keeps (op_2 0x82 0x08) light_settled (word_of (get_current level_light))
        (word_of (get_target level_light)) model ctx;
}

pub lightness-Quiet :
    (model : Model) (ctx : Ctx) → Quiet lightness_server (light_lightness_get model ctx)
unfolding light_lightness_get light_lightness_publish light_lightness_actual_handler
lightness-Quiet model ctx = record {
  publish_keeps =
      publish_status-Keeps (op_2 0x82 0x4E) (word_of (get_current actual))
        (word_of (get_target actual));
  handler_keeps = start_timer-Keeps light_lightness_actual_tt;
  reply_keeps =
      send_status-Keeps (op_2 0x82 0x4E) light_settled (word_of (get_current actual))
        (word_of (get_target actual)) model ctx;
}

pub linear-Quiet :
    (model : Model) (ctx : Ctx) → Quiet linear_server (light_lightness_linear_get model ctx)
unfolding light_lightness_linear_get light_lightness_linear_publish light_lightness_linear_handler
linear-Quiet model ctx = record {
  publish_keeps =
      publish_status-Keeps (op_2 0x82 0x52) (word_of (get_current linear))
        (word_of (get_target linear));
  handler_keeps = start_timer-Keeps light_lightness_linear_tt;
  reply_keeps =
      send_status-Keeps (op_2 0x82 0x52) light_settled (word_of (get_current linear))
        (word_of (get_target linear)) model ctx;
}

pub ctl-Quiet : (model : Model) (ctx : Ctx) → Quiet ctl_server (light_ctl_get model ctx)
unfolding light_ctl_get light_ctl_publish light_ctl_handler
ctl-Quiet model ctx = record {
  publish_keeps =
      publish_status-Keeps (op_2 0x82 0x60)
        (words_of (get_current ctl_light) (get_current ctl_temp))
        (words_of (get_target ctl_light) (get_target ctl_temp));
  handler_keeps = start_timer-Keeps light_ctl_tt;
  reply_keeps =
      send_status-Keeps (op_2 0x82 0x60) (λ w. light_settled w && temp_settled w)
        (words_of (get_current ctl_light) (get_current ctl_temp))
        (words_of (get_target ctl_light) (get_target ctl_temp)) model ctx;
}

pub ctl_temp-Quiet :
    (model : Model) (ctx : Ctx) → Quiet ctl_temp_server (light_ctl_temp_get model ctx)
unfolding light_ctl_temp_get light_ctl_temp_publish light_ctl_temp_handler
ctl_temp-Quiet model ctx = record {
  publish_keeps =
      publish_status-Keeps (op_2 0x82 0x66)
        (words_of (get_current ctl_temp) (get_current ctl_delta_uv))
        (words_of (get_target ctl_temp) (get_target ctl_delta_uv));
  handler_keeps = start_timer-Keeps light_ctl_temp_tt;
  reply_keeps =
      send_status-Keeps (op_2 0x82 0x66) (λ w. temp_settled w && duv_settled w)
        (words_of (get_current ctl_temp) (get_current ctl_delta_uv))
        (words_of (get_target ctl_temp) (get_target ctl_delta_uv)) model ctx;
}

pub level_temp-Quiet :
    (model : Model) (ctx : Ctx) → Quiet level_temp_server (gen_level_get_temp model ctx)
unfolding gen_level_get_temp gen_level_publish_temp level_temp_handler
level_temp-Quiet model ctx = record {
  publish_keeps =
      publish_status-Keeps (op_2 0x82 0x08) (word_of (get_current level_temp))
        (word_of (get_target level_temp));
  handler_keeps = start_timer-Keeps level_temp_tt;
  reply_keeps =
      send_status-Keeps (op_2 0x82 0x08) temp_settled (word_of (get_current level_temp))
        (word_of (get_target level_temp)) model ctx;
}

pub move_temp-Quiet :
    (model : Model) (ctx : Ctx) → Quiet move_temp_server (gen_level_get_temp model ctx)
unfolding gen_level_get_temp gen_level_publish_temp level_temp_handler
move_temp-Quiet model ctx = record {
  publish_keeps =
      publish_status-Keeps (op_2 0x82 0x08) (word_of (get_current level_temp))
        (word_of (get_target level_temp));
  handler_keeps = start_timer-Keeps level_temp_tt;
  reply_keeps =
      send_status-Keeps (op_2 0x82 0x08) temp_settled (word_of (get_current level_temp))
        (word_of (get_target level_temp)) model ctx;
}
