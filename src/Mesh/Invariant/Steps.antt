-- ===== src/Mesh/Invariant/Steps.antt =====
-- mesh/device_composition.c: validity for the Delta Set and Move Set handlers.
use zephyr_samples.Base.{ℕ, List, refl, arith}
use zephyr_samples.Base.Int.{ℤ, pos}
use zephyr_samples.Base.Words.{signed16, signed32}
use zephyr_samples.Mesh.State.{
  Model, Ctx, level_light, delta_level_light, level_temp, move_light, move_temp, with_light,
  with_temp,
}
use zephyr_samples.Mesh.Binding.{set_target}
use zephyr_samples.Mesh.Status.{gen_level_get, gen_level_get_temp}
use zephyr_samples.Mesh.Server.Handlers.{no_reply}
use zephyr_samples.Mesh.Server.Steps.{
  gen_delta_set, gen_delta_set_unack, gen_move_set, gen_move_set_unack, gen_delta_set_temp,
  gen_delta_set_unack_temp, gen_move_set_temp, gen_move_set_unack_temp, move_goal,
  move_light_targets, move_temp_targets, delta_static, delta_unack_static, delta_temp_static,
  delta_unack_temp_static, light_step, temp_step,
}
use zephyr_samples.Mesh.Invariant.{Good, set_target-Good}
use zephyr_samples.Mesh.Invariant.Messages.{move_message-Good, delta_message-Good}
use zephyr_samples.Mesh.Invariant.Handlers.{
  level-Sound, level_temp-Sound, move-Sound, move_temp-Sound, gen_level_get-Good,
  gen_level_get_temp-Good,
}
use zephyr_samples.Mesh.Invariant.Sets.{no_reply-Good}

move_light_targets-Good : (delta : ℤ) → Good (move_light_targets delta)
unfolding move_light_targets
move_light_targets-Good delta w =
    let goal =
      pos (move_goal delta w.ctl.light.range_min w.ctl.light.range_max w.ctl.light.current) in
    let w1 = with_light w (record w.ctl.light { delta = delta }) in
    let (keeps, same) = set_target-Good move_light goal w1 in (λ h. keeps (omega arith), same)

move_temp_targets-Good : (delta : ℤ) → Good (move_temp_targets delta)
unfolding move_temp_targets
move_temp_targets-Good delta w =
    let goal = pos (move_goal delta w.ctl.temp.range_min w.ctl.temp.range_max w.ctl.temp.current) in
    let w1 = with_temp w (record w.ctl.temp { delta = delta }) in
    let (keeps, same) = set_target-Good move_temp goal w1 in (λ h. keeps (omega arith), same)

pub gen_move_set_unack-Good :
    (model : Model) (ctx : Ctx) (buf : List ℕ) → Good (gen_move_set_unack model ctx buf)
unfolding gen_move_set_unack
gen_move_set_unack-Good model ctx buf w =
    move_message-Good move-Sound no_reply no_reply-Good model
      (move_light_targets (signed16 (w.env.pull_le16 buf).0)) ctx
      (w.env.pull_u8 (w.env.pull_le16 buf).1).0 (w.env.pull_u8 (w.env.pull_le16 buf).1).1
      (move_light_targets-Good (signed16 (w.env.pull_le16 buf).0)) w

pub gen_move_set-Good :
    (model : Model) (ctx : Ctx) (buf : List ℕ) → Good (gen_move_set model ctx buf)
unfolding gen_move_set
gen_move_set-Good model ctx buf w =
    move_message-Good move-Sound (gen_level_get model ctx) (gen_level_get-Good model ctx) model
      (move_light_targets (signed16 (w.env.pull_le16 buf).0)) ctx
      (w.env.pull_u8 (w.env.pull_le16 buf).1).0 (w.env.pull_u8 (w.env.pull_le16 buf).1).1
      (move_light_targets-Good (signed16 (w.env.pull_le16 buf).0)) w

pub gen_move_set_unack_temp-Good :
    (model : Model) (ctx : Ctx) (buf : List ℕ) → Good (gen_move_set_unack_temp model ctx buf)
unfolding gen_move_set_unack_temp
gen_move_set_unack_temp-Good model ctx buf w =
    move_message-Good move_temp-Sound no_reply no_reply-Good model
      (move_temp_targets (signed16 (w.env.pull_le16 buf).0)) ctx
      (w.env.pull_u8 (w.env.pull_le16 buf).1).0 (w.env.pull_u8 (w.env.pull_le16 buf).1).1
      (move_temp_targets-Good (signed16 (w.env.pull_le16 buf).0)) w

pub gen_move_set_temp-Good :
    (model : Model) (ctx : Ctx) (buf : List ℕ) → Good (gen_move_set_temp model ctx buf)
unfolding gen_move_set_temp
gen_move_set_temp-Good model ctx buf w =
    move_message-Good move_temp-Sound (gen_level_get_temp model ctx)
      (gen_level_get_temp-Good model ctx) model
      (move_temp_targets (signed16 (w.env.pull_le16 buf).0)) ctx
      (w.env.pull_u8 (w.env.pull_le16 buf).1).0 (w.env.pull_u8 (w.env.pull_le16 buf).1).1
      (move_temp_targets-Good (signed16 (w.env.pull_le16 buf).0)) w

pub gen_delta_set_unack-Good :
    (model : Model) (ctx : Ctx) (buf : List ℕ) → Good (gen_delta_set_unack model ctx buf)
unfolding gen_delta_set_unack
gen_delta_set_unack-Good model ctx buf w =
    let (delta, buf1) = w.env.pull_le32 buf in
    let (tid, buf2) = w.env.pull_u8 buf1 in
    delta_message-Good level-Sound no_reply no_reply-Good model delta_unack_static level_light
      light_step (set_target delta_level_light) ctx (signed32 delta) tid buf2
      (λ v u. (λ h. h, refl)) (set_target-Good delta_level_light) w

pub gen_delta_set-Good :
    (model : Model) (ctx : Ctx) (buf : List ℕ) → Good (gen_delta_set model ctx buf)
unfolding gen_delta_set
gen_delta_set-Good model ctx buf w =
    let (delta, buf1) = w.env.pull_le32 buf in
    let (tid, buf2) = w.env.pull_u8 buf1 in
    delta_message-Good level-Sound (gen_level_get model ctx) (gen_level_get-Good model ctx) model
      delta_static level_light light_step (set_target delta_level_light) ctx (signed32 delta) tid
      buf2 (λ v u. (λ h. h, refl)) (set_target-Good delta_level_light) w

pub gen_delta_set_unack_temp-Good :
    (model : Model) (ctx : Ctx) (buf : List ℕ) → Good (gen_delta_set_unack_temp model ctx buf)
unfolding gen_delta_set_unack_temp
gen_delta_set_unack_temp-Good model ctx buf w =
    let (delta, buf1) = w.env.pull_le32 buf in
    let (tid, buf2) = w.env.pull_u8 buf1 in
    delta_message-Good level_temp-Sound no_reply no_reply-Good model delta_unack_temp_static
      level_temp temp_step (set_target level_temp) ctx (signed32 delta) tid buf2
      (λ v u. (λ h. h, refl)) (set_target-Good level_temp) w

pub gen_delta_set_temp-Good :
    (model : Model) (ctx : Ctx) (buf : List ℕ) → Good (gen_delta_set_temp model ctx buf)
unfolding gen_delta_set_temp
gen_delta_set_temp-Good model ctx buf w =
    let (delta, buf1) = w.env.pull_le32 buf in
    let (tid, buf2) = w.env.pull_u8 buf1 in
    delta_message-Good level_temp-Sound (gen_level_get_temp model ctx)
      (gen_level_get_temp-Good model ctx) model delta_temp_static level_temp temp_step
      (set_target level_temp) ctx (signed32 delta) tid buf2 (λ v u. (λ h. h, refl))
      (set_target-Good level_temp) w
