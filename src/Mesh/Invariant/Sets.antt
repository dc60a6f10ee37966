-- ===== src/Mesh/Invariant/Sets.antt =====
-- mesh/device_composition.c: validity for the message handlers that start transitions.
use zephyr_samples.Base.{ℕ, ◌||◌, List, refl, ltb, Bool-cases, inl, inr}
use zephyr_samples.Base.Int.{ℤ, pos}
use zephyr_samples.Base.Words.{signed16}
use zephyr_samples.Mesh.State.{
  App, Model, Ctx, onoff, level_light, actual, linear, ctl_light, level_temp, ctl_temp,
  ctl_delta_uv, state_on, temp_min, temp_max,
}
use zephyr_samples.Mesh.Binding.{set_target}
use zephyr_samples.Mesh.Status.{
  gen_onoff_get, gen_level_get, light_lightness_get, light_lightness_linear_get, light_ctl_get,
  light_ctl_temp_get, gen_level_get_temp,
}
use zephyr_samples.Mesh.Server.Handlers.{
  no_reply, gen_onoff_set, gen_onoff_set_unack, gen_level_set, gen_level_set_unack,
  light_lightness_set, light_lightness_set_unack, light_lightness_linear_set,
  light_lightness_linear_set_unack, light_ctl_set, light_ctl_set_unack, light_ctl_temp_set,
  light_ctl_temp_set_unack, gen_level_set_temp, gen_level_set_unack_temp,
}
use zephyr_samples.Mesh.Invariant.{Good, Good-compose, set_target-Good}
use zephyr_samples.Mesh.Invariant.Messages.{set_message-Good}
use zephyr_samples.Mesh.Invariant.Handlers.{
  onoff-Sound, level-Sound, lightness-Sound, linear-Sound, ctl-Sound, ctl_temp-Sound,
  level_temp-Sound, gen_onoff_get-Good, gen_level_get-Good, light_lightness_get-Good,
  light_lightness_linear_get-Good, light_ctl_get-Good, light_ctl_temp_get-Good,
  gen_level_get_temp-Good,
}

pub no_reply-Good : Good no_reply
no_reply-Good w = (λ h. h, refl)

pub gen_level_set_unack-Good :
    (model : Model) (ctx : Ctx) (buf : List ℕ) → Good (gen_level_set_unack model ctx buf)
unfolding gen_level_set_unack
gen_level_set_unack-Good model ctx buf w =
    set_message-Good level-Sound no_reply no_reply-Good model
      (set_target level_light (signed16 (w.env.pull_le16 buf).0)) ctx
      (w.env.pull_u8 (w.env.pull_le16 buf).1).0 (w.env.pull_u8 (w.env.pull_le16 buf).1).1
      (set_target-Good level_light (signed16 (w.env.pull_le16 buf).0)) w

pub gen_level_set-Good :
    (model : Model) (ctx : Ctx) (buf : List ℕ) → Good (gen_level_set model ctx buf)
unfolding gen_level_set
gen_level_set-Good model ctx buf w =
    set_message-Good level-Sound (gen_level_get model ctx) (gen_level_get-Good model ctx) model
      (set_target level_light (signed16 (w.env.pull_le16 buf).0)) ctx
      (w.env.pull_u8 (w.env.pull_le16 buf).1).0 (w.env.pull_u8 (w.env.pull_le16 buf).1).1
      (set_target-Good level_light (signed16 (w.env.pull_le16 buf).0)) w

pub light_lightness_set_unack-Good :
    (model : Model) (ctx : Ctx) (buf : List ℕ) → Good (light_lightness_set_unack model ctx buf)
unfolding light_lightness_set_unack
light_lightness_set_unack-Good model ctx buf w =
    set_message-Good lightness-Sound no_reply no_reply-Good model
      (set_target actual (pos (w.env.pull_le16 buf).0)) ctx
      (w.env.pull_u8 (w.env.pull_le16 buf).1).0 (w.env.pull_u8 (w.env.pull_le16 buf).1).1
      (set_target-Good actual (pos (w.env.pull_le16 buf).0)) w

pub light_lightness_set-Good :
    (model : Model) (ctx : Ctx) (buf : List ℕ) → Good (light_lightness_set model ctx buf)
unfolding light_lightness_set
light_lightness_set-Good model ctx buf w =
    set_message-Good lightness-Sound (light_lightness_get model ctx)
      (light_lightness_get-Good model ctx) model (set_target actual (pos (w.env.pull_le16 buf).0))
      ctx (w.env.pull_u8 (w.env.pull_le16 buf).1).0 (w.env.pull_u8 (w.env.pull_le16 buf).1).1
      (set_target-Good actual (pos (w.env.pull_le16 buf).0)) w

pub light_lightness_linear_set_unack-Good :
    (model : Model) (ctx : Ctx) (buf : List ℕ)
    → Good (light_lightness_linear_set_unack model ctx buf)
unfolding light_lightness_linear_set_unack
light_lightness_linear_set_unack-Good model ctx buf w =
    set_message-Good linear-Sound no_reply no_reply-Good model
      (set_target linear (pos (w.env.pull_le16 buf).0)) ctx
      (w.env.pull_u8 (w.env.pull_le16 buf).1).0 (w.env.pull_u8 (w.env.pull_le16 buf).1).1
      (set_target-Good linear (pos (w.env.pull_le16 buf).0)) w

pub light_lightness_linear_set-Good :
    (model : Model) (ctx : Ctx) (buf : List ℕ) → Good (light_lightness_linear_set model ctx buf)
unfolding light_lightness_linear_set
light_lightness_linear_set-Good model ctx buf w =
    set_message-Good linear-Sound (light_lightness_linear_get model ctx)
      (light_lightness_linear_get-Good model ctx) model
      (set_target linear (pos (w.env.pull_le16 buf).0)) ctx
      (w.env.pull_u8 (w.env.pull_le16 buf).1).0 (w.env.pull_u8 (w.env.pull_le16 buf).1).1
      (set_target-Good linear (pos (w.env.pull_le16 buf).0)) w

pub gen_level_set_unack_temp-Good :
    (model : Model) (ctx : Ctx) (buf : List ℕ) → Good (gen_level_set_unack_temp model ctx buf)
unfolding gen_level_set_unack_temp
gen_level_set_unack_temp-Good model ctx buf w =
    set_message-Good level_temp-Sound no_reply no_reply-Good model
      (set_target level_temp (signed16 (w.env.pull_le16 buf).0)) ctx
      (w.env.pull_u8 (w.env.pull_le16 buf).1).0 (w.env.pull_u8 (w.env.pull_le16 buf).1).1
      (set_target-Good level_temp (signed16 (w.env.pull_le16 buf).0)) w

pub gen_level_set_temp-Good :
    (model : Model) (ctx : Ctx) (buf : List ℕ) → Good (gen_level_set_temp model ctx buf)
unfolding gen_level_set_temp
gen_level_set_temp-Good model ctx buf w =
    set_message-Good level_temp-Sound (gen_level_get_temp model ctx)
      (gen_level_get_temp-Good model ctx) model
      (set_target level_temp (signed16 (w.env.pull_le16 buf).0)) ctx
      (w.env.pull_u8 (w.env.pull_le16 buf).1).0 (w.env.pull_u8 (w.env.pull_le16 buf).1).1
      (set_target-Good level_temp (signed16 (w.env.pull_le16 buf).0)) w

pub gen_onoff_set_unack-Good :
    (model : Model) (ctx : Ctx) (buf : List ℕ) → Good (gen_onoff_set_unack model ctx buf)
unfolding gen_onoff_set_unack
gen_onoff_set_unack-Good model ctx buf w =
    let (value, buf1) = w.env.pull_u8 buf in
    let (tid, buf2) = w.env.pull_u8 buf1 in
    elim (Bool-cases (ltb state_on value)) [
      | inl e ↦ rw e (λ h. h, refl)
      | inr e ↦ rw e (
          set_message-Good onoff-Sound no_reply no_reply-Good model (set_target onoff (pos value))
            ctx tid buf2 (set_target-Good onoff (pos value)) w)
    ]

pub gen_onoff_set-Good :
    (model : Model) (ctx : Ctx) (buf : List ℕ) → Good (gen_onoff_set model ctx buf)
unfolding gen_onoff_set
gen_onoff_set-Good model ctx buf w =
    let (value, buf1) = w.env.pull_u8 buf in
    let (tid, buf2) = w.env.pull_u8 buf1 in
    elim (Bool-cases (ltb state_on value)) [
      | inl e ↦ rw e (λ h. h, refl)
      | inr e ↦ rw e (
          set_message-Good onoff-Sound (gen_onoff_get model ctx) (gen_onoff_get-Good model ctx)
            model (set_target onoff (pos value)) ctx tid buf2 (set_target-Good onoff (pos value)) w)
    ]

temp_targets-Good :
    (temp : ℕ) (delta_uv : ℤ)
    → Good (λ v. set_target ctl_delta_uv delta_uv (set_target ctl_temp (pos temp) v))
temp_targets-Good temp delta_uv =
    Good-compose (set_target ctl_temp (pos temp)) (set_target ctl_delta_uv delta_uv)
      (set_target-Good ctl_temp (pos temp)) (set_target-Good ctl_delta_uv delta_uv)

ctl_targets-Good :
    (lightness temp : ℕ) (delta_uv : ℤ)
    → Good (λ v.
      set_target ctl_delta_uv delta_uv
        (set_target ctl_temp (pos temp) (set_target ctl_light (pos lightness) v)))
ctl_targets-Good lightness temp delta_uv =
    Good-compose (set_target ctl_light (pos lightness))
      (λ v. set_target ctl_delta_uv delta_uv (set_target ctl_temp (pos temp) v))
      (set_target-Good ctl_light (pos lightness)) (temp_targets-Good temp delta_uv)

pub light_ctl_set_unack-Good :
    (model : Model) (ctx : Ctx) (buf : List ℕ) → Good (light_ctl_set_unack model ctx buf)
unfolding light_ctl_set_unack
light_ctl_set_unack-Good model ctx buf w =
    let (lightness, buf1) = w.env.pull_le16 buf in
    let (temp, buf2) = w.env.pull_le16 buf1 in
    let (delta_uv, buf3) = w.env.pull_le16 buf2 in
    let (tid, buf4) = w.env.pull_u8 buf3 in
    let targets = λ (v : App).
      set_target ctl_delta_uv (signed16 delta_uv)
        (set_target ctl_temp (pos temp) (set_target ctl_light (pos lightness) v)) in
    elim (Bool-cases (ltb temp temp_min || ltb temp_max temp)) [
      | inl e ↦ rw e (λ h. h, refl)
      | inr e ↦ rw e (
          set_message-Good ctl-Sound no_reply no_reply-Good model targets ctx tid buf4
            (ctl_targets-Good lightness temp (signed16 delta_uv)) w)
    ]

pub light_ctl_set-Good :
    (model : Model) (ctx : Ctx) (buf : List ℕ) → Good (light_ctl_set model ctx buf)
unfolding light_ctl_set
light_ctl_set-Good model ctx buf w =
    let (lightness, buf1) = w.env.pull_le16 buf in
    let (temp, buf2) = w.env.pull_le16 buf1 in
    let (delta_uv, buf3) = w.env.pull_le16 buf2 in
    let (tid, buf4) = w.env.pull_u8 buf3 in
    let targets = λ (v : App).
      set_target ctl_delta_uv (signed16 delta_uv)
        (set_target ctl_temp (pos temp) (set_target ctl_light (pos lightness) v)) in
    elim (Bool-cases (ltb temp temp_min || ltb temp_max temp)) [
      | inl e ↦ rw e (λ h. h, refl)
      | inr e ↦ rw e (
          set_message-Good ctl-Sound (light_ctl_get model ctx) (light_ctl_get-Good model ctx) model
            targets ctx tid buf4 (ctl_targets-Good lightness temp (signed16 delta_uv)) w)
    ]

pub light_ctl_temp_set_unack-Good :
    (model : Model) (ctx : Ctx) (buf : List ℕ) → Good (light_ctl_temp_set_unack model ctx buf)
unfolding light_ctl_temp_set_unack
light_ctl_temp_set_unack-Good model ctx buf w =
    let (temp, buf1) = w.env.pull_le16 buf in
    let (delta_uv, buf2) = w.env.pull_le16 buf1 in
    let (tid, buf3) = w.env.pull_u8 buf2 in
    let targets =
      λ (v : App). set_target ctl_delta_uv (signed16 delta_uv) (set_target ctl_temp (pos temp) v) in
    elim (Bool-cases (ltb temp temp_min || ltb temp_max temp)) [
      | inl e ↦ rw e (λ h. h, refl)
      | inr e ↦ rw e (
          set_message-Good ctl_temp-Sound no_reply no_reply-Good model targets ctx tid buf3
            (temp_targets-Good temp (signed16 delta_uv)) w)
    ]

pub light_ctl_temp_set-Good :
    (model : Model) (ctx : Ctx) (buf : List ℕ) → Good (light_ctl_temp_set model ctx buf)
unfolding light_ctl_temp_set
light_ctl_temp_set-Good model ctx buf w =
    let (temp, buf1) = w.env.pull_le16 buf in
    let (delta_uv, buf2) = w.env.pull_le16 buf1 in
    let (tid, buf3) = w.env.pull_u8 buf2 in
    let targets =
      λ (v : App). set_target ctl_delta_uv (signed16 delta_uv) (set_target ctl_temp (pos temp) v) in
    elim (Bool-cases (ltb temp temp_min || ltb temp_max temp)) [
      | inl e ↦ rw e (λ h. h, refl)
      | inr e ↦ rw e (
          set_message-Good ctl_temp-Sound (light_ctl_temp_get model ctx)
            (light_ctl_temp_get-Good model ctx) model targets ctx tid buf3
            (temp_targets-Good temp (signed16 delta_uv)) w)
    ]
