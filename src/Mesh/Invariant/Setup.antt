-- ===== src/Mesh/Invariant/Setup.antt =====
-- mesh/device_composition.c: validity for the setup handlers and the vendor model.
use zephyr_samples.Base.{ℕ, ◌<◌, ◌≡◌, refl, List, arith}
use zephyr_samples.Mesh.State.{App, Env, Model, Ctx, Opcode, Field}
use zephyr_samples.Mesh.Storage.{save_on_flash}
use zephyr_samples.Mesh.Light.{update_vnd_led_gpio}
use zephyr_samples.Mesh.Binding.{constrain_lightness, constrain_temperature}
use zephyr_samples.Mesh.Server.Setup.{
  send, publish, gen_def_trans_time_get, gen_def_trans_time_publish, gen_def_trans_time_set,
  gen_def_trans_time_set_unack, gen_onpowerup_get, gen_onpowerup_publish, gen_onpowerup_set,
  gen_onpowerup_set_unack, light_lightness_last_get, light_lightness_default_get,
  light_lightness_default_publish, light_lightness_default_set, light_lightness_default_set_unack,
  light_lightness_range_get, light_lightness_range_publish, light_lightness_range_set,
  light_lightness_range_set_unack,
}
use zephyr_samples.Mesh.Server.CtlSetup.{
  light_ctl_temp_range_get, light_ctl_temp_range_publish, light_ctl_temp_range_set,
  light_ctl_temp_range_set_unack, light_ctl_default_get, light_ctl_default_publish,
  light_ctl_default_set, light_ctl_default_set_unack,
}
use zephyr_samples.Mesh.Server.Vendor.{vnd_get, vnd_set, vnd_set_unack, vnd_duplicate}
use zephyr_samples.Mesh.Invariant.{IsValid, Good}

-- A 16-bit read yields 16 bits.
abbrev pub Words : Env → Type 0
Words e = (b : List ℕ) → (e.pull_le16 b).0 < 65536

-- `f` keeps the invariant and the environment, where 16-bit reads yield 16 bits.
abbrev pub Held : (App → App) → Type 0
Held f = (w : App) → Words w.env → (IsValid w.ctl → IsValid (f w).ctl) × ((f w).env ≡ w.env)

pub Good-Held : (f : App → App) → Good f → Held f
Good-Held f g w words = g w

-- A status leaves the light alone.
send_same :
    (op : Opcode) (fields : List Field) (model : Model) (ctx : Ctx) (w : App)
    → ((send op fields model ctx w).ctl ≡ w.ctl) × ((send op fields model ctx w).env ≡ w.env)
unfolding send
send_same op fields model ctx w = (refl, refl)

pub gen_def_trans_time_get-Good :
    (model : Model) (ctx : Ctx) → Good (gen_def_trans_time_get model ctx)
unfolding gen_def_trans_time_get send
gen_def_trans_time_get-Good model ctx w = (λ h. omega arith, refl)

pub gen_onpowerup_get-Good : (model : Model) (ctx : Ctx) → Good (gen_onpowerup_get model ctx)
unfolding gen_onpowerup_get send
gen_onpowerup_get-Good model ctx w = (λ h. omega arith, refl)

pub light_ctl_default_get-Good :
    (model : Model) (ctx : Ctx) → Good (light_ctl_default_get model ctx)
unfolding light_ctl_default_get send
light_ctl_default_get-Good model ctx w = (λ h. omega arith, refl)

pub light_ctl_temp_range_get-Good :
    (model : Model) (ctx : Ctx) → Good (light_ctl_temp_range_get model ctx)
unfolding light_ctl_temp_range_get send
light_ctl_temp_range_get-Good model ctx w = (λ h. omega arith, refl)

pub light_lightness_default_get-Good :
    (model : Model) (ctx : Ctx) → Good (light_lightness_default_get model ctx)
unfolding light_lightness_default_get send
light_lightness_default_get-Good model ctx w = (λ h. omega arith, refl)

pub light_lightness_last_get-Good :
    (model : Model) (ctx : Ctx) → Good (light_lightness_last_get model ctx)
unfolding light_lightness_last_get send
light_lightness_last_get-Good model ctx w = (λ h. omega arith, refl)

pub light_lightness_range_get-Good :
    (model : Model) (ctx : Ctx) → Good (light_lightness_range_get model ctx)
unfolding light_lightness_range_get send
light_lightness_range_get-Good model ctx w = (λ h. omega arith, refl)

pub vnd_get-Good : (model : Model) (ctx : Ctx) → Good (vnd_get model ctx)
unfolding vnd_get send
vnd_get-Good model ctx w = (λ h. omega arith, refl)

pub gen_def_trans_time_set_unack-Held :
    (model : Model) (ctx : Ctx) (buf : List ℕ) → Held (gen_def_trans_time_set_unack model ctx buf)
unfolding gen_def_trans_time_set_unack gen_def_trans_time_publish publish save_on_flash
gen_def_trans_time_set_unack-Held model ctx buf w words = (λ h. ground arith, ground arith)

pub gen_def_trans_time_set-Held :
    (model : Model) (ctx : Ctx) (buf : List ℕ) → Held (gen_def_trans_time_set model ctx buf)
unfolding gen_def_trans_time_set gen_def_trans_time_get send gen_def_trans_time_publish publish
    save_on_flash
gen_def_trans_time_set-Held model ctx buf w words = (λ h. ground arith, ground arith)

pub gen_onpowerup_set_unack-Held :
    (model : Model) (ctx : Ctx) (buf : List ℕ) → Held (gen_onpowerup_set_unack model ctx buf)
unfolding gen_onpowerup_set_unack gen_onpowerup_publish publish save_on_flash
gen_onpowerup_set_unack-Held model ctx buf w words = (λ h. ground arith, ground arith)

pub gen_onpowerup_set-Held :
    (model : Model) (ctx : Ctx) (buf : List ℕ) → Held (gen_onpowerup_set model ctx buf)
unfolding gen_onpowerup_set gen_onpowerup_get send gen_onpowerup_publish publish save_on_flash
gen_onpowerup_set-Held model ctx buf w words = (λ h. ground arith, ground arith)

pub light_lightness_default_set_unack-Held :
    (model : Model) (ctx : Ctx) (buf : List ℕ)
    → Held (light_lightness_default_set_unack model ctx buf)
unfolding light_lightness_default_set_unack light_lightness_default_publish publish save_on_flash
    constrain_lightness
light_lightness_default_set_unack-Held model ctx buf w words =
    let lt = words buf in (λ h. ground arith, ground arith)

pub light_lightness_default_set-Held :
    (model : Model) (ctx : Ctx) (buf : List ℕ) → Held (light_lightness_default_set model ctx buf)
unfolding light_lightness_default_set light_lightness_default_get send
    light_lightness_default_publish publish save_on_flash constrain_lightness
light_lightness_default_set-Held model ctx buf w words =
    let lt = words buf in (λ h. ground arith, ground arith)

pub light_lightness_range_set_unack-Held :
    (model : Model) (ctx : Ctx) (buf : List ℕ)
    → Held (light_lightness_range_set_unack model ctx buf)
unfolding light_lightness_range_set_unack light_lightness_range_publish publish save_on_flash
light_lightness_range_set_unack-Held model ctx buf w words =
    let lt = words (w.env.pull_le16 buf).1 in (λ h. ground arith, ground arith)

pub light_lightness_range_set-Held :
    (model : Model) (ctx : Ctx) (buf : List ℕ) → Held (light_lightness_range_set model ctx buf)
unfolding light_lightness_range_set light_lightness_range_get send light_lightness_range_publish
    publish save_on_flash
light_lightness_range_set-Held model ctx buf w words =
    let lt = words (w.env.pull_le16 buf).1 in (λ h. ground arith, ground arith)

pub light_ctl_temp_range_set_unack-Held :
    (model : Model) (ctx : Ctx) (buf : List ℕ) → Held (light_ctl_temp_range_set_unack model ctx buf)
unfolding light_ctl_temp_range_set_unack light_ctl_temp_range_publish publish save_on_flash
light_ctl_temp_range_set_unack-Held model ctx buf w words = (λ h. ground arith, ground arith)

pub light_ctl_temp_range_set-Held :
    (model : Model) (ctx : Ctx) (buf : List ℕ) → Held (light_ctl_temp_range_set model ctx buf)
unfolding light_ctl_temp_range_set light_ctl_temp_range_get send light_ctl_temp_range_publish
    publish save_on_flash
light_ctl_temp_range_set-Held model ctx buf w words = (λ h. ground arith, ground arith)

pub light_ctl_default_set_unack-Held :
    (model : Model) (ctx : Ctx) (buf : List ℕ) → Held (light_ctl_default_set_unack model ctx buf)
unfolding light_ctl_default_set_unack light_ctl_default_publish publish save_on_flash
    constrain_lightness constrain_temperature
light_ctl_default_set_unack-Held model ctx buf w words =
    let lt = words buf in (λ h. ground arith, ground arith)

pub light_ctl_default_set-Held :
    (model : Model) (ctx : Ctx) (buf : List ℕ) → Held (light_ctl_default_set model ctx buf)
unfolding light_ctl_default_set light_ctl_default_get send light_ctl_default_publish publish
    save_on_flash constrain_lightness constrain_temperature
light_ctl_default_set-Held model ctx buf w words =
    let lt = words buf in (λ h. ground arith, ground arith)

pub vnd_set_unack-Good :
    (model : Model) (ctx : Ctx) (buf : List ℕ) → Good (vnd_set_unack model ctx buf)
unfolding vnd_set_unack vnd_duplicate update_vnd_led_gpio
vnd_set_unack-Good model ctx buf w = (λ h. ground arith, ground arith)

pub vnd_set-Good : (model : Model) (ctx : Ctx) (buf : List ℕ) → Good (vnd_set model ctx buf)
unfolding vnd_set vnd_get send
vnd_set-Good model ctx buf w = vnd_set_unack-Good model ctx buf w
