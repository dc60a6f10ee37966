-- ===== src/Mesh/Server/Ranges.antt =====
-- mesh/device_composition.c: what a Range Set does in all its cases, for lightness and temperature.
use zephyr_samples.Base.{
  ℕ, suc, ◌+◌, ◌≡◌, Bool, ◌&&◌, ◌||◌, not, leb, ◌==◌, if◌then◌else◌, List, [], ◌∷◌, arith,
}
use zephyr_samples.Mesh.State.{
  App, Model, Ctx, Call, model_send, work_submit, storage_work, temp_min, temp_max,
}
use zephyr_samples.Mesh.Storage.{save_on_flash}
use zephyr_samples.Mesh.Server.Setup.{
  send, publish, light_lightness_range_get, light_lightness_range_publish,
  light_lightness_range_set,
}
use zephyr_samples.Mesh.Server.CtlSetup.{
  light_ctl_temp_range_get, light_ctl_temp_range_publish, light_ctl_temp_range_set,
}

-- How many answers were sent, how many messages published, how often saving was asked for.
abbrev pub sends : List Call → ℕ
sends [] = 0
sends (model_send _ _ _ ∷ cs) = suc (sends cs)
sends (_ ∷ cs) = sends cs

abbrev pub saves : List Call → ℕ
saves [] = 0
saves (work_submit storage_work ∷ cs) = suc (saves cs)
saves (_ ∷ cs) = saves cs

abbrev pub one_if : Bool → ℕ
one_if t = if t then 1 else 0

-- Whether a range of lightness, or of temperature, is one of the model.
abbrev pub light_range_ok : ℕ → ℕ → Bool
light_range_ok min max = leb 1 min && leb min max

abbrev pub temp_range_ok : ℕ → ℕ → Bool
temp_range_ok min max = leb temp_min min && (leb min max && leb max temp_max)

-- A Lightness Range Set stores the two ends if the lower one is at least 1 and not above the upper
-- one, and changes no end otherwise. It is answered in the first case alone: a range that is
-- refused is not answered. Saving is asked for if the range is accepted and differs.
pub light_lightness_range_set_lem :
    (model : Model) (ctx : Ctx) (buf : List ℕ) (w : App)
    → let (min, buf1) = w.env.pull_le16 buf in
      let (max, buf2) = w.env.pull_le16 buf1 in
      let l = w.ctl.light in
      let ok = light_range_ok min max in
      let v = light_lightness_range_set model ctx buf w in
      (v.ctl.light.range_min ≡ (if ok then min else l.range_min))
      × (v.ctl.light.range_max ≡ (if ok then max else l.range_max))
      × (sends v.calls ≡ sends w.calls + one_if ok)
      × (saves v.calls
          ≡ saves w.calls + one_if (ok && (not (l.range_min == min) || not (l.range_max == max))))
unfolding light_lightness_range_set light_lightness_range_get light_lightness_range_publish send
    publish save_on_flash
light_lightness_range_set_lem model ctx buf w =
    (ground arith, ground arith, ground arith, ground arith)

-- A CTL Temperature Range Set stores the two ends if both are temperatures of the model and the lower
-- one is not above the upper one, and changes no end otherwise. It is answered in the first case
-- alone: a range that is refused is not answered. Saving is asked for if the range is accepted and
-- differs.
pub light_ctl_temp_range_set_lem :
    (model : Model) (ctx : Ctx) (buf : List ℕ) (w : App)
    → let (min, buf1) = w.env.pull_le16 buf in
      let (max, buf2) = w.env.pull_le16 buf1 in
      let t = w.ctl.temp in
      let ok = temp_range_ok min max in
      let v = light_ctl_temp_range_set model ctx buf w in
      (v.ctl.temp.range_min ≡ (if ok then min else t.range_min))
      × (v.ctl.temp.range_max ≡ (if ok then max else t.range_max))
      × (sends v.calls ≡ sends w.calls + one_if ok)
      × (saves v.calls
          ≡ saves w.calls + one_if (ok && (not (t.range_min == min) || not (t.range_max == max))))
unfolding light_ctl_temp_range_set light_ctl_temp_range_get light_ctl_temp_range_publish send
    publish save_on_flash
light_ctl_temp_range_set_lem model ctx buf w =
    (ground arith, ground arith, ground arith, ground arith)
