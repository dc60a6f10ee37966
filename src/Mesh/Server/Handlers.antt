-- ===== src/Mesh/Server/Handlers.antt =====
-- mesh/device_composition.c: the Set handlers that start transitions. Each pulls its values and the
-- transaction number from the message, and goes on as the shared text does.
use zephyr_samples.Base.{ℕ, ◌||◌, if◌then◌else◌, ltb, not, List}
use zephyr_samples.Base.Int.{ℤ, pos}
use zephyr_samples.Base.Words.{signed16}
use zephyr_samples.Mesh.State.{
  App, Model, Ctx, StateBinding, onoff, level_light, move_light, actual, linear, ctl_light,
  level_temp, move_temp, ctl_temp, ctl_delta_uv, state_on, temp_min, temp_max,
}
use zephyr_samples.Mesh.Binding.{set_target}
use zephyr_samples.Mesh.Transition.Work.{
  end_light, end_temp, end_duv, onoff_handler, level_lightness_handler, level_temp_handler,
  light_lightness_actual_handler, light_lightness_linear_handler, light_ctl_handler,
  light_ctl_temp_handler,
}
use zephyr_samples.Mesh.Status.{
  light_settled, temp_settled, duv_settled, gen_onoff_get, gen_onoff_publish, gen_level_get,
  gen_level_publish, light_lightness_get, light_lightness_publish, light_lightness_linear_get,
  light_lightness_linear_publish, light_ctl_get, light_ctl_publish, light_ctl_temp_get,
  light_ctl_temp_publish, gen_level_get_temp, gen_level_publish_temp,
}
use zephyr_samples.Mesh.Server.{Server, set_message}

-- A Set Unacknowledged is not answered.
abbrev pub no_reply : App → App
no_reply w = w

abbrev pub onoff_server : Server
onoff_server = record {
  binding = onoff;
  differs = λ w. not (light_settled w);
  settle = end_light;
  publish = gen_onoff_publish;
  handler = onoff_handler;
}

abbrev pub level_server : Server
level_server = record {
  binding = level_light;
  differs = λ w. not (light_settled w);
  settle = end_light;
  publish = gen_level_publish;
  handler = level_lightness_handler;
}

abbrev pub move_server : Server
move_server = record level_server { binding = move_light }

abbrev pub lightness_server : Server
lightness_server = record {
  binding = actual;
  differs = λ w. not (light_settled w);
  settle = end_light;
  publish = light_lightness_publish;
  handler = light_lightness_actual_handler;
}

abbrev pub linear_server : Server
linear_server = record {
  binding = linear;
  differs = λ w. not (light_settled w);
  settle = end_light;
  publish = light_lightness_linear_publish;
  handler = light_lightness_linear_handler;
}

abbrev pub ctl_server : Server
ctl_server = record {
  binding = ctl_light;
  differs = λ w. not (light_settled w) || (not (temp_settled w) || not (duv_settled w));
  settle = λ w. end_duv (end_temp (end_light w));
  publish = light_ctl_publish;
  handler = light_ctl_handler;
}

abbrev pub ctl_temp_server : Server
ctl_temp_server = record {
  binding = ctl_temp;
  differs = λ w. not (temp_settled w) || not (duv_settled w);
  settle = λ w. end_duv (end_temp w);
  publish = light_ctl_temp_publish;
  handler = light_ctl_temp_handler;
}

abbrev pub level_temp_server : Server
level_temp_server = record {
  binding = level_temp;
  differs = λ w. not (temp_settled w);
  settle = end_temp;
  publish = gen_level_publish_temp;
  handler = level_temp_handler;
}

abbrev pub move_temp_server : Server
move_temp_server = record level_temp_server { binding = move_temp }

-- Generic OnOff Set. `reply` is the answer; the two handlers differ in it alone.
abbrev onoff_body : (App → App) → Model → Ctx → List ℕ → App → App
onoff_body reply model ctx buf w =
    let (value, buf1) = w.env.pull_u8 buf in
    let (tid, buf2) = w.env.pull_u8 buf1 in
    if ltb state_on value
    then w
    else set_message onoff_server reply (set_target onoff (pos value)) model ctx tid buf2 w

unfoldable pub gen_onoff_set_unack : Model → Ctx → List ℕ → App → App
gen_onoff_set_unack model ctx buf w = onoff_body no_reply model ctx buf w

unfoldable pub gen_onoff_set : Model → Ctx → List ℕ → App → App
gen_onoff_set model ctx buf w = onoff_body (gen_onoff_get model ctx) model ctx buf w

-- A Set with one 16-bit value, signed or not by `read`.
abbrev word_body : Server → (App → App) → StateBinding → (ℕ → ℤ) → Model → Ctx → List ℕ → App → App
word_body s reply binding read model ctx buf w =
    let (value, buf1) = w.env.pull_le16 buf in
    let (tid, buf2) = w.env.pull_u8 buf1 in
    set_message s reply (set_target binding (read value)) model ctx tid buf2 w

unfoldable pub gen_level_set_unack : Model → Ctx → List ℕ → App → App
gen_level_set_unack model ctx buf w =
    word_body level_server no_reply level_light signed16 model ctx buf w

unfoldable pub gen_level_set : Model → Ctx → List ℕ → App → App
gen_level_set model ctx buf w =
    word_body level_server (gen_level_get model ctx) level_light signed16 model ctx buf w

unfoldable pub light_lightness_set_unack : Model → Ctx → List ℕ → App → App
light_lightness_set_unack model ctx buf w =
    word_body lightness_server no_reply actual pos model ctx buf w

unfoldable pub light_lightness_set : Model → Ctx → List ℕ → App → App
light_lightness_set model ctx buf w =
    word_body lightness_server (light_lightness_get model ctx) actual pos model ctx buf w

unfoldable pub light_lightness_linear_set_unack : Model → Ctx → List ℕ → App → App
light_lightness_linear_set_unack model ctx buf w =
    word_body linear_server no_reply linear pos model ctx buf w

unfoldable pub light_lightness_linear_set : Model → Ctx → List ℕ → App → App
light_lightness_linear_set model ctx buf w =
    word_body linear_server (light_lightness_linear_get model ctx) linear pos model ctx buf w

unfoldable pub gen_level_set_unack_temp : Model → Ctx → List ℕ → App → App
gen_level_set_unack_temp model ctx buf w =
    word_body level_temp_server no_reply level_temp signed16 model ctx buf w

unfoldable pub gen_level_set_temp : Model → Ctx → List ℕ → App → App
gen_level_set_temp model ctx buf w =
    word_body level_temp_server (gen_level_get_temp model ctx) level_temp signed16 model ctx buf w

-- Light CTL Set: lightness, temperature and Delta UV.
abbrev ctl_body : (App → App) → Model → Ctx → List ℕ → App → App
ctl_body reply model ctx buf w =
    let (lightness, buf1) = w.env.pull_le16 buf in
    let (temp, buf2) = w.env.pull_le16 buf1 in
    let (delta_uv, buf3) = w.env.pull_le16 buf2 in
    let (tid, buf4) = w.env.pull_u8 buf3 in
    let targets = λ (v : App).
      set_target ctl_delta_uv (signed16 delta_uv)
        (set_target ctl_temp (pos temp) (set_target ctl_light (pos lightness) v)) in
    if ltb temp temp_min || ltb temp_max temp
    then w
    else set_message ctl_server reply targets model ctx tid buf4 w

unfoldable pub light_ctl_set_unack : Model → Ctx → List ℕ → App → App
light_ctl_set_unack model ctx buf w = ctl_body no_reply model ctx buf w

unfoldable pub light_ctl_set : Model → Ctx → List ℕ → App → App
light_ctl_set model ctx buf w = ctl_body (light_ctl_get model ctx) model ctx buf w

-- Light CTL Temperature Set.
abbrev ctl_temp_body : (App → App) → Model → Ctx → List ℕ → App → App
ctl_temp_body reply model ctx buf w =
    let (temp, buf1) = w.env.pull_le16 buf in
    let (delta_uv, buf2) = w.env.pull_le16 buf1 in
    let (tid, buf3) = w.env.pull_u8 buf2 in
    let targets =
      λ (v : App). set_target ctl_delta_uv (signed16 delta_uv) (set_target ctl_temp (pos temp) v) in
    if ltb temp temp_min || ltb temp_max temp
    then w
    else set_message ctl_temp_server reply targets model ctx tid buf3 w

unfoldable pub light_ctl_temp_set_unack : Model → Ctx → List ℕ → App → App
light_ctl_temp_set_unack model ctx buf w = ctl_temp_body no_reply model ctx buf w

unfoldable pub light_ctl_temp_set : Model → Ctx → List ℕ → App → App
light_ctl_temp_set model ctx buf w = ctl_temp_body (light_ctl_temp_get model ctx) model ctx buf w
