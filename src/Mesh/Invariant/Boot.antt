-- ===== src/Mesh/Invariant/Boot.antt =====
-- main.c: validity of the state at power up.
use zephyr_samples.Base.{ℕ, ◌/◌, ◌%◌, ◌^◌, ◌≤◌, ◌<◌, ◌≡◌, ◌⊎◌, arith, if◌then◌else◌, ◌==◌, not}
use zephyr_samples.Mesh.State.{LightCtl, Lightness, Temperature, temp_min, temp_max}
use zephyr_samples.Mesh.Binding.{constrain_lightness, constrain_temperature}
use zephyr_samples.Mesh.Light.{retrieve_ranges, power_up, light_default_status_init}
use zephyr_samples.Mesh.Invariant.{IsValid}

-- No range is stored, or one that is in order between `low` and `high`.
abbrev pub IsStored : ℕ → ℕ → ℕ → Type 0
IsStored low high range =
    (range ≡ 0) ⊎ ((low ≤ range % 65536) × (range % 65536 ≤ range / 65536) × (range / 65536 ≤ high))

-- The two records with their ranges retrieved.
abbrev light_ranged : Lightness → Lightness
light_ranged l =
    if not (l.range == 0)
    then record l { range_max = l.range / 2 ^ 16 % 65536; range_min = l.range % 65536 }
    else l

abbrev temp_ranged : Temperature → Temperature
temp_ranged t =
    if not (t.range == 0)
    then record t { range_max = t.range / 2 ^ 16 % 65536; range_min = t.range % 65536 }
    else t

ranged :
    (c : LightCtl)
    → IsValid c
    → IsStored 1 65535 c.light.range
    → IsStored temp_min temp_max c.temp.range
    → IsValid (record c { light = light_ranged c.light; temp = temp_ranged c.temp })
ranged c h p q = ground arith

constrain_lightness-bound :
    (l : Lightness) (x : ℕ)
    → l.range_min ≤ l.range_max
    → l.range_max < 65536
    → x < 65536
    → constrain_lightness l x < 65536
unfolding constrain_lightness
constrain_lightness-bound l x h1 h2 h3 = ground arith

constrain_temperature-bound :
    (t : Temperature) (x : ℕ)
    → t.range_min ≤ t.range_max
    → t.range_max ≤ temp_max
    → x < 65536
    → constrain_temperature t x < 65536
unfolding constrain_temperature
constrain_temperature-bound t x h1 h2 h3 = ground arith

retrieve_ranges-IsValid :
    (c : LightCtl)
    → IsValid c
    → IsStored 1 65535 c.light.range
    → IsStored temp_min temp_max c.temp.range
    → IsValid (retrieve_ranges c)
unfolding retrieve_ranges
retrieve_ranges-IsValid c h p q =
    let r = ranged c h p q in
    let l = light_ranged c.light in
    let t = temp_ranged c.temp in
    let last = constrain_lightness-bound l l.last r.light_order r.light_max r.light_last in
    let def = constrain_lightness-bound l l.def r.light_order r.light_max r.light_def in
    let target = constrain_lightness-bound l l.target r.light_order r.light_max r.light_target in
    let temp_def = constrain_temperature-bound t t.def r.temp_order r.temp_high r.temp_def in
    let temp_target =
      constrain_temperature-bound t t.target r.temp_order r.temp_high r.temp_target in
    omega arith

power_up-IsValid : (c : LightCtl) → IsValid c → IsValid (power_up c)
unfolding power_up
power_up-IsValid c h = ground arith

-- If the values that were initialised or loaded are those of a valid state, and the stored ranges are
-- absent or in order within the bounds of the models, the state after `light_default_status_init` is
-- valid.
pub light_default_status_init-IsValid :
    (c : LightCtl)
    → IsValid c
    → IsStored 1 65535 c.light.range
    → IsStored temp_min temp_max c.temp.range
    → IsValid (light_default_status_init c)
unfolding light_default_status_init
light_default_status_init-IsValid c h p q =
    power_up-IsValid (retrieve_ranges c) (retrieve_ranges-IsValid c h p q)
