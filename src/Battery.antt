-- ===== src/Battery.antt =====
-- boards/nrf/battery/src: the measurement of the battery, and the level that a discharge curve gives.
pub mod Level
pub mod Order
mod Tests
use zephyr_samples.Base.{
  ℕ, ◌+◌, ◌-◌, ◌*◌, ◌/◌, ◌%◌, Bool, if◌then◌else◌, ltb, leb, ◌==◌, ◌&&◌, List, [], ◌∷◌, Option,
  none, some,
}
use zephyr_samples.Base.Int.{ℤ, pos, negsuc, eqb_ℤ, ◌-ℤ◌}
use zephyr_samples.Base.Words.{to_u32, to_s32}

-- `struct battery_level_point`, both fields of 16 bits.
pub record BatteryLevelPoint : Type 0 where
  pub lvl_pptt : ℕ
  pub lvl_mv : ℕ

abbrev pub Curve : Type 0
Curve = List BatteryLevelPoint

-- The interpolation at the end of `battery_level_pptt`: differences of `int`s, turned into
-- `unsigned int`s by the operand that is one.
unfoldable pub interpolate : ℕ → BatteryLevelPoint → BatteryLevelPoint → ℕ
unfolding ◌-ℤ◌
interpolate batt_mv pa pb =
    let life = to_u32 (pos pa.lvl_pptt -ℤ pos pb.lvl_pptt) in
    let above = to_u32 (pos batt_mv -ℤ pos pb.lvl_mv) in
    let span = to_u32 (pos pa.lvl_mv -ℤ pos pb.lvl_mv) in
    (pb.lvl_pptt + life * above % 4294967296 / span) % 4294967296

-- The `while` loop and what follows it, with `pa` the point in front of `pb`. `none`: the loop runs
-- off the end of the curve.
unfoldable pub go_down : ℕ → BatteryLevelPoint → BatteryLevelPoint → Curve → Option ℕ
unfolding interpolate
go_down batt_mv pa pb [] =
    if ltb 0 pb.lvl_pptt && ltb batt_mv pb.lvl_mv
    then none
    else if ltb batt_mv pb.lvl_mv
    then some pb.lvl_pptt
    else some (interpolate batt_mv pa pb)
go_down batt_mv pa pb (p ∷ curve) =
    let rest = go_down batt_mv pb p curve in
    if ltb 0 pb.lvl_pptt && ltb batt_mv pb.lvl_mv
    then rest
    else if ltb batt_mv pb.lvl_mv
    then some pb.lvl_pptt
    else some (interpolate batt_mv pa pb)

-- `battery_level_pptt`; where the loop starts, `pb` is above the voltage, so that its first round does
-- not look at `pa`.
unfoldable pub battery_level_pptt : ℕ → Curve → Option ℕ
unfolding go_down
battery_level_pptt batt_mv [] = none
battery_level_pptt batt_mv (p ∷ curve) =
    let rest = go_down batt_mv p p curve in if leb p.lvl_mv batt_mv then some p.lvl_pptt else rest

-- The curve of main.c.
abbrev pub lipo : Curve
lipo =
    record { lvl_pptt = 10000; lvl_mv = 3950 }
    ∷ record { lvl_pptt = 625; lvl_mv = 3550 }
    ∷ record { lvl_pptt = 0; lvl_mv = 3100 }
    ∷ []

-- The divider of the devicetree, and what the drivers do: whether a GPIO switches the divider on,
-- what `gpio_pin_set` returns, what `adc_read` returns with the value that it stores, and
-- `adc_raw_to_millivolts` with the reference, gain and resolution that are set up.
pub record Divider : Type 0 where
  pub output_ohm : ℕ
  pub full_ohm : ℕ
  pub gpio : Bool
  pub gpio_pin_set : Bool → ℤ
  pub adc_read : ℤ × ℤ
  pub adc_raw_to_millivolts : ℤ → ℤ

abbrev enoent : ℤ
enoent = negsuc 1

-- `battery_measure_enable`, given `battery_ok`.
unfoldable pub battery_measure_enable : Divider → Bool → Bool → ℤ
battery_measure_enable d battery_ok enable =
    if battery_ok then (if d.gpio then d.gpio_pin_set enable else pos 0) else enoent

-- An `s32_t` that meets a `u64_t`.
abbrev pub to_u64 : ℤ → ℕ
to_u64 (pos n) = n % 18446744073709551616
to_u64 (negsuc n) = 18446744073709551615 - n % 18446744073709551616

-- `battery_sample`, given `battery_ok`.
unfoldable pub battery_sample : Divider → Bool → ℤ
battery_sample d battery_ok =
    let (rc, raw) = d.adc_read in
    let val = d.adc_raw_to_millivolts raw in
    if battery_ok
    then (if eqb_ℤ rc (pos 0)
        then to_s32 (pos (to_u64 val * d.full_ohm % 18446744073709551616 / d.output_ohm))
        else rc)
    else enoent
