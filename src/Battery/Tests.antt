-- ===== src/Battery/Tests.antt =====
-- boards/nrf/battery/src: the curve of the sample, and readings.
use zephyr_samples.Base.{ℕ, ◌≤◌, ◌≡◌, refl, true, false, [], ◌∷◌, some, arith}
use zephyr_samples.Base.Int.{pos, negsuc}
use zephyr_samples.Battery.{BatteryLevelPoint, lipo, battery_level_pptt, Divider, battery_sample}
use zephyr_samples.Battery.Level.{Descends, at_zero, down, battery_level_total}
use zephyr_samples.Battery.Order.{battery_level_mono}

abbrev first : BatteryLevelPoint
first = record { lvl_pptt = 10000; lvl_mv = 3950 }

abbrev second : BatteryLevelPoint
second = record { lvl_pptt = 625; lvl_mv = 3550 }

abbrev last : BatteryLevelPoint
last = record { lvl_pptt = 0; lvl_mv = 3100 }

lipo-Descends : Descends first (second ∷ last ∷ [])
lipo-Descends =
    down first second (last ∷ []) (omega arith) (omega arith) (omega arith) (omega arith) (
      down second last [] (omega arith) (omega arith) (omega arith) (omega arith)
        (at_zero last refl))

levels :
    (battery_level_pptt 4100 lipo ≡ some 10000)
    × (battery_level_pptt 3750 lipo ≡ some 5312)
    × (battery_level_pptt 3550 lipo ≡ some 625)
    × (battery_level_pptt 3000 lipo ≡ some 0)
unfolding battery_level_pptt
levels = (refl, refl, refl, refl)

battery_level_total_example :
    (level : ℕ) × (battery_level_pptt 3750 lipo ≡ some level) × (level ≤ first.lvl_pptt)
battery_level_total_example = battery_level_total 3750 first (second ∷ last ∷ []) lipo-Descends

battery_level_mono_example : 625 ≤ 5312
battery_level_mono_example =
    battery_level_mono 3550 3750 first (second ∷ last ∷ []) lipo-Descends (omega arith) 625 5312
      (levels.2) (levels.1)

-- A divider by two, and a reading of -1 mV.
abbrev noisy : Divider
noisy = record {
  output_ohm = 100000;
  full_ohm = 200000;
  gpio = false;
  gpio_pin_set = λ on. pos 0;
  adc_read = (pos 0, negsuc 0);
  adc_raw_to_millivolts = λ raw. raw;
}

negative_reading : battery_sample noisy true ≡ negsuc 1404626106
unfolding battery_sample
negative_reading = refl
