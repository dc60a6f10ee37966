-- ===== src/Mesh/Tests/Arrival.antt =====
-- The theorems on Set messages with their ticks, and on power ups, at concrete messages and states.
use zephyr_samples.Base.{ℕ, refl, arith, List, [], ◌∷◌, inl, inr}
use zephyr_samples.Base.Int.{ℤ}
use zephyr_samples.Mesh.State.{LightCtl, StateBinding}
use zephyr_samples.Mesh.Binding.{set_target}
use zephyr_samples.Mesh.Light.{light_default_status_init}
use zephyr_samples.Mesh.Invariant.{IsValid}
use zephyr_samples.Mesh.Invariant.Boot.{light_default_status_init-IsValid}
use zephyr_samples.Mesh.Tests.Node.{moving}
use zephyr_samples.Mesh.Tests.Handlers.{moving-IsValid}

-- 0x2710, transaction 7, five seconds, a delay of 10 ms.
abbrev word_message : List ℕ
word_message = 0x10 ∷ 0x27 ∷ 7 ∷ 0x45 ∷ 2 ∷ []

abbrev asked : StateBinding → ℤ → LightCtl
asked b v = (set_target b v moving).ctl

-- Lightness 0x2710, temperature 0x1000, Delta UV 3.
abbrev ctl_message : List ℕ
ctl_message = 0x10 ∷ 0x27 ∷ 0 ∷ 0x10 ∷ 3 ∷ 0 ∷ 7 ∷ 0x45 ∷ 2 ∷ []

abbrev temp_message : List ℕ
temp_message = 0 ∷ 0x10 ∷ 3 ∷ 0 ∷ 7 ∷ 0x45 ∷ 2 ∷ []

-- The state of `moving`, with the range 100 to 61440 stored.
abbrev restored : LightCtl
restored = record moving.ctl { light = record moving.ctl.light { range = 0xF0000064 } }

restored-IsValid : IsValid restored
restored-IsValid = let h = moving-IsValid in omega arith

light_default_status_init-IsValid_example : IsValid (light_default_status_init restored)
light_default_status_init-IsValid_example =
    light_default_status_init-IsValid restored restored-IsValid
      (inr (omega arith, omega arith, omega arith)) (inl refl)
