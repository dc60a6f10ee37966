-- ===== src/Mesh/Tests/Handlers.antt =====
-- The theorems on the message handlers at concrete messages.
use zephyr_samples.Base.{ℕ, ◌≡◌, refl, arith, List, [], ◌∷◌}
use zephyr_samples.Mesh.State.{App, TimerHandler}
use zephyr_samples.Mesh.Transition.Work.{expired}
use zephyr_samples.Mesh.Storage.{storage_work_handler}
use zephyr_samples.Mesh.Server.Setup.{light_lightness_range_set}
use zephyr_samples.Mesh.Server.Tables.{light_lightness_setup_srv_op}
use zephyr_samples.Mesh.Server.CtlSetup.{light_ctl_temp_range_set}
use zephyr_samples.Mesh.Server.Ranges.{
  sends, saves, light_lightness_range_set_lem, light_ctl_temp_range_set_lem,
}
use zephyr_samples.Mesh.Server.Agree.{Agree}
use zephyr_samples.Mesh.Invariant.{IsValid}
use zephyr_samples.Mesh.Invariant.Setup.{Words}
use zephyr_samples.Mesh.Invariant.Reach.{Reach, Step, stay, then_step, receive, tick, store}
use zephyr_samples.Mesh.Invariant.Safe.{reachable-IsValid}
use zephyr_samples.Mesh.Tests.Node.{moving, env, model, ctx}

-- Value 1, transaction 7, transition time 0x45, delay 2; longer values take the first bytes.
abbrev message : List ℕ
message = 1 ∷ 7 ∷ 0x45 ∷ 2 ∷ []

words : Words env
words [] = omega arith
words (a ∷ []) = omega arith
words (a ∷ b ∷ s) = omega arith

pub moving-IsValid : IsValid moving.ctl
moving-IsValid = record {
  light_min = omega arith;
  light_order = omega arith;
  light_max = omega arith;
  temp_low = omega arith;
  temp_order = omega arith;
  temp_high = omega arith;
  light_current = omega arith;
  light_target = omega arith;
  light_def = omega arith;
  light_last = omega arith;
  temp_current = omega arith;
  temp_target = omega arith;
  temp_def = omega arith;
  default_tt = omega arith;
  current_tt = omega arith;
  power_up = omega arith;
  steps = omega arith;
}

-- The range becomes 100 to 500 while the transition runs.
abbrev narrowed : App
narrowed = light_lightness_range_set model ctx (100 ∷ 0 ∷ 0xF4 ∷ 1 ∷ []) moving

narrowed-Step : Step moving narrowed
unfolding light_lightness_setup_srv_op
narrowed-Step =
    receive 6 2 light_lightness_setup_srv_op _ model ctx (100 ∷ 0 ∷ 0xF4 ∷ 1 ∷ []) moving refl refl
      (omega arith)

ticked-Step : Step moving (expired TimerHandler.onoff_tt moving)
ticked-Step = tick TimerHandler.onoff_tt moving refl

saved : Reach moving (storage_work_handler narrowed)
saved =
    then_step moving narrowed _ (then_step moving moving narrowed (stay moving) narrowed-Step)
      (store narrowed)

reachable-IsValid_example :
    IsValid (storage_work_handler narrowed).ctl × ((storage_work_handler narrowed).env ≡ moving.env)
reachable-IsValid_example =
    reachable-IsValid moving (storage_work_handler narrowed) saved words moving-IsValid

light_lightness_range_set_lem_example :
    (narrowed.ctl.light.range_min ≡ 100)
    × (narrowed.ctl.light.range_max ≡ 500)
    × (sends narrowed.calls ≡ 1)
    × (saves narrowed.calls ≡ 1)
light_lightness_range_set_lem_example =
    light_lightness_range_set_lem model ctx (100 ∷ 0 ∷ 0xF4 ∷ 1 ∷ []) moving

-- A range of 5000 to 4000 is refused, and not answered.
light_ctl_temp_range_set_lem_example :
    let v = light_ctl_temp_range_set model ctx (0x88 ∷ 0x13 ∷ 0xA0 ∷ 0x0F ∷ []) moving in
    (v.ctl.temp.range_min ≡ 800)
    × (v.ctl.temp.range_max ≡ 20000)
    × (sends v.calls ≡ 0)
    × (saves v.calls ≡ 0)
light_ctl_temp_range_set_lem_example =
    light_ctl_temp_range_set_lem model ctx (0x88 ∷ 0x13 ∷ 0xA0 ∷ 0x0F ∷ []) moving
