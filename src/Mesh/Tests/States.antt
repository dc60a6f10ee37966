-- ===== src/Mesh/Tests/States.antt =====
-- The theorems on timing, targets, storage and power up at concrete values.
use zephyr_samples.Base.{◌+◌, ◌%◌, ◌≤◌, ◌<◌, ◌≡◌, refl, arith, inr, false, [], ◌∷◌}
use zephyr_samples.Base.Int.{pos, negsuc, ◌-ℤ◌}
use zephyr_samples.Mesh.State.{App, LightCtl, level_light, settings_save_one, rc, lr, tr}
use zephyr_samples.Mesh.Binding.{set_target, get_target}
use zephyr_samples.Mesh.Binding.Range.{get_target-set_target_level}
use zephyr_samples.Mesh.Light.{retrieve_ranges, light_default_status_init}
use zephyr_samples.Mesh.PowerUp.{power_up_state, resets, power_cycle, multireset_counts}
use zephyr_samples.Mesh.Storage.{lightness_range, temperature_range}
use zephyr_samples.Mesh.Storage.Load.{
  ps_set, key_rc, key_gdtt, key_gpo, key_ld, key_td, key_dd, key_ll, key_llt, key_tlt, key_dlt,
  key_lr, key_tr, set_rc, set_gdtt, set_gpo, set_ld, set_td, set_dd, set_ll, set_llt, set_tlt,
  set_dlt, set_lr, set_tr,
}
use zephyr_samples.Mesh.Storage.Flash.{stored, saved}
use zephyr_samples.Mesh.Storage.Restore.{ps_set_lem, range_survives}
use zephyr_samples.Mesh.Transition.{encode_remaining}
use zephyr_samples.Mesh.Transition.Remaining.{
  duration, resolution_of, encode_remaining_bounds, duration-encode_remaining,
}
use zephyr_samples.Mesh.Transition.Ticks.{ticks, Stopped}
use zephyr_samples.Mesh.Transition.Move.{MovesUp, move_up_completes}
use zephyr_samples.Mesh.Transition.Work.{
  onoff_work_handler, level_lightness_work_handler, level_temp_work_handler,
  light_lightness_actual_work_handler, light_lightness_linear_work_handler, light_ctl_work_handler,
  light_ctl_temp_work_handler,
}
use zephyr_samples.Mesh.Transition.Completes.{
  Reached, light_now, light_goal, temp_now, temp_goal, temp_duv_now, temp_duv_goal, all_now,
  all_goal, transition_completes,
}
use zephyr_samples.Mesh.Tests.Node.{node, moving, ctl, light, reader, reader-Serves}

transition_completes_example :
    Reached light_now light_goal moving (ticks 4 onoff_work_handler moving)
    × Reached light_now light_goal moving (ticks 4 level_lightness_work_handler moving)
    × Reached temp_now temp_goal moving (ticks 4 level_temp_work_handler moving)
    × Reached light_now light_goal moving (ticks 4 light_lightness_actual_work_handler moving)
    × Reached light_now light_goal moving (ticks 4 light_lightness_linear_work_handler moving)
    × Reached all_now all_goal moving (ticks 4 light_ctl_work_handler moving)
    × Reached temp_duv_now temp_duv_goal moving (ticks 4 light_ctl_temp_work_handler moving)
transition_completes_example = transition_completes 2 moving (omega arith) refl refl refl

get_target-set_target_level_example :
    get_target level_light (set_target level_light (negsuc 767) moving) ≡ negsuc 767
unfolding ◌-ℤ◌
get_target-set_target_level_example =
    get_target-set_target_level (negsuc 767) moving (omega arith) (omega arith) (omega arith)
      (omega arith) (inr (omega arith, omega arith))

encode_remaining_bounds_example :
    let b = encode_remaining (pos 12345) in
    (b < 256) × (b % 64 ≤ 62) × (duration b ≤ 12345) × (12345 < duration b + resolution_of b)
encode_remaining_bounds_example = encode_remaining_bounds 12345 (omega arith)

duration-encode_remaining_example :
    duration (encode_remaining (pos (duration 0x45))) ≡ duration 0x45
duration-encode_remaining_example = duration-encode_remaining 0x45 (omega arith) (λ e. omega arith)

-- Nine power cycles of a node whose settings hold a counter of 1.
abbrev booted_once : App
booted_once = record node { calls = settings_save_one rc (pos 1) ∷ [] }

multireset_counts_example :
    let v = ticks 9 (power_cycle reader) booted_once in
    (stored rc v.calls ≡ 0) × (resets v.calls ≡ 2)
multireset_counts_example = multireset_counts reader 9 booted_once reader-Serves (omega arith)

-- A node that was switched off at 100 and restores what it did last.
abbrev switched_off : LightCtl
switched_off = record ctl {
  onpowerup = 2;
  light = record light { target = 100; range = 0xF0000064 };
}

power_up_state_example :
    let r = retrieve_ranges switched_off in
    let v = light_default_status_init switched_off in
    (v.light.current ≡ v.light.target)
    × (v.temp.current ≡ v.temp.target)
    × (v.duv.current ≡ v.duv.target)
    × (v.light.current ≡ r.light.target)
    × (v.temp.current ≡ r.temp.target)
    × (v.duv.current ≡ switched_off.duv.target)
power_up_state_example = power_up_state switched_off (omega arith)

ps_set_lem_example :
    (ps_set (reader 7) key_rc node ≡ (pos 0, set_rc 7 node))
    × (ps_set (reader 7) key_gdtt node ≡ (pos 0, set_gdtt 7 node))
    × (ps_set (reader 7) key_gpo node ≡ (pos 0, set_gpo 7 node))
    × (ps_set (reader 7) key_ld node ≡ (pos 0, set_ld 7 node))
    × (ps_set (reader 7) key_td node ≡ (pos 0, set_td 7 node))
    × (ps_set (reader 7) key_dd node ≡ (pos 0, set_dd 7 node))
    × (ps_set (reader 7) key_ll node ≡ (pos 0, set_llt 7 (set_ll 7 node)))
    × (ps_set (reader 7) key_llt node ≡ (pos 0, set_llt 7 node))
    × (ps_set (reader 7) key_tlt node ≡ (pos 0, set_tlt 7 node))
    × (ps_set (reader 7) key_dlt node ≡ (pos 0, set_dlt 7 node))
    × (ps_set (reader 7) key_lr node ≡ (pos 0, set_lr 7 node))
    × (ps_set (reader 7) key_tr node ≡ (pos 0, set_tr 7 node))
ps_set_lem_example = ps_set_lem (reader 7) 7 node (reader-Serves 7)

-- The ranges of `node`, read back into `moving`.
range_survives_example :
    let light =
      (retrieve_ranges
        (ps_set
          (reader (stored lr (saved lightness_range node).calls))
          key_lr
          moving).1.ctl).light in
    let temp =
      (retrieve_ranges
        (ps_set
          (reader (stored tr (saved temperature_range node).calls))
          key_tr
          moving).1.ctl).temp in
    (light.range_min ≡ 1)
    × (light.range_max ≡ 65535)
    × (temp.range_min ≡ 800)
    × (temp.range_max ≡ 20000)
range_survives_example =
    range_survives (reader (stored lr (saved lightness_range node).calls))
      (reader (stored tr (saved temperature_range node).calls)) node moving
      (omega arith, omega arith) (omega arith) (omega arith, omega arith) (omega arith)
      (reader-Serves (stored lr (saved lightness_range node).calls))
      (reader-Serves (stored tr (saved temperature_range node).calls))

-- A move upwards by 300 a tick.
abbrev rising : App
rising = record moving {
  ctl = record moving.ctl {
    light = record moving.ctl.light { target = 65535; delta = pos 300 };
    transition = record moving.ctl.transition { just_started = false; type = 1 };
  };
}

rising-MovesUp : MovesUp 300 rising.ctl
rising-MovesUp = record {
  is_move = refl;
  runs = refl;
  step = refl;
  lit = omega arith;
  above = omega arith;
  below = omega arith;
  max_fits = omega arith;
  goal = refl;
}

move_up_completes_example :
    let v = ticks 220 level_lightness_work_handler rising in
    (v.ctl.light.current ≡ 65535) × (v.ctl.transition.counter ≡ 0) × Stopped v
move_up_completes_example =
    move_up_completes 219 300 rising (omega arith) (omega arith) rising-MovesUp (omega arith)
