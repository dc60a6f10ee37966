-- ===== src/Mesh/PowerUp.antt =====
-- main.c: the state after a power up, and repeated power cycles.
use zephyr_samples.Base.{
  ℕ, zero, suc, ◌+◌, ◌/◌, ◌%◌, ◌≤◌, ◌≡◌, ◌==◌, if◌then◌else◌, List, [], ◌∷◌, arith,
}
use zephyr_samples.Mesh.State.{
  App, LightCtl, Call, mesh_reset, state_off, state_default, state_restore, rc,
}
use zephyr_samples.Mesh.Light.{
  retrieve_ranges, power_up, light_default_var_init, update_light_state, update_led_gpio,
  light_default_status_init, short_time_multireset_bt_mesh_unprovisioning,
}
use zephyr_samples.Mesh.Storage.{save_on_flash, storage_work_handler, save_reset_counter}
use zephyr_samples.Mesh.Storage.Load.{Reader, ps_set, key_rc}
use zephyr_samples.Mesh.Storage.Flash.{stored, run_submitted}
use zephyr_samples.Mesh.Storage.Restore.{Serves, ps_set_lem}
use zephyr_samples.Mesh.Transition.Ticks.{ticks}

-- After `light_default_status_init` nothing is to be changed: each present value is its target.
-- Lightness, temperature and Delta UV are those that the stored power-up behaviour names, taken from
-- the stored values after they were held in the stored ranges: off, the defaults (the last
-- lightness if the default one is 0), or the stored targets.
pub power_up_state :
    (c : LightCtl)
    → c.onpowerup ≤ state_restore
    → let r = retrieve_ranges c in
      let v = light_default_status_init c in
      (v.light.current ≡ v.light.target)
      × (v.temp.current ≡ v.temp.target)
      × (v.duv.current ≡ v.duv.target)
      × (v.light.current ≡ (
          if c.onpowerup == state_off
          then 0
          else if c.onpowerup == state_default
          then (if r.light.def == 0 then r.light.last else r.light.def)
          else r.light.target))
      × (v.temp.current ≡ (if c.onpowerup == state_restore then r.temp.target else r.temp.def))
      × (v.duv.current ≡ (if c.onpowerup == state_restore then c.duv.target else c.duv.def))
unfolding light_default_status_init power_up retrieve_ranges
power_up_state c h = ground arith

-- How often the node was reset.
abbrev pub resets : List Call → ℕ
resets [] = 0
resets (mesh_reset ∷ cs) = suc (resets cs)
resets (_ ∷ cs) = resets cs

-- A power cycle: what the variables held is lost, the settings keep what was stored. `main` then sets
-- the defaults, reads the counter back by `ps_set` (`served v` finds `v`), initialises the light, counts
-- the power up, and the work that this submits runs.
abbrev pub rebooted : (ℕ → Reader) → App → App
rebooted served w =
    let lost = record w { reset_counter = 0; storage_id = 0; ctl = light_default_var_init w.ctl } in
    let (len, w1) = ps_set (served (stored rc w.calls)) key_rc lost in
    update_light_state (record w1 { ctl = light_default_status_init w1.ctl })

unfoldable pub power_cycle : (ℕ → Reader) → App → App
unfolding short_time_multireset_bt_mesh_unprovisioning
power_cycle served w =
    let w1 = short_time_multireset_bt_mesh_unprovisioning (rebooted served w) in
    run_submitted w1.calls w1

light_keeps :
    (w : App)
    → ((update_light_state w).reset_counter ≡ w.reset_counter)
      × (stored rc (update_light_state w).calls ≡ stored rc w.calls)
      × (resets (update_light_state w).calls ≡ resets w.calls)
unfolding update_light_state update_led_gpio
light_keeps w = ground arith

rebooted_counter :
    (served : ℕ → Reader) (w : App)
    → ((v : ℕ) → Serves (served v) v)
    → let v = rebooted served w in
      (v.reset_counter ≡ stored rc w.calls % 256)
      × (stored rc v.calls ≡ stored rc w.calls)
      × (resets v.calls ≡ resets w.calls)
rebooted_counter served w serves =
    let lost = record w { reset_counter = 0; storage_id = 0; ctl = light_default_var_init w.ctl } in
    rw
      ((ps_set_lem (served (stored rc w.calls)) (stored rc w.calls) lost
        (serves (stored rc w.calls))).0)
      (light_keeps _)

counted :
    (w : App)
    → w.reset_counter ≤ 4
    → let w1 = short_time_multireset_bt_mesh_unprovisioning w in
      let v = run_submitted w1.calls w1 in
      (stored rc v.calls ≡ (w.reset_counter + 1) % 5)
      × (resets v.calls ≡ resets w.calls + (w.reset_counter + 1) / 5)
unfolding short_time_multireset_bt_mesh_unprovisioning save_on_flash storage_work_handler
    save_reset_counter
counted w h = ground arith

cycle_once :
    (served : ℕ → Reader) (w : App)
    → ((v : ℕ) → Serves (served v) v)
    → stored rc w.calls ≤ 4
    → let v = power_cycle served w in
      (stored rc v.calls ≡ (stored rc w.calls + 1) % 5)
      × (resets v.calls ≡ resets w.calls + (stored rc w.calls + 1) / 5)
unfolding power_cycle
cycle_once served w serves h =
    let (counter, kept, as_often) = rebooted_counter served w serves in
    let (count, reset) = counted (rebooted served w) (omega (arith, counter, h)) in
    (omega (arith, count, counter, h), omega (arith, reset, as_often, counter, h))

-- From a stored counter of at most 4, `n` power cycles in a row, none of them followed by the timer
-- that clears the counter, reset the node once for every five that the counter reaches, and leave the
-- remainder by five stored; if a reader finds in the settings what was saved last under the key.
pub multireset_counts :
    (served : ℕ → Reader) (n : ℕ) (w : App)
    → ((v : ℕ) → Serves (served v) v)
    → stored rc w.calls ≤ 4
    → let v = ticks n (power_cycle served) w in
      (stored rc v.calls ≡ (stored rc w.calls + n) % 5)
      × (resets v.calls ≡ resets w.calls + (stored rc w.calls + n) / 5)
unfolding ticks
multireset_counts served zero w serves h = omega arith
multireset_counts served (suc n) w serves h =
    let once = cycle_once served w serves h in
    let rest = multireset_counts served n (power_cycle served w) serves (omega arith) in
    (omega arith, omega arith)
