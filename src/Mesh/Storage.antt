-- ===== src/Mesh/Storage.antt =====
-- storage.c: states are saved by a work item that finds in `storage_id` what to save, and are
-- read back by `ps_set`.
pub mod Load
pub mod Flash
pub mod Restore
use zephyr_samples.Base.{ℕ, ◌+◌, ◌*◌, ◌%◌, ◌^◌, bit_or, if◌then◌else◌, ◌==◌}
use zephyr_samples.Base.Int.{ℤ, pos}
use zephyr_samples.Mesh.State.{
  App, Call, work_submit, settings_save_one, storage_work, state_restore, with_light, with_temp,
  emit, Key, rc, gdtt, gpo, ld, td, dd, ll, llt, tlt, dlt, lr, tr,
}

-- `enum ps_variables_id`
abbrev pub reset_counter_id : ℕ
reset_counter_id = 1

abbrev pub gen_def_trans_time_state : ℕ
gen_def_trans_time_state = 2

abbrev pub gen_onpowerup_state : ℕ
gen_onpowerup_state = 3

abbrev pub def_states : ℕ
def_states = 4

abbrev pub lightness_last_state : ℕ
lightness_last_state = 5

abbrev pub last_target_states : ℕ
last_target_states = 6

abbrev pub lightness_range : ℕ
lightness_range = 7

abbrev pub temperature_range : ℕ
temperature_range = 8

unfoldable pub save_on_flash : ℕ → App → App
save_on_flash id w = emit (work_submit storage_work) (record w { storage_id = id })

unfoldable pub save_reset_counter : App → App
save_reset_counter w = emit (settings_save_one rc (pos w.reset_counter)) w

unfoldable pub save_gen_def_trans_time_state : App → App
save_gen_def_trans_time_state w = emit (settings_save_one gdtt (pos w.ctl.tt)) w

unfoldable pub save_gen_onpowerup_state : App → App
unfolding save_on_flash
save_gen_onpowerup_state w =
    let w1 = emit (settings_save_one gpo (pos w.ctl.onpowerup)) w in
    if w1.ctl.onpowerup == 0x02 then save_on_flash last_target_states w1 else w1

unfoldable pub save_def_states : App → App
save_def_states w = emit (settings_save_one dd w.ctl.duv.def) (
    emit (settings_save_one td (pos w.ctl.temp.def))
      (emit (settings_save_one ld (pos w.ctl.light.def)) w))

unfoldable pub save_lightness_last_state : App → App
save_lightness_last_state w = emit (settings_save_one ll (pos w.ctl.light.last)) w

unfoldable pub save_last_target_states : App → App
save_last_target_states w = emit (settings_save_one dlt w.ctl.duv.target) (
    emit (settings_save_one tlt (pos w.ctl.temp.target))
      (emit (settings_save_one llt (pos w.ctl.light.target)) w))

-- `(u32_t) ((max << 16) | min)`
unfoldable pub pack_range : ℕ → ℕ → ℕ
pack_range max min = bit_or (max * 2 ^ 16) min % 2 ^ 32

unfoldable pub save_lightness_range : App → App
unfolding pack_range
save_lightness_range w =
    let w1 =
      with_light w
        (record w.ctl.light { range = pack_range w.ctl.light.range_max w.ctl.light.range_min }) in
    emit (settings_save_one lr (pos w1.ctl.light.range)) w1

unfoldable pub save_temperature_range : App → App
unfolding pack_range
save_temperature_range w =
    let w1 =
      with_temp w
        (record w.ctl.temp { range = pack_range w.ctl.temp.range_max w.ctl.temp.range_min }) in
    emit (settings_save_one tr (pos w1.ctl.temp.range)) w1

unfoldable pub storage_work_handler : App → App
unfolding save_reset_counter save_gen_def_trans_time_state save_gen_onpowerup_state save_def_states
    save_lightness_last_state save_last_target_states save_lightness_range save_temperature_range
storage_work_handler w =
    if w.storage_id == reset_counter_id
    then save_reset_counter w
    else if w.storage_id == gen_def_trans_time_state
    then save_gen_def_trans_time_state w
    else if w.storage_id == gen_onpowerup_state
    then save_gen_onpowerup_state w
    else if w.storage_id == def_states
    then save_def_states w
    else if w.storage_id == lightness_last_state
    then save_lightness_last_state w
    else if w.storage_id == last_target_states
    then save_last_target_states w
    else if w.storage_id == lightness_range
    then save_lightness_range w
    else if w.storage_id == temperature_range
    then save_temperature_range w
    else w
