-- ===== src/Mesh/Storage/Flash.antt =====
-- storage.c: what the settings hold after the calls of `settings_save_one`.
use zephyr_samples.Base.{ℕ, if◌then◌else◌, ◌==◌, List, [], ◌∷◌}
use zephyr_samples.Base.Int.{pos_part}
use zephyr_samples.Mesh.State.{
  App, Call, settings_save_one, work_submit, storage_work, Key, rc, gdtt, gpo, ld, td, dd, ll, llt,
  tlt, dlt, lr, tr,
}
use zephyr_samples.Mesh.Storage.{save_on_flash, storage_work_handler}

-- The keys are different strings.
abbrev key_number : Key → ℕ
key_number rc = 0
key_number gdtt = 1
key_number gpo = 2
key_number ld = 3
key_number td = 4
key_number dd = 5
key_number ll = 6
key_number llt = 7
key_number tlt = 8
key_number dlt = 9
key_number lr = 10
key_number tr = 11

-- The number that was saved last under a key, by the calls, newest first; 0, with which the variables
-- start, if there was none.
abbrev pub stored : Key → List Call → ℕ
stored key [] = 0
stored key (settings_save_one k value ∷ cs) =
    if key_number k == key_number key then pos_part value else stored key cs
stored key (_ ∷ cs) = stored key cs

-- The work item of storage.c runs if it was the last that was submitted.
abbrev pub run_submitted : List Call → App → App
run_submitted [] w = w
run_submitted (work_submit storage_work ∷ cs) w = storage_work_handler w
run_submitted (_ ∷ cs) w = w

-- `save_on_flash`, and the work item that it submits.
unfoldable pub saved : ℕ → App → App
unfolding save_on_flash storage_work_handler
saved id w = let w1 = save_on_flash id w in run_submitted w1.calls w1
