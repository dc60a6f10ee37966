-- ===== src/Mesh/State.antt =====
-- The state that the application keeps (mesh/device_composition.h, mesh/transition.h, main.c,
-- storage.c), the values that name its parts, and what the code takes from Zephyr and the compiler.
use zephyr_samples.Base.{ℕ, ◌+◌, Bool, List, ◌∷◌}
use zephyr_samples.Base.Int.{ℤ}

-- `enum state_binding`
pub data StateBinding : Type 0 where
  onoff level_light delta_level_light move_light actual linear ctl_light : StateBinding
  level_temp move_temp ctl_temp ctl_delta_uv : StateBinding

-- The `#define`s of device_composition.h and transition.h.
abbrev pub state_off : ℕ
state_off = 0

abbrev pub state_on : ℕ
state_on = 1

abbrev pub state_default : ℕ
state_default = 1

abbrev pub state_restore : ℕ
state_restore = 2

abbrev pub lightness_min : ℕ
lightness_min = 0x0001

abbrev pub lightness_max : ℕ
lightness_max = 0xFFFF

abbrev pub temp_min : ℕ
temp_min = 0x0320

abbrev pub temp_max : ℕ
temp_max = 0x4E20

abbrev pub range_successfully_updated : ℕ
range_successfully_updated = 0

abbrev pub cannot_set_range_max : ℕ
cannot_set_range_max = 2

abbrev pub unknown_value : ℕ
unknown_value = 0x3F

abbrev pub device_specific_resolution : ℕ
device_specific_resolution = 10

-- `enum transition_types`
abbrev pub move : ℕ
move = 1

abbrev pub non_move : ℕ
non_move = 2

pub record Lightness : Type 0 where
  pub current : ℕ
  pub target : ℕ
  pub def : ℕ
  pub last : ℕ
  pub status_code : ℕ
  pub range_min : ℕ
  pub range_max : ℕ
  pub range : ℕ
  pub delta : ℤ

pub record Temperature : Type 0 where
  pub current : ℕ
  pub target : ℕ
  pub def : ℕ
  pub status_code : ℕ
  pub range_min : ℕ
  pub range_max : ℕ
  pub range : ℕ
  pub delta : ℤ

pub record DeltaUv : Type 0 where
  pub current : ℤ
  pub target : ℤ
  pub def : ℤ
  pub delta : ℤ

-- `struct transition` without its timer, which the kernel owns.
pub record Transition : Type 0 where
  pub just_started : Bool
  pub type : ℕ
  pub tt : ℕ
  pub rt : ℕ
  pub delay : ℕ
  pub quo_tt : ℕ
  pub counter : ℕ
  pub total_duration : ℕ
  pub start_timestamp : ℕ

-- `struct light_ctl_state`; what its pointers lead to is held in place.
pub record LightCtl : Type 0 where
  pub light : Lightness
  pub temp : Temperature
  pub duv : DeltaUv
  pub onpowerup : ℕ
  pub tt : ℕ
  pub last_tid : ℕ
  pub last_src_addr : ℕ
  pub last_dst_addr : ℕ
  pub last_msg_timestamp : ℕ
  pub transition : Transition

-- `struct vendor_state`
pub record VendorState : Type 0 where
  pub current : ℕ
  pub response : ℕ
  pub last_tid : ℕ
  pub last_src_addr : ℕ
  pub last_dst_addr : ℕ
  pub last_msg_timestamp : ℕ

-- A `struct bt_mesh_model` as far as the handlers read it: which it is, and its `pub->addr`.
pub record Model : Type 0 where
  pub id : ℕ
  pub pub_addr : ℕ

-- A `struct bt_mesh_msg_ctx` as far as the handlers read it.
pub record Ctx : Type 0 where
  pub addr : ℕ
  pub recv_dst : ℕ

-- An opcode as the macro call that the source writes for it.
pub data Opcode : Type 0 where
  op_2 : ℕ → ℕ → Opcode
  op_3 : ℕ → ℕ → Opcode

-- A value that a `net_buf_simple_add_*` call puts into a message.
pub data Field : Type 0 where
  u8 le16 le32 : ℕ → Field

pub record Message : Type 0 where
  pub opcode : Opcode
  pub fields : List Field

-- The expiry functions that `k_timer_init` is given.
pub data TimerHandler : Type 0 where
  onoff_tt level_lightness_tt level_temp_tt light_lightness_actual_tt : TimerHandler
  light_lightness_linear_tt light_ctl_tt light_ctl_temp_tt : TimerHandler

-- The items that `k_work_submit` is given outside the timer handlers.
pub data Work : Type 0 where
  no_transition_work storage_work : Work

-- The keys of storage.c that `settings_save_one` is given, after "ps/".
pub data Key : Type 0 where
  rc gdtt gpo ld td dd ll llt tlt dlt lr tr : Key

-- A call of Zephyr that other parts of the system see, with the arguments that matter. The times of
-- `timer_start` are the arguments of its `K_MSEC`s.
pub data Call : Type 0 where
  timer_init : TimerHandler → Call
  timer_start : ℕ → ℕ → Call
  timer_stop : Call
  publish_timer_start : ℕ → Call
  work_submit : Work → Call
  model_send : Model → Ctx → Message → Call
  model_publish : Model → Message → Call
  pin_set : ℕ → ℕ → Call
  settings_save_one : Key → ℤ → Call
  mesh_reset : Call

-- What the code uses and does not define. A buffer is the bytes it holds, and a `float` its 32 bits.
-- `uptime n` is what the n-th call of `k_uptime_get` returns. `f_sqrt` is the value that the loop of
-- `sqrt` in state_binding.c ends with.
pub record Env : Type 0 where
  pub uptime : ℕ → ℕ
  pub k_seconds : ℕ → ℕ
  pub addr_unassigned : ℕ
  pub is_provisioned : Bool
  pub root_models : ℕ → Model
  pub s0_models : ℕ → Model
  pub pull_u8 : List ℕ → ℕ × List ℕ
  pub pull_le16 : List ℕ → ℕ × List ℕ
  pub pull_le32 : List ℕ → ℕ × List ℕ
  pub buf_len : List ℕ → ℕ
  pub f_of_int : ℤ → ℕ
  pub f_to_int : ℕ → ℤ
  pub f_div : ℕ → ℕ → ℕ
  pub f_mul : ℕ → ℕ → ℕ
  pub f_add : ℕ → ℕ → ℕ
  pub f_eq : ℕ → ℕ → Bool
  pub f_sqrt : ℕ → ℕ

-- The whole program: `*ctl`, the file-level and function-level statics, the number of readings of
-- the clock so far, and the calls made so far, newest first.
pub record App : Type 0 where
  pub env : Env
  pub ctl : LightCtl
  pub vnd : VendorState
  pub reset : Bool
  pub storage_id : ℕ
  pub reset_counter : ℕ
  pub delta_unack_last_level : ℤ
  pub delta_last_level : ℤ
  pub delta_unack_temp_last_level : ℤ
  pub delta_temp_last_level : ℤ
  pub readings : ℕ
  pub calls : List Call

-- `ctl->light->current = …` and the like.
abbrev pub with_light : App → Lightness → App
with_light w l = record w { ctl = record w.ctl { light = l } }

abbrev pub with_temp : App → Temperature → App
with_temp w t = record w { ctl = record w.ctl { temp = t } }

abbrev pub with_duv : App → DeltaUv → App
with_duv w d = record w { ctl = record w.ctl { duv = d } }

abbrev pub with_transition : App → Transition → App
with_transition w t = record w { ctl = record w.ctl { transition = t } }

abbrev pub emit : Call → App → App
emit c w = record w { calls = c ∷ w.calls }

-- `k_uptime_get()`
abbrev pub k_uptime_get : App → ℕ × App
k_uptime_get w = (w.env.uptime w.readings, record w { readings = w.readings + 1 })
