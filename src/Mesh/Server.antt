-- ===== src/Mesh/Server.antt =====
-- mesh/device_composition.c: what the Set handlers of all servers have in common. Their bodies are
-- copies of one text; the parts of it are defined here once, and each handler is put together from
-- them in the modules below.
pub mod Handlers
pub mod Steps
pub mod Setup
pub mod CtlSetup
pub mod Vendor
pub mod Tables
pub mod Ack
pub mod Quiet
pub mod Agree
pub mod Ranges
use zephyr_samples.Base.{
  ℕ, ◌+◌, ◌%◌, ◌&&◌, Bool, true, if◌then◌else◌, leb, ◌==◌, List, Option, none, some,
}
use zephyr_samples.Base.Int.{ℤ, pos, negsuc, ltb_ℤ, eqb_ℤ, ◌+ℤ◌}
use zephyr_samples.Base.Words.{to_s16, to_s32}
use zephyr_samples.Mesh.State.{
  App, Env, LightCtl, Model, Ctx, StateBinding, with_transition, emit, timer_stop, k_uptime_get,
  non_move,
}
use zephyr_samples.Mesh.Binding.{get_current}
use zephyr_samples.Mesh.Transition.{set_transition_values}

-- A message repeats the last one if transaction, source and destination agree and at most six
-- seconds have passed.
unfoldable pub is_duplicate : Env → ℕ → Ctx → ℕ → LightCtl → Bool
is_duplicate e tid ctx now c =
    c.last_tid == tid
    && (c.last_src_addr == ctx.addr
        && (c.last_dst_addr == ctx.recv_dst && leb now (c.last_msg_timestamp + e.k_seconds 6)))

-- The `switch (buf->len)`: transition time and delay, or `none` where it returns.
unfoldable pub optional_fields : App → List ℕ → Option (ℕ × ℕ)
optional_fields w buf =
    let len = w.env.buf_len buf in
    if len == 0x00
    then some (w.ctl.tt, 0)
    else if len == 0x02
    then (let (tt, buf1) = w.env.pull_u8 buf in
        let (delay, buf2) = w.env.pull_u8 buf1 in
        if tt % 64 == 0x3F then none else some (tt, delay))
    else none

-- The assignments from `counter = 0U` to `type = …`.
unfoldable pub begin_transition : ℕ → Ctx → ℕ → ℕ → ℕ → ℕ → App → App
begin_transition tid ctx now tt delay type w =
    let t = record w.ctl.transition { counter = 0; tt = tt; delay = delay; type = type } in
    emit timer_stop (record w {
      ctl = record w.ctl {
        last_tid = tid;
        last_src_addr = ctx.addr;
        last_dst_addr = ctx.recv_dst;
        last_msg_timestamp = now;
        transition = t;
      };
    })

-- In what the handlers of the servers differ: the binding whose transition is set, the test that a
-- change is wanted, the assignment for an instantaneous change, the status that is published, and
-- the start of the timer.
pub record Server : Type 0 where
  pub binding : StateBinding
  pub differs : App → Bool
  pub settle : App → App
  pub publish : Model → App → App
  pub handler : App → App

abbrev pub start : App → App
start w = with_transition w (record w.ctl.transition { just_started = true })

-- From `if (target != current)` on.
unfoldable pub respond : Server → (App → App) → Model → App → App
respond s reply model w =
    if s.differs w
    then (let w1 = set_transition_values s.binding w in
        let w2 = if w1.ctl.transition.counter == 0 then s.settle w1 else w1 in
        s.handler (s.publish model (reply (start w2))))
    else reply w

-- The same of a move, which is never instantaneous.
unfoldable pub respond_move : Server → (App → App) → Model → App → App
respond_move s reply model w =
    if s.differs w
    then (let w1 = set_transition_values s.binding w in
        if w1.ctl.transition.counter == 0
        then w1
        else s.handler (s.publish model (reply (start w1))))
    else reply w

-- From the reading of the clock on. `reply` answers a Set and does nothing for a Set
-- Unacknowledged; `targets` sets the targets.
unfoldable pub set_message :
    Server → (App → App) → (App → App) → Model → Ctx → ℕ → List ℕ → App → App
set_message s reply targets model ctx tid buf w =
    let (now, w1) = k_uptime_get w in
    if is_duplicate w1.env tid ctx now w1.ctl then reply w1 else elim (optional_fields w1 buf) [
      | none ↦ w1
      | some (tt, delay) ↦
          respond s reply model (targets (begin_transition tid ctx now tt delay non_move w1))
    ]

unfoldable pub move_message :
    Server → (App → App) → (App → App) → Model → Ctx → ℕ → List ℕ → App → App
move_message s reply targets model ctx tid buf w =
    let (now, w1) = k_uptime_get w in
    if is_duplicate w1.env tid ctx now w1.ctl then reply w1 else elim (optional_fields w1 buf) [
      | none ↦ w1
      | some (tt, delay) ↦
          respond_move s reply model
            (targets (begin_transition tid ctx now tt delay zephyr_samples.Mesh.State.move w1))
    ]

-- The function-level `static s16_t last_level` of a Delta Set handler.
pub record Static : Type 0 where
  pub read : App → ℤ
  pub write : ℤ → App → App

unfoldable pub clamp_level : ℤ → ℤ
clamp_level target =
    if ltb_ℤ target (negsuc 32767)
    then negsuc 32767
    else if ltb_ℤ (pos 32767) target
    then pos 32767
    else target

-- From `switch (buf->len)` of a Delta Set on.
unfoldable pub delta_admitted :
    Server → (App → App) → (ℤ → App → App) → Model → Ctx → ℕ → ℕ → ℤ → List ℕ → App → App
delta_admitted s reply set model ctx tid now target buf w = elim (optional_fields w buf) [
  | none ↦ w
  | some (tt, delay) ↦
      respond s reply model
        (set (clamp_level target) (begin_transition tid ctx now tt delay non_move w))
]

-- `level` is the binding whose present value a new Delta Set starts from, and `step` reads the
-- `delta` of the running transition.
unfoldable pub delta_message :
    Server
    → Static
    → StateBinding
    → (App → ℤ)
    → (App → App)
    → (ℤ → App → App)
    → Model
    → Ctx
    → ℤ
    → ℕ
    → List ℕ
    → App
    → App
delta_message s last level step reply set model ctx delta tid buf w =
    let (now, w1) = k_uptime_get w in
    if is_duplicate w1.env tid ctx now w1.ctl
    then (if eqb_ℤ (step w1) delta
        then reply w1
        else delta_admitted s reply set model ctx tid now (to_s32 (last.read w1 +ℤ delta)) buf w1)
    else (let w2 = last.write (to_s16 (get_current level w1)) w1 in
        delta_admitted s reply set model ctx tid now (to_s32 (last.read w2 +ℤ delta)) buf w2)
