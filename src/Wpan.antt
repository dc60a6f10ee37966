-- ===== src/Wpan.antt =====
-- net/wpan_serial/src/main.c: IEEE 802.15.4 packets carried over a serial line as SLIP frames.
pub mod Framing
pub mod Writing
pub mod Station
mod Tests
use zephyr_samples.Base.{
  ℕ, zero, suc, ◌+◌, Bool, if◌then◌else◌, ltb, ◌==◌, List, [], ◌∷◌, ◌++◌, Option, none, some,
}
use zephyr_samples.Base.Int.{ℤ, pos, pos_part, ltb_ℤ, ◌-ℤ◌}
use zephyr_samples.Base.Words.{to_u16}

abbrev pub slip_end : ℕ
slip_end = 0xC0

abbrev pub slip_esc : ℕ
slip_esc = 0xDB

abbrev pub slip_esc_end : ℕ
slip_esc_end = 0xDC

abbrev pub slip_esc_esc : ℕ
slip_esc_esc = 0xDD

-- `enum slip_state`
pub data SlipState : Type 0 where
  state_garbage state_ok state_esc : SlipState

-- What the receiver takes from Zephyr: whether the n-th packet allocation succeeds, and the room that
-- is left in the last fragment of a packet that holds some bytes.
pub record Pool : Type 0 where
  pub rx_alloc : ℕ → Bool
  pub tailroom : List ℕ → ℕ

-- `slip_state`, `pkt_curr` as its bytes, the allocations so far, and `rx_queue`, oldest first.
pub record Receiver : Type 0 where
  pub slip_state : SlipState
  pub pkt_curr : Option (List ℕ)
  pub allocs : ℕ
  pub rx_queue : List (List ℕ)

-- From `if (!pkt_curr)` on: the byte is added to the packet, which is allocated first if there is none.
unfoldable pub add_byte : Pool → ℕ → Receiver → Receiver
add_byte p c r = elim r.pkt_curr [
  | none ↦
      if p.rx_alloc r.allocs
      then (if p.tailroom [] == 0
          then record r { allocs = suc r.allocs }
          else record r { allocs = suc r.allocs; pkt_curr = some (c ∷ []) })
      else record r { allocs = suc r.allocs }
  | some bytes ↦
      if p.tailroom bytes == 0
      then record r { pkt_curr = none }
      else record r { pkt_curr = some (bytes ++ c ∷ []) }
]

-- The `switch` on the state, with what `slip_process_byte` returns.
unfoldable pub in_state : SlipState → Pool → ℕ → Receiver → ℕ × Receiver
unfolding add_byte
in_state state_garbage p c r = (0, if c == slip_end then record r { slip_state = state_ok } else r)
in_state state_esc p c r =
    if c == slip_esc_end
    then (0, add_byte p slip_end (record r { slip_state = state_ok }))
    else if c == slip_esc_esc
    then (0, add_byte p slip_esc (record r { slip_state = state_ok }))
    else (0, record r { slip_state = state_garbage })
in_state state_ok p c r =
    if c == slip_esc
    then (0, record r { slip_state = state_esc })
    else if c == slip_end
    then (1, r)
    else (0, add_byte p c r)

unfoldable pub slip_process_byte : Pool → ℕ → Receiver → ℕ × Receiver
unfolding in_state
slip_process_byte p c r = in_state r.slip_state p c r

-- The body of the inner loop of `interrupt_handler`: a full packet is queued.
unfoldable pub receive_byte : Pool → ℕ → Receiver → Receiver
unfolding slip_process_byte
receive_byte p c r =
    let (full, r1) = slip_process_byte p c r in
    if full == 0 then r1 else elim r1.pkt_curr [
      | none ↦ r1
      | some bytes ↦ record r1 { pkt_curr = none; rx_queue = r1.rx_queue ++ bytes ∷ [] }
    ]

-- `interrupt_handler`, given the bytes that `uart_fifo_read` hands out.
unfoldable pub interrupt_handler : Pool → List ℕ → Receiver → Receiver
unfolding receive_byte
interrupt_handler p [] r = r
interrupt_handler p (c ∷ bytes) r = interrupt_handler p bytes (receive_byte p c r)

-- What the `switch` in the loop of `slip_buffer` writes for one byte.
unfoldable pub encode_byte : ℕ → List ℕ
encode_byte byte =
    if byte == slip_end
    then slip_esc ∷ slip_esc_end ∷ []
    else if byte == slip_esc
    then slip_esc ∷ slip_esc_esc ∷ []
    else byte ∷ []

-- `slip_buffer`: the bytes that are written to `sbuf`.
unfoldable pub slip_buffer : List ℕ → List ℕ
unfolding encode_byte
slip_buffer [] = slip_end ∷ []
slip_buffer (byte ∷ buf) = encode_byte byte ++ slip_buffer buf

-- `try_write`, given the call that comes next, how far `data` has moved, and `len`; with the return
-- value, how far `data` moved. `fill n moved len` is what the n-th call of `uart_fifo_fill` returns.
-- `none`: the fuel ran out.
unfoldable pub try_write : (ℕ → ℕ → ℕ → ℤ) → ℕ → ℕ → ℕ → ℕ → Option (ℤ × ℕ)
unfolding ◌-ℤ◌
try_write fill zero n moved len = none
try_write fill (suc fuel) n moved len =
    let wrote = fill n moved len in
    let rest = try_write fill fuel (suc n) (moved + pos_part wrote) (to_u16 (pos len -ℤ wrote)) in
    if len == 0
    then some (pos 0, moved)
    else if ltb_ℤ (pos 0) wrote
    then rest
    else some (wrote, moved)
