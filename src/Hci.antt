-- ===== src/Hci.antt =====
-- bluetooth/hci_uart/src/main.c: HCI packets that arrive over a serial line in the H:4 format.
pub mod Stream
pub mod Rounds
mod Tests
use zephyr_samples.Base.{
  ℕ, zero, suc, ◌+◌, ◌-◌, ◌*◌, Bool, true, false, if◌then◌else◌, ltb, ◌==◌, List, [], ◌∷◌, ◌++◌,
  Option, none, some, length, ◌>>=◌,
}

-- `H4_CMD`, `H4_ACL`, `H4_EVT`
abbrev pub h4_cmd : ℕ
h4_cmd = 1

abbrev pub h4_acl : ℕ
h4_acl = 2

abbrev pub h4_evt : ℕ
h4_evt = 4

-- `H4_DISCARD_LEN`
abbrev pub h4_discard_len : ℕ
h4_discard_len = 33

-- What the buffer pools do: whether the n-th allocation succeeds, and the room behind the header in a
-- buffer for a packet of a type.
pub record Pools : Type 0 where
  pub alloc : ℕ → Bool
  pub tailroom : ℕ → ℕ

-- `buf`, as its type and its bytes, and `remaining` of `bt_uart_isr`, the allocations so far, and
-- `tx_queue`, oldest first.
pub record H4 : Type 0 where
  pub buf : Option (ℕ × List ℕ)
  pub remaining : ℕ
  pub allocs : ℕ
  pub tx_queue : List (ℕ × List ℕ)

-- The buffer of `h4_cmd_recv` or `h4_acl_recv` with its header, and the check of its room.
unfoldable pub open_buffer : Pools → ℕ → List ℕ → ℕ → H4 → H4
open_buffer p type hdr len h =
    if p.alloc h.allocs
    then (if ltb (p.tailroom type) len
        then record h { buf = none; remaining = len; allocs = suc h.allocs }
        else record h { buf = some (type, hdr); remaining = len; allocs = suc h.allocs })
    else record h { buf = none; remaining = len; allocs = suc h.allocs }

-- `h4_cmd_recv`: opcode and length. `none`: it waits for more of the header.
unfoldable pub h4_cmd_recv : Pools → List ℕ → H4 → Option (H4 × List ℕ)
unfolding open_buffer
h4_cmd_recv p (o0 ∷ o1 ∷ param_len ∷ line) h =
    some (open_buffer p h4_cmd (o0 ∷ o1 ∷ param_len ∷ []) param_len h, line)
h4_cmd_recv p _ h = none

-- `h4_acl_recv`: handle and length, each of two bytes.
unfoldable pub h4_acl_recv : Pools → List ℕ → H4 → Option (H4 × List ℕ)
unfolding open_buffer
h4_acl_recv p (h0 ∷ h1 ∷ l0 ∷ l1 ∷ line) h =
    some (open_buffer p h4_acl (h0 ∷ h1 ∷ l0 ∷ l1 ∷ []) (l0 + 256 * l1) h, line)
h4_acl_recv p _ h = none

-- At most `n` bytes off a line, and the rest of it.
unfoldable pub read_up_to : ℕ → List ℕ → List ℕ × List ℕ
read_up_to zero line = ([], line)
read_up_to (suc n) [] = ([], [])
read_up_to (suc n) (b ∷ line) = let (bytes, rest) = read_up_to n line in (b ∷ bytes, rest)

abbrev pub min : ℕ → ℕ → ℕ
min a b = if ltb a b then a else b

-- The part of the loop after the packet's start, where the line has `ready` bytes to read: a packet
-- without buffer is discarded, else its bytes are added, and a full packet is queued.
unfoldable pub receive_rest : ℕ → List ℕ → H4 → H4 × List ℕ
unfolding read_up_to
receive_rest ready line h = elim h.buf [
  | none ↦
      let (bytes, rest) = read_up_to (min ready (min h.remaining h4_discard_len)) line in
      (record h { remaining = h.remaining - length bytes }, rest)
  | some (type, got) ↦
      let (bytes, rest) = read_up_to (min ready h.remaining) line in
      let left = h.remaining - length bytes in
      if left == 0
      then (
        record h { remaining = 0; buf = none; tx_queue = h.tx_queue ++ (type, got ++ bytes) ∷ [] },
        rest,
      )
      else (record h { remaining = left; buf = some (type, got ++ bytes) }, rest)
]

-- One round of the loop of `bt_uart_isr`. `none`: there is nothing to read yet.
unfoldable pub isr_round : Pools → ℕ → List ℕ → H4 → Option (H4 × List ℕ)
unfolding h4_cmd_recv h4_acl_recv receive_rest
isr_round p ready [] h = if h.remaining == 0 then none else some (receive_rest ready [] h)
isr_round p ready (type ∷ line) h =
    let go_on = (λ (x : H4 × List ℕ). some (receive_rest ready x.1 x.0)) in
    if h.remaining == 0
    then (if type == h4_cmd
        then h4_cmd_recv p line h >>= go_on
        else if type == h4_acl
        then h4_acl_recv p line h >>= go_on
        else some (h, line))
    else some (receive_rest ready (type ∷ line) h)

-- `h4_send`: what goes out for a packet of the controller; `none` for a type that is not sent.
pub data BufType : Type 0 where
  bt_buf_acl_in bt_buf_evt other : BufType

unfoldable pub h4_send : BufType → List ℕ → Option (List ℕ)
h4_send bt_buf_acl_in bytes = some (h4_acl ∷ bytes)
h4_send bt_buf_evt bytes = some (h4_evt ∷ bytes)
h4_send other bytes = none
