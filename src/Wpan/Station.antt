-- ===== src/Wpan/Station.antt =====
-- net/wpan_serial/src/main.c: the threads between the serial line and the radio.
pub mod Requests
use zephyr_samples.Base.{
  ℕ, zero, suc, ◌+◌, ◌-◌, Bool, if◌then◌else◌, leb, ◌==◌, List, [], ◌∷◌, ◌++◌, Option, none, some,
  length, take, ◌>>=◌,
}
use zephyr_samples.Base.Int.{ℤ, pos}
use zephyr_samples.Base.Words.{to_u8, to_u16}
use zephyr_samples.Wpan.{slip_buffer, try_write}
use mathlib.Core.List.{reverse}

-- What the threads take from Zephyr and from the radio's driver: whether the n-th allocation in
-- `send_data` succeeds, the bytes that `net_pkt_skip` leaves as they are, and what `tx` returns.
pub record Radio : Type 0 where
  pub tx_alloc : ℕ → Bool
  pub lqi : ℕ
  pub fcs : ℕ × ℕ
  pub tx : List ℕ → ℤ

-- `mac_addr`, `tx_queue`, oldest first, the calls of `send_data`, the frames given to `tx`, and the
-- channels given to `set_channel`.
pub record Station : Type 0 where
  pub mac_addr : List ℕ
  pub tx_queue : List (List ℕ)
  pub sends : ℕ
  pub transmitted : List (List ℕ)
  pub channels : List ℕ

-- `send_data`
unfoldable pub send_data : Radio → List ℕ → List ℕ → Station → Station
send_data e cfg bytes s =
    if e.tx_alloc s.sends
    then record s {
      sends = suc s.sends;
      tx_queue = s.tx_queue ++ (cfg ++ bytes ++ e.lqi ∷ e.fcs.0 ∷ e.fcs.1 ∷ []) ∷ [];
    }
    else record s { sends = suc s.sends }

-- `get_ieee_addr`: the address, swapped.
unfoldable pub get_ieee_addr : Radio → Station → Station
unfolding send_data
get_ieee_addr e s = send_data e (b'!' ∷ b'M' ∷ []) (reverse s.mac_addr) s

-- `net_buf_pull_u8`: `none` if the buffer is empty, which the C code does not look at.
unfoldable pub net_buf_pull_u8 : List ℕ → Option (ℕ × List ℕ)
net_buf_pull_u8 [] = none
net_buf_pull_u8 (b ∷ buf) = some (b, buf)

-- `process_request`
unfoldable pub process_request : Radio → List ℕ → Station → Option Station
unfolding net_buf_pull_u8 get_ieee_addr
process_request e buf s = do
  pulled ← net_buf_pull_u8 buf
  some (if pulled.0 == b'M' then get_ieee_addr e s else s)

-- `send_pkt_report`
unfoldable pub send_pkt_report : Radio → ℕ → ℕ → ℕ → Station → Station
unfolding send_data
send_pkt_report e seq status num_tx s =
    send_data e (b'!' ∷ b'R' ∷ []) (seq ∷ status ∷ num_tx ∷ []) s

-- The loop of `process_data`: an attribute is a byte and a value of two.
unfoldable pub discard_attributes : ℕ → List ℕ → Option (List ℕ)
unfolding net_buf_pull_u8
discard_attributes zero buf = some buf
discard_attributes (suc n) buf = do
  attr ← net_buf_pull_u8 buf
  high ← net_buf_pull_u8 attr.1
  low ← net_buf_pull_u8 high.1
  discard_attributes n low.1

-- `process_data`
unfoldable pub process_data : Radio → List ℕ → Station → Option Station
unfolding net_buf_pull_u8 discard_attributes send_pkt_report
process_data e buf s = do
  seq ← net_buf_pull_u8 buf
  num_attr ← net_buf_pull_u8 seq.1
  frame ← discard_attributes num_attr.0 num_attr.1
  some (
      send_pkt_report e seq.0 (to_u8 (e.tx frame)) 1
        (record s { transmitted = s.transmitted ++ frame ∷ [] }))

-- `process_config`
unfoldable pub process_config : Radio → List ℕ → Station → Option Station
unfolding net_buf_pull_u8 process_data
process_config e buf s = do
  cmd ← net_buf_pull_u8 buf
  (if cmd.0 == b'S'
      then process_data e cmd.1 s
      else if cmd.0 == b'C'
      then net_buf_pull_u8 cmd.1
        >>= (λ chan. some (record s { channels = s.channels ++ chan.0 ∷ [] }))
      else some s)

-- The body of the loop of `rx_thread`, on the packet that it takes from `rx_queue`.
unfoldable pub rx_packet : Radio → List ℕ → Station → Option Station
unfolding net_buf_pull_u8 process_request process_config
rx_packet e buf s = do
  specifier ← net_buf_pull_u8 buf
  (if specifier.0 == b'?'
      then process_request e specifier.1 s
      else if specifier.0 == b'!'
      then process_config e specifier.1 s
      else some s)

-- `rx_thread`, on the packets that wait.
unfoldable pub rx_thread : Radio → List (List ℕ) → Station → Option Station
unfolding rx_packet
rx_thread e [] s = some s
rx_thread e (pkt ∷ pkts) s = do s1 ← rx_packet e pkt s; rx_thread e pkts s1

-- The bytes in front of the last two.
unfoldable pub drop_fcs : List ℕ → List ℕ
drop_fcs [] = []
drop_fcs (b ∷ buf) = let rest = drop_fcs buf in if leb 2 (length buf) then b ∷ rest else []

-- The bytes of `frame` that `try_write` has given to the line: the first ones, as far as `data` moved.
-- Each of its rounds but the last takes a byte at least.
unfoldable pub written : (ℕ → ℕ → ℕ → ℤ) → List ℕ → Option (List ℕ)
unfolding try_write
written fill frame =
    try_write fill (suc (length frame)) 0 0 (to_u16 (pos (length frame)))
    >>= (λ wrote. some (take wrote.1 frame))

-- The body of the loop of `tx_thread`: what the line is given of a packet, whose rest is lost if
-- `try_write` returns early. `none` if the packet has no two bytes to remove.
unfoldable pub tx_packet : (ℕ → ℕ → ℕ → ℤ) → List ℕ → Option (List ℕ)
unfolding slip_buffer drop_fcs written
tx_packet fill buf = if leb 2 (length buf) then written fill (slip_buffer (drop_fcs buf)) else none

-- `tx_thread`, on the packets that wait: what the serial line is given. `fills k` is what
-- `uart_fifo_fill` returns while the k-th packet is written.
unfoldable pub tx_thread : (ℕ → ℕ → ℕ → ℕ → ℤ) → ℕ → List (List ℕ) → Option (List ℕ)
unfolding tx_packet
tx_thread fills k [] = some []
tx_thread fills k (pkt ∷ pkts) = do
  bytes ← tx_packet (fills k) pkt
  more ← tx_thread fills (suc k) pkts
  some (bytes ++ more)

-- `net_recv_data`: a frame that the radio has received.
unfoldable pub net_recv_data : List ℕ → Station → Station
net_recv_data pkt s = record s { tx_queue = s.tx_queue ++ pkt ∷ [] }
