-- ===== src/Wpan/Tests.antt =====
-- net/wpan_serial/src/main.c: packets, frames and requests at concrete bytes.
use zephyr_samples.Base.{
  ℕ, ◌+◌, ◌-◌, ◌*◌, ◌≤◌, ◌<◌, ◌≡◌, refl, true, List, [], ◌∷◌, ◌++◌, some, length, arith, ◌>>=◌,
}
use zephyr_samples.Base.Int.{ℤ, pos}
use zephyr_samples.Wpan.{Pool, interrupt_handler, slip_buffer, slip_end, slip_esc, try_write}
use zephyr_samples.Wpan.Framing.{
  Serves, Fits, fits_nil, fits_cons, ready, within, frames, frames_received, invalid_escape_joins,
  length-slip_buffer,
}
use zephyr_samples.Wpan.Writing.{Drains, try_write_total}
use zephyr_samples.Wpan.Station.{Radio, Station, rx_thread}
use zephyr_samples.Wpan.Station.Requests.{address_exchange, line}
use mathlib.Core.List.{reverse}

-- A pool that never fails, with 256 bytes for a packet.
abbrev pool : Pool
pool = record { rx_alloc = λ n. true; tailroom = λ bytes. 256 - length bytes }

pool-Serves : Serves pool 256
pool-Serves = record { allocates = λ k. refl; room = λ bytes lt. omega (arith, lt) }

-- A packet with both bytes that are escaped, and one more.
abbrev packet : List ℕ
packet = 1 ∷ slip_end ∷ slip_esc ∷ 2 ∷ []

abbrev packets : List (List ℕ)
packets = packet ∷ (7 ∷ []) ∷ []

packets-Fits : Fits 256 packets
packets-Fits = fits_cons 1 _ _ (omega arith) (fits_cons 7 [] [] (omega arith) fits_nil)

encoded : slip_buffer packet ≡ 1 ∷ 0xDB ∷ 0xDC ∷ 0xDB ∷ 0xDD ∷ 2 ∷ 0xC0 ∷ []
unfolding slip_buffer
encoded = refl

decoded :
    (interrupt_handler pool (0xDB ∷ 0xDC ∷ 5 ∷ 0xC0 ∷ 0xC0 ∷ 9 ∷ []) (ready 0 [])).rx_queue
    ≡ (0xC0 ∷ 5 ∷ []) ∷ []
unfolding interrupt_handler
decoded = refl

-- The bytes 1 and 2 in front of the invalid escape come with the frame of 3.
joined :
    (interrupt_handler pool (1 ∷ 2 ∷ 0xDB ∷ 9 ∷ 8 ∷ 0xC0 ∷ 3 ∷ 0xC0 ∷ []) (ready 0 [])).rx_queue
    ≡ (1 ∷ 2 ∷ 3 ∷ []) ∷ []
unfolding interrupt_handler
joined = refl

frames_received_example :
    interrupt_handler pool (frames packets) (ready 0 []) ≡ ready 2 ([] ++ packets)
frames_received_example = frames_received pool 256 pool-Serves packets packets-Fits 0 []

invalid_escape_joins_example :
    interrupt_handler pool
      (slip_esc ∷ 9 ∷ (8 ∷ []) ++ slip_end ∷ slip_buffer (3 ∷ []))
      (within (1 ∷ 2 ∷ []) 1 [])
    ≡ ready 1 ([] ++ ((1 ∷ 2 ∷ []) ++ 3 ∷ []) ∷ [])
invalid_escape_joins_example =
    invalid_escape_joins pool 256 pool-Serves (1 ∷ 2 ∷ []) (8 ∷ []) (3 ∷ []) 9 1 [] refl refl
      (refl, tt) (omega arith)

length-slip_buffer_example :
    (length packet < length (slip_buffer packet))
    × (length (slip_buffer packet) ≤ 1 + 2 * length packet)
length-slip_buffer_example = length-slip_buffer packet

-- A line that takes one byte at a time.
abbrev one_at_a_time : ℕ → ℕ → ℕ → ℤ
one_at_a_time n moved len = pos 1

one_at_a_time-Drains : Drains one_at_a_time
one_at_a_time-Drains = record {
  taken = λ n moved len. 0;
  takes = λ n moved len. refl;
  bounded = λ n moved len. omega arith;
}

try_write_total_example : try_write one_at_a_time 6 0 0 5 ≡ some (pos 0, 0 + 5)
try_write_total_example =
    try_write_total one_at_a_time one_at_a_time-Drains 6 0 0 5 (omega arith) (omega arith)

abbrev radio : Radio
radio = record { tx_alloc = λ n. true; lqi = 200; fcs = (0, 0); tx = λ frame. pos 0 }

abbrev station : Station
station = record {
  mac_addr = 2 ∷ 0x34 ∷ 0x56 ∷ 0x78 ∷ 0 ∷ 0x4b ∷ 0x12 ∷ 0 ∷ [];
  tx_queue = [];
  sends = 0;
  transmitted = [];
  channels = [];
}

address_exchange_example :
    (rx_thread radio
        ((interrupt_handler pool (slip_buffer (b'?' ∷ b'M' ∷ [])) (ready 0 [])).rx_queue)
        station
      >>= (λ s1. line (λ k. one_at_a_time) pool s1.tx_queue (ready 0 [])))
    ≡ some (ready 1 ([] ++ (b'!' ∷ b'M' ∷ reverse station.mac_addr ++ radio.lqi ∷ []) ∷ []))
address_exchange_example =
    address_exchange (λ k. one_at_a_time) (λ k. one_at_a_time-Drains) pool 256 pool-Serves
      (omega arith) radio station refl refl (omega arith) (omega arith) 0 0 []
