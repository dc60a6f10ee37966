-- ===== src/Wpan/Station/Requests.antt =====
-- net/wpan_serial/src/main.c: what the host asks for, and what is sent back to it.
use zephyr_samples.Base.{
  ℕ, zero, suc, ◌+◌, ◌≤◌, ◌≡◌, refl, ap, true, List, [], ◌∷◌, ◌++◌, some, length, length-append,
  arith, ◌>>=◌, ◌<◌, leb, take-all, Option, sym,
}
use zephyr_samples.Base.Int.{ℤ, pos}
use zephyr_samples.Base.Words.{to_u8, to_u16}
use zephyr_samples.Wpan.{Pool, slip_buffer, interrupt_handler, Receiver}
use zephyr_samples.Wpan.Framing.{length-slip_buffer, ready, Serves, frame_ready, frame_alone}
use zephyr_samples.Wpan.Writing.{Drains, try_write_total}
use zephyr_samples.Wpan.Station.{
  written, Radio, Station, rx_packet, rx_thread, discard_attributes, tx_packet, tx_thread, drop_fcs,
}
use mathlib.Core.List.{reverse, append_assoc}

-- The two bytes at the end, which stand for the FCS, are not sent to the host.
drop_fcs-append : (xs : List ℕ) (a b : ℕ) → drop_fcs (xs ++ a ∷ b ∷ []) ≡ xs
unfolding drop_fcs
drop_fcs-append [] a b = refl
drop_fcs-append (x ∷ xs) a b = ground (arith, drop_fcs-append xs a b, length-append xs (a ∷ b ∷ []))

-- A line that takes a byte at least each time gets the whole of a frame.
written_whole :
    (fill : ℕ → ℕ → ℕ → ℤ)
    → Drains fill
    → (frame : List ℕ) → length frame < 65536
    → written fill frame ≡ some frame
unfolding written
written_whole fill drains frame short =
    let n = length frame in
    let whole : to_u16 (pos n) ≡ n = ground arith in
    rw (whole, try_write_total fill drains (suc n) 0 0 n (omega arith) short)
      (ap some (take-all (0 + n) frame (omega arith)))

pub sent_frame :
    (fill : ℕ → ℕ → ℕ → ℤ)
    → Drains fill
    → (xs : List ℕ) (a b : ℕ) → length xs ≤ 256
    → tx_packet fill (xs ++ a ∷ b ∷ []) ≡ some (slip_buffer xs)
unfolding tx_packet
sent_frame fill drains xs a b short =
    let two : leb 2 (length (xs ++ a ∷ b ∷ [])) ≡ true =
      ground (arith, length-append xs (a ∷ b ∷ [])) in
    rw (two, drop_fcs-append xs a b)
      (written_whole fill drains (slip_buffer xs) (omega (arith, (length-slip_buffer xs).1, short)))

-- The request for the address: the answer is queued for the host.
pub address_request :
    (e : Radio) (s : Station) (rest : List ℕ)
    → e.tx_alloc s.sends ≡ true
    → rx_packet e (b'?' ∷ b'M' ∷ rest) s
      ≡ some (record s {
        sends = suc s.sends;
        tx_queue =
            s.tx_queue ++ (b'!' ∷ b'M' ∷ reverse s.mac_addr ++ e.lqi ∷ e.fcs.0 ∷ e.fcs.1 ∷ []) ∷ [];
      })
unfolding rx_packet
address_request e s rest alloc = rw alloc refl

-- The bytes of `n` attributes.
pub data Attributes : ℕ → List ℕ → Type 0 where
  no_attribute : Attributes zero []
  attribute :
      (n attr high low : ℕ) (more : List ℕ)
      → Attributes n more
      → Attributes (suc n) (attr ∷ high ∷ low ∷ more)

Attributes-discarded :
    (n : ℕ) (attrs : List ℕ)
    → Attributes n attrs
    → (frame : List ℕ) → discard_attributes n (attrs ++ frame) ≡ some frame
unfolding discard_attributes
Attributes-discarded _ _ no_attribute frame = refl
Attributes-discarded _ _ (attribute n attr high low more as') frame =
    Attributes-discarded n more as' frame

pub data_request :
    (e : Radio) (s : Station) (seq n : ℕ) (attrs : List ℕ)
    → Attributes n attrs
    → (frame : List ℕ) → e.tx_alloc s.sends ≡ true
    → rx_packet e (b'!' ∷ b'S' ∷ seq ∷ n ∷ attrs ++ frame) s
      ≡ some (record s {
        sends = suc s.sends;
        transmitted = s.transmitted ++ frame ∷ [];
        tx_queue =
            s.tx_queue
            ++ (b'!' ∷ b'R' ∷ seq ∷ to_u8 (e.tx frame) ∷ 1 ∷ e.lqi ∷ e.fcs.0 ∷ e.fcs.1 ∷ []) ∷ [];
      })
unfolding rx_packet
data_request e s seq n attrs as' frame alloc =
    rw (Attributes-discarded n attrs as' frame) (rw alloc refl)

pub channel_request :
    (e : Radio) (s : Station) (chan : ℕ) (rest : List ℕ)
    → rx_packet e (b'!' ∷ b'C' ∷ chan ∷ rest) s
      ≡ some (record s { channels = s.channels ++ chan ∷ [] })
unfolding rx_packet
channel_request e s chan rest = refl

-- The line, and the host, which decodes what it is sent by the same rules.
unfoldable pub line : (ℕ → ℕ → ℕ → ℕ → ℤ) → Pool → List (List ℕ) → Receiver → Option Receiver
unfolding tx_thread
line fills host pkts r = do bytes ← tx_thread fills 0 pkts; some (interrupt_handler host bytes r)

one_packet :
    (fills : ℕ → ℕ → ℕ → ℕ → ℤ)
    → ((k : ℕ) → Drains (fills k))
    → (host : Pool) (size : ℕ) → Serves host size
    → (b : ℕ) (bs : List ℕ) (x y k : ℕ) (q : List (List ℕ)) → length (b ∷ bs) ≤ size
    → size ≤ 256
    → line fills host (((b ∷ bs) ++ x ∷ y ∷ []) ∷ []) (ready k q)
      ≡ some (ready (suc k) (q ++ (b ∷ bs) ∷ []))
unfolding line interrupt_handler
one_packet fills drains host size ok b bs x y k q fits small =
    rw (sent_frame (fills 0) (drains 0) (b ∷ bs) x y (omega (arith, fits, small)))
      (ap some (frame_ready host size ok b bs k q fits []))

-- The answer, in `tx_queue` after what waits there.
abbrev answered : Radio → Station → Station
answered e s = record s {
  sends = suc s.sends;
  tx_queue =
      s.tx_queue ++ (b'!' ∷ b'M' ∷ reverse s.mac_addr ++ e.lqi ∷ e.fcs.0 ∷ e.fcs.1 ∷ []) ∷ [];
}

one_request :
    (e : Radio) (s : Station)
    → e.tx_alloc s.sends ≡ true
    → rx_thread e ((b'?' ∷ b'M' ∷ []) ∷ []) s ≡ some (answered e s)
unfolding rx_thread
one_request e s alloc =
    ap (λ (o : Option Station). o >>= (λ s1. rx_thread e [] s1)) (address_request e s [] alloc)

-- When the host sends the frame of "?M" and nothing else waits, what the threads send back is
-- received by the same rules as one packet: "!M", the address of the radio backwards, and the byte
-- of the link quality, without the FCS; if allocations succeed, a packet finds room for its bytes,
-- which are at most 256, and each call of uart_fifo_fill takes a byte at least and no more than it is
-- given.
pub address_exchange :
    (fills : ℕ → ℕ → ℕ → ℕ → ℤ)
    → ((k : ℕ) → Drains (fills k))
    → (p : Pool) (size : ℕ) → Serves p size
    → size ≤ 256
    → (e : Radio) (s : Station) → e.tx_alloc s.sends ≡ true
    → s.tx_queue ≡ []
    → 2 ≤ size
    → length (reverse s.mac_addr) + 3 ≤ size
    → (n k : ℕ) (q : List (List ℕ))
    → (rx_thread e ((interrupt_handler p (slip_buffer (b'?' ∷ b'M' ∷ [])) (ready n [])).rx_queue) s
        >>= (λ s1. line fills p s1.tx_queue (ready k q)))
      ≡ some (ready (suc k) (q ++ (b'!' ∷ b'M' ∷ reverse s.mac_addr ++ e.lqi ∷ []) ∷ []))
address_exchange fills drains p size ok small e s alloc idle fits fits' n k q =
    rw (frame_alone p size ok b'?' (b'M' ∷ []) n [] fits, one_request e s alloc, idle)
      (rw
        (sym
          (append_assoc (b'!' ∷ b'M' ∷ reverse s.mac_addr) (e.lqi ∷ []) (e.fcs.0 ∷ e.fcs.1 ∷ [])))
        (one_packet fills drains p size ok b'!' (b'M' ∷ reverse s.mac_addr ++ e.lqi ∷ []) e.fcs.0
          e.fcs.1 k q (omega (arith, fits', length-append (reverse s.mac_addr) (e.lqi ∷ [])))
          small))
