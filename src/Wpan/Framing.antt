-- ===== src/Wpan/Framing.antt =====
-- net/wpan_serial/src/main.c: what the receiver makes of the frames that `slip_buffer` writes.
use zephyr_samples.Base.{
  ℕ, suc, ◌+◌, ◌*◌, ◌≤◌, ◌<◌, ◌≡◌, refl, sym, ap, ◌∙◌, true, false, ◌==◌, List, [], ◌∷◌, ◌++◌,
  Option, none, some, length, arith, length-append,
}
use zephyr_samples.Wpan.{
  Pool, Receiver, state_garbage, state_ok, slip_end, slip_esc, slip_esc_end, slip_esc_esc,
  interrupt_handler, receive_byte, encode_byte, slip_buffer,
}
use mathlib.Core.List.{append_assoc, append-nil}
use native.Mathlib.Nat.{add-zero}

-- No byte of the list is `v`.
abbrev pub Lacks : ℕ → List ℕ → Type 0
Lacks v [] = Unit
Lacks v (x ∷ xs) = (x == v) ≡ false × Lacks v xs

-- The documented behaviour of the pool: an allocation succeeds, and a packet has room for `n` bytes.
pub record Serves (p : Pool) (n : ℕ) : Type 0 where
  pub allocates : (k : ℕ) → p.rx_alloc k ≡ true
  pub room : (bytes : List ℕ) → length bytes < n → 0 < p.tailroom bytes

-- Between two frames, and within one.
abbrev pub ready : ℕ → List (List ℕ) → Receiver
ready n q = record { slip_state = state_ok; pkt_curr = none; allocs = n; rx_queue = q }

abbrev pub within : List ℕ → ℕ → List (List ℕ) → Receiver
within acc n q = record { slip_state = state_ok; pkt_curr = some acc; allocs = n; rx_queue = q }

-- The two bytes of an escape, or the one byte, are received as the byte that they stand for.
encoded_within :
    (p : Pool) (b : ℕ) (rest acc : List ℕ) (n : ℕ) (q : List (List ℕ))
    → 0 < p.tailroom acc
    → interrupt_handler p (encode_byte b ++ rest) (within acc n q)
      ≡ interrupt_handler p rest (within (acc ++ b ∷ []) n q)
unfolding interrupt_handler encode_byte
encoded_within p b rest acc n q room = ground arith

encoded_first :
    (p : Pool) (b : ℕ) (rest : List ℕ) (n : ℕ) (q : List (List ℕ))
    → 0 < p.tailroom []
    → p.rx_alloc n ≡ true
    → interrupt_handler p (encode_byte b ++ rest) (ready n q)
      ≡ interrupt_handler p rest (within (b ∷ []) (suc n) q)
unfolding interrupt_handler encode_byte
encoded_first p b rest n q room alloc = ground arith

handler-append :
    (p : Pool) (xs ys : List ℕ) (r : Receiver)
    → interrupt_handler p (xs ++ ys) r ≡ interrupt_handler p ys (interrupt_handler p xs r)
unfolding interrupt_handler
handler-append p [] ys r = refl
handler-append p (x ∷ xs) ys r = handler-append p xs ys (receive_byte p x r)

end_within :
    (p : Pool) (rest acc : List ℕ) (n : ℕ) (q : List (List ℕ))
    → interrupt_handler p (slip_end ∷ rest) (within acc n q)
      ≡ interrupt_handler p rest (ready n (q ++ acc ∷ []))
unfolding interrupt_handler
end_within p rest acc n q = refl

-- The rest of a frame completes the packet that has been received in part.
pub frame_within :
    (p : Pool) (size : ℕ)
    → Serves p size
    → (bs acc : List ℕ) (n : ℕ) (q : List (List ℕ)) → length acc + length bs ≤ size
    → (rest : List ℕ)
    → interrupt_handler p (slip_buffer bs ++ rest) (within acc n q)
      ≡ interrupt_handler p rest (ready n (q ++ (acc ++ bs) ∷ []))
unfolding slip_buffer
frame_within p size ok [] acc n q fits rest = rw append-nil (end_within p rest acc n q)
frame_within p size ok (b ∷ bs) acc n q fits rest =
    rw (append_assoc (encode_byte b) (slip_buffer bs) rest) (
      (encoded_within p b (slip_buffer bs ++ rest) acc n q (ok.room acc (omega arith)))
      ∙ (frame_within p size ok bs (acc ++ b ∷ []) n q
            (omega (arith, fits, length-append acc (b ∷ []))) rest
          ∙ (simp (append_assoc))))

pub frame_ready :
    (p : Pool) (size : ℕ)
    → Serves p size
    → (b : ℕ) (bs : List ℕ) (n : ℕ) (q : List (List ℕ)) → length (b ∷ bs) ≤ size
    → (rest : List ℕ)
    → interrupt_handler p (slip_buffer (b ∷ bs) ++ rest) (ready n q)
      ≡ interrupt_handler p rest (ready (suc n) (q ++ (b ∷ bs) ∷ []))
unfolding slip_buffer
frame_ready p size ok b bs n q fits rest = rw (append_assoc (encode_byte b) (slip_buffer bs) rest) (
    encoded_first p b (slip_buffer bs ++ rest) n q (ok.room [] (omega (arith, fits)))
      (ok.allocates n)
    ∙ frame_within p size ok bs (b ∷ []) (suc n) q (omega (arith, fits)) rest)

pub frame_alone :
    (p : Pool) (size : ℕ)
    → Serves p size
    → (b : ℕ) (bs : List ℕ) (n : ℕ) (q : List (List ℕ)) → length (b ∷ bs) ≤ size
    → interrupt_handler p (slip_buffer (b ∷ bs)) (ready n q) ≡ ready (suc n) (q ++ (b ∷ bs) ∷ [])
unfolding interrupt_handler
frame_alone p size ok b bs n q fits =
    ap (λ (xs : List ℕ). interrupt_handler p xs (ready n q))
      (sym (append-nil (slip_buffer (b ∷ bs))))
    ∙ frame_ready p size ok b bs n q fits []

-- The frames of a sequence of packets, one after the other.
abbrev pub frames : List (List ℕ) → List ℕ
frames [] = []
frames (packet ∷ packets) = slip_buffer packet ++ frames packets

-- Each packet has a byte at least, and `size` at most.
pub data Fits (size : ℕ) : List (List ℕ) → Type 0 where
  fits_nil : Fits size []
  fits_cons :
      (b : ℕ) (bs : List ℕ) (packets : List (List ℕ))
      → length (b ∷ bs) ≤ size
      → Fits size packets
      → Fits size ((b ∷ bs) ∷ packets)

received_eq :
    (n : ℕ) (packet : List ℕ) (packets q : List (List ℕ))
    → ready (suc n + length packets) ((q ++ packet ∷ []) ++ packets)
      ≡ ready (n + length (packet ∷ packets)) (q ++ packet ∷ packets)
received_eq n packet packets q =
    rw append_assoc (ap (λ (k : ℕ). ready k (q ++ packet ∷ packets)) (omega arith))

-- From between two frames, the receiver takes the frames of any sequence of packets, one after the
-- other, for exactly those packets in their order, if no packet is empty, allocations succeed and
-- a packet finds room for its bytes.
pub frames_received :
    (p : Pool) (size : ℕ)
    → Serves p size
    → (packets : List (List ℕ)) → Fits size packets
    → (n : ℕ) (q : List (List ℕ))
    → interrupt_handler p (frames packets) (ready n q) ≡ ready (n + length packets) (q ++ packets)
unfolding interrupt_handler
frames_received p size ok _ fits_nil n q = simp (append-nil, add-zero)
frames_received p size ok _ (fits_cons b bs packets fits more) n q =
    frame_ready p size ok b bs n q fits (frames packets)
    ∙ (frames_received p size ok packets more (suc n) (q ++ (b ∷ bs) ∷ [])
        ∙ received_eq n (b ∷ bs) packets q)

abbrev garbage : Option (List ℕ) → ℕ → List (List ℕ) → Receiver
garbage pkt n q = record { slip_state = state_garbage; pkt_curr = pkt; allocs = n; rx_queue = q }

skip_byte :
    (p : Pool) (c : ℕ) (pkt : Option (List ℕ)) (n : ℕ) (q : List (List ℕ))
    → (c == slip_end) ≡ false
    → receive_byte p c (garbage pkt n q) ≡ garbage pkt n q
unfolding receive_byte
skip_byte p c pkt n q h = ground arith

bad_escape :
    (p : Pool) (c : ℕ) (acc : List ℕ) (n : ℕ) (q : List (List ℕ))
    → (c == slip_esc_end) ≡ false
    → (c == slip_esc_esc) ≡ false
    → receive_byte p c (receive_byte p slip_esc (within acc n q)) ≡ garbage (some acc) n q
unfolding receive_byte
bad_escape p c acc n q no_end no_esc = ground arith

-- Bytes are discarded up to the next END; the packet that had begun is kept.
pub garbage_skips :
    (p : Pool) (junk : List ℕ) (pkt : Option (List ℕ)) (n : ℕ) (q : List (List ℕ))
    → Lacks slip_end junk
    → (rest : List ℕ)
    → interrupt_handler p (junk ++ slip_end ∷ rest) (garbage pkt n q)
      ≡ interrupt_handler p rest
          (record { slip_state = state_ok; pkt_curr = pkt; allocs = n; rx_queue = q })
unfolding interrupt_handler
garbage_skips p [] pkt n q lacks rest = refl
garbage_skips p (c ∷ junk) pkt n q lacks rest =
    ap (interrupt_handler p (junk ++ slip_end ∷ rest)) (skip_byte p c pkt n q lacks.0)
    ∙ garbage_skips p junk pkt n q lacks.1 rest

-- An END between two packets changes nothing.
pub end_ready :
    (p : Pool) (n : ℕ) (q : List (List ℕ)) (rest : List ℕ)
    → interrupt_handler p (slip_end ∷ rest) (ready n q) ≡ interrupt_handler p rest (ready n q)
unfolding interrupt_handler
end_ready p n q rest = refl

-- Within a packet whose bytes so far are acc, an escape that is none makes the receiver discard up
-- to END; the next frame is then taken for the rest of that packet: one packet is queued, of acc
-- and the bytes of that frame, if the packet finds room for them.
pub invalid_escape_joins :
    (p : Pool) (size : ℕ)
    → Serves p size
    → (acc junk bs : List ℕ) (c n : ℕ) (q : List (List ℕ)) → (c == slip_esc_end) ≡ false
    → (c == slip_esc_esc) ≡ false
    → Lacks slip_end junk
    → length acc + length bs ≤ size
    → interrupt_handler p (slip_esc ∷ c ∷ junk ++ slip_end ∷ slip_buffer bs) (within acc n q)
      ≡ ready n (q ++ (acc ++ bs) ∷ [])
unfolding interrupt_handler
invalid_escape_joins p size ok acc junk bs c n q no_end no_esc lacks fits =
    ap (interrupt_handler p (junk ++ slip_end ∷ slip_buffer bs))
      (bad_escape p c acc n q no_end no_esc)
    ∙ (garbage_skips p junk (some acc) n q lacks (slip_buffer bs)
        ∙ (ap (λ (xs : List ℕ). interrupt_handler p xs (within acc n q))
              (sym (append-nil (slip_buffer bs)))
            ∙ frame_within p size ok bs acc n q fits []))

-- A frame is longer than its packet, and at most 1 + 2 * n bytes long for a packet of n bytes, the
-- size of slip_buf.
pub length-slip_buffer :
    (bs : List ℕ)
    → length bs < length (slip_buffer bs) × length (slip_buffer bs) ≤ 1 + 2 * length bs
unfolding slip_buffer encode_byte
length-slip_buffer [] = (omega arith, omega arith)
length-slip_buffer (b ∷ bs) =
    ground (arith, length-slip_buffer bs, length-append (encode_byte b) (slip_buffer bs))
