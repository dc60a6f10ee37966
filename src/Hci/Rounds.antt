-- ===== src/Hci/Rounds.antt =====
-- bluetooth/hci_uart/src/main.c: each round of the interrupt handler takes bytes off the line.
use zephyr_samples.Base.{
  ℕ, zero, suc, ◌≤◌, ◌<◌, ◌≡◌, sym, subst, true, if-elim, List, [], ◌∷◌, ◌++◌, some, length,
  length-append, inl, inr, Option-cases, arith,
}
use zephyr_samples.Hci.{Pools, H4, read_up_to, min, receive_rest, isr_round, h4_discard_len}
use zephyr_samples.Hci.Stream.{
  Packet, Valid, AllValid, none_left, one_more, wire, Receives, at_start, in_packet, isr_round-on,
  isr_round-next, opened, Rounds, start, Rounds-Receives, start-Receives,
}

read_le : (n : ℕ) (l : List ℕ) → length (read_up_to n l).1 ≤ length l
unfolding read_up_to
read_le zero l = omega arith
read_le (suc n) [] = omega arith
read_le (suc n) (x ∷ l) = omega (arith, read_le n l)

read_lt : (n : ℕ) (l : List ℕ) → 0 < n → 0 < length l → length (read_up_to n l).1 < length l
unfolding read_up_to
read_lt zero l some' more = absurd (omega arith)
read_lt (suc n) [] some' more = absurd (omega arith)
read_lt (suc n) (x ∷ l) some' more = omega (arith, read_le n l)

receive_rest_le :
    (ready : ℕ) (line : List ℕ) (h : H4) → length (receive_rest ready line h).1 ≤ length line
unfolding receive_rest
receive_rest_le ready line h = elim (Option-cases h.buf) [
  | inl e ↦ rw e (read_le (min ready (min h.remaining h4_discard_len)) line)
  | inr (b, e) ↦ rw e (
      if-elim (λ (x : H4 × List ℕ). length x.1 ≤ length line) _ _ _
        (λ done. read_le (min ready h.remaining) line)
        (λ more. read_le (min ready h.remaining) line))
]

receive_rest_lt :
    (ready : ℕ) (line : List ℕ) (h : H4)
    → 0 < ready
    → 0 < h.remaining
    → 0 < length line
    → length (receive_rest ready line h).1 < length line
unfolding receive_rest
receive_rest_lt ready line h some' left more = elim (Option-cases h.buf) [
  | inl e ↦ rw e (read_lt (min ready (min h.remaining h4_discard_len)) line (ground arith) more)
  | inr (b, e) ↦ rw e (
      if-elim (λ (x : H4 × List ℕ). length x.1 < length line) _ _ _
        (λ done. read_lt (min ready h.remaining) line (ground arith) more)
        (λ go_on. read_lt (min ready h.remaining) line (ground arith) more))
]

-- A round that takes something off the line.
abbrev pub Takes : Pools → ℕ → H4 → List ℕ → Type 0
Takes p ready h line =
    (h' : H4) × (line' : List ℕ) × (isr_round p ready line h ≡ some (h', line'))
    × (length line' < length line)

next-Takes :
    (p : Pools) (ready : ℕ) (h : H4) (packet : Packet) (rest : List ℕ)
    → ((n : ℕ) → p.alloc n ≡ true)
    → h.remaining ≡ 0
    → Valid p packet
    → Takes p ready h (packet.type ∷ (packet.header ++ (packet.payload ++ rest)))
next-Takes p ready h packet rest allocs idle v =
    let le = receive_rest_le ready (packet.payload ++ rest) (opened p h packet) in
    (
      _,
      _,
      isr_round-next p ready h packet rest allocs idle v,
      omega (arith, le, length-append packet.header (packet.payload ++ rest)),
    )

Between-Takes :
    (p : Pools) (ready : ℕ) (h : H4) (rest : List Packet)
    → ((n : ℕ) → p.alloc n ≡ true)
    → AllValid p rest
    → h.remaining ≡ 0
    → 0 < length (wire rest)
    → Takes p ready h (wire rest)
Between-Takes p ready h _ allocs none_left idle more = absurd (omega arith)
Between-Takes p ready h _ allocs (one_more packet rest v valid) idle more =
    next-Takes p ready h packet (wire rest) allocs idle v

Receives-Takes :
    (p : Pools) (packets : List Packet) (h : H4) (line : List ℕ) (ready : ℕ)
    → ((n : ℕ) → p.alloc n ≡ true)
    → Receives p packets h line
    → 0 < length line
    → 0 < ready
    → Takes p ready h line
Receives-Takes p packets h line ready allocs (in_packet sent rest packet e w left) more some' = (
  _,
  _,
  isr_round-on p ready line h left,
  receive_rest_lt ready line h some' (omega (arith, left)) more,
)
Receives-Takes p packets h line ready allocs (at_start sent rest e b) more some' =
    subst (Takes p ready h) (sym b.on_line) (
      Between-Takes p ready h rest allocs b.valid b.idle (subst (λ l. 0 < length l) b.on_line more))

-- After any rounds on a stream of valid packets, as long as bytes are left on the line, a round in
-- which one at least is ready takes bytes off it, if allocations succeed.
pub round-Takes :
    (p : Pools) (packets : List Packet) (h : H4) (line : List ℕ) (ready : ℕ)
    → ((n : ℕ) → p.alloc n ≡ true)
    → AllValid p packets
    → Rounds p start (wire packets) h line
    → 0 < length line
    → 0 < ready
    → Takes p ready h line
round-Takes p packets h line ready allocs valid rounds more some' =
    Receives-Takes p packets h line ready allocs
      (Rounds-Receives p packets start h (wire packets) line allocs rounds
        (start-Receives p packets valid))
      more some'
