-- ===== src/Hci/Stream.antt =====
-- bluetooth/hci_uart/src/main.c: what the rounds of the interrupt handler make of a stream of packets.
use zephyr_samples.Base.{
  ℕ, zero, suc, ◌+◌, ◌-◌, ◌*◌, ◌≤◌, ◌≡◌, ◌≢◌, refl, sym, ap, subst, ◌∙◌, true, false, ltb, ◌==◌,
  List, [], ◌∷◌, ◌++◌, none, some, length, length-append, map, inl, inr, ◌⊎◌, arith, if-elim, ==→eq,
}
use zephyr_samples.Hci.{Pools, H4, h4_cmd, h4_acl, read_up_to, min, receive_rest, isr_round}
use mathlib.Core.Bool.{false≢true}
use mathlib.Core.List.{append_assoc, append-nil}

-- A packet: its type, its header and what its header gives the length of.
pub record Packet : Type 0 where
  pub type : ℕ
  pub header : List ℕ
  pub payload : List ℕ

-- A command or a packet of data, whose header gives the length, and which fits in a buffer.
pub data Valid (p : Pools) : Packet → Type 0 where
  command :
      (o0 o1 : ℕ) (payload : List ℕ)
      → length payload ≤ p.tailroom h4_cmd
      → Valid p
          (record { type = h4_cmd; header = o0 ∷ o1 ∷ length payload ∷ []; payload = payload })
  data_packet :
      (h0 h1 l0 l1 : ℕ) (payload : List ℕ)
      → l0 + 256 * l1 ≡ length payload
      → length payload ≤ p.tailroom h4_acl
      → Valid p (record { type = h4_acl; header = h0 ∷ h1 ∷ l0 ∷ l1 ∷ []; payload = payload })

pub data AllValid (p : Pools) : List Packet → Type 0 where
  none_left : AllValid p []
  one_more :
      (packet : Packet) (packets : List Packet)
      → Valid p packet
      → AllValid p packets
      → AllValid p (packet ∷ packets)

-- The bytes on the line, and what is queued of a packet.
abbrev pub wire : List Packet → List ℕ
wire [] = []
wire (packet ∷ packets) = packet.type ∷ (packet.header ++ (packet.payload ++ wire packets))

abbrev pub item : Packet → ℕ × List ℕ
item packet = (packet.type, packet.header ++ packet.payload)

-- Reading within a part of the line splits that part.
record Split (n : ℕ) (xs ys : List ℕ) : Type 0 where
  pub front : List ℕ
  pub back : List ℕ
  pub whole : front ++ back ≡ xs
  pub reads : read_up_to n (xs ++ ys) ≡ (front, back ++ ys)

read-Split : (n : ℕ) (xs ys : List ℕ) → n ≤ length xs → Split n xs ys
unfolding read_up_to
read-Split zero xs ys le = record { front = []; back = xs; whole = refl; reads = refl }
read-Split (suc n) [] ys le = absurd (omega arith)
read-Split (suc n) (x ∷ xs) ys le =
    let s = read-Split n xs ys (omega arith) in
    record {
      front = x ∷ s.front;
      back = s.back;
      whole = ap (λ (l : List ℕ). x ∷ l) s.whole;
      reads = rw s.reads refl;
    }

-- Between two packets: those of `sent` are queued, those of `rest` are on the line.
pub record Between (p : Pools) (sent rest : List Packet) (h : H4) (line : List ℕ) : Type 0 where
  pub idle : h.remaining ≡ 0
  pub no_buf : h.buf ≡ none
  pub queued : h.tx_queue ≡ map item sent
  pub valid : AllValid p rest
  pub on_line : line ≡ wire rest

-- Within a packet, of whose payload `got` is in the buffer and `left` on the line.
pub record Within (p : Pools) (sent : List Packet) (packet : Packet) (rest : List Packet) (h : H4)
    (line : List ℕ) : Type 0 where
  pub got : List ℕ
  pub left : List ℕ
  pub payload : packet.payload ≡ got ++ left
  pub remains : h.remaining ≡ length left
  pub in_buf : h.buf ≡ some (packet.type, packet.header ++ got)
  pub queued : h.tx_queue ≡ map item sent
  pub valid : AllValid p rest
  pub on_line : line ≡ left ++ wire rest

map-snoc :
    (sent : List Packet) (packet : Packet)
    → map item (sent ++ packet ∷ []) ≡ map item sent ++ item packet ∷ []
map-snoc [] packet = refl
map-snoc (x ∷ sent) packet = ap (λ l. item x ∷ l) (map-snoc sent packet)

length-zero : (xs : List ℕ) → length xs ≡ 0 → xs ≡ []
length-zero [] e = refl
length-zero (x ∷ xs) e = absurd (omega (arith, e))

whole_item :
    (packet : Packet) (got front : List ℕ)
    → packet.payload ≡ got ++ front
    → (packet.type, (packet.header ++ got) ++ front) ≡ item packet
whole_item packet got front e = rw (append_assoc packet.header got front, e) refl

-- What a read within a packet leads to: the packet is complete, or more of it is in the buffer.
Progress : Pools → List Packet → Packet → List Packet → H4 → List ℕ → Type 0
Progress p sent packet rest h line =
    Between p (sent ++ packet ∷ []) rest h line
    ⊎ (Within p sent packet rest h line × (h.remaining ≢ 0))

receive_rest-Progress :
    (p : Pools) (sent rest : List Packet) (packet : Packet) (ready : ℕ) (h : H4) (line : List ℕ)
    → Within p sent packet rest h line
    → Progress p sent packet rest (receive_rest ready line h).0 (receive_rest ready line h).1
unfolding Progress receive_rest
receive_rest-Progress p sent rest packet ready h line w =
    let n = min ready (length w.left) in
    let s = read-Split n w.left (wire rest) (ground arith) in
    let len : length s.front + length s.back ≡ length w.left =
      sym (length-append s.front s.back) ∙ ap length s.whole in
    rw (w.in_buf, w.remains, w.on_line, s.reads)
      (if-elim (λ (x : H4 × List ℕ). Progress p sent packet rest x.0 x.1)
        ((length w.left - length s.front) == 0) _ _
        (λ done.
          let none_back : s.back ≡ [] =
            length-zero s.back
              (omega (arith, len, ==→eq (length w.left - length s.front) 0 done)) in
          let all_front : w.left ≡ s.front =
            sym s.whole ∙ (ap (λ l. s.front ++ l) none_back ∙ append-nil s.front) in
          inl (record {
            idle = refl;
            no_buf = refl;
            queued =
                ap (λ l. l ++ (packet.type, (packet.header ++ w.got) ++ s.front) ∷ []) w.queued
                ∙ (ap (λ x. map item sent ++ x ∷ [])
                      (whole_item packet w.got s.front (w.payload ∙ ap (λ l. w.got ++ l) all_front))
                    ∙ sym (map-snoc sent packet));
            valid = w.valid;
            on_line = ap (λ l. l ++ wire rest) none_back;
          }))
        (λ more. inr (
          (
            record {
              got = w.got ++ s.front;
              left = s.back;
              payload =
                  w.payload
                  ∙ (ap (λ l. w.got ++ l) (sym s.whole) ∙ sym (append_assoc w.got s.front s.back));
              remains = omega (arith, len);
              in_buf = ap (λ l. some (packet.type, l)) (append_assoc packet.header w.got s.front);
              queued = w.queued;
              valid = w.valid;
              on_line = refl;
            },
            λ e. ground arith,
          ))))

-- A round within a packet reads on.
pub isr_round-on :
    (p : Pools) (ready : ℕ) (line : List ℕ) (h : H4)
    → h.remaining ≢ 0
    → isr_round p ready line h ≡ some (receive_rest ready line h)
unfolding isr_round
isr_round-on p ready [] h more = let e : (h.remaining == 0) ≡ false = ground arith in rw e refl
isr_round-on p ready (b ∷ line) h more =
    let e : (h.remaining == 0) ≡ false = ground arith in rw e refl

-- The buffer of a packet that fits, once its header has been read.
unfoldable pub opened : Pools → H4 → Packet → H4
opened p h packet = record h {
  buf = some (packet.type, packet.header);
  remaining = length packet.payload;
  allocs = suc h.allocs;
}

-- A round between two packets takes the header of the next one, and reads on.
pub isr_round-next :
    (p : Pools) (ready : ℕ) (h : H4) (packet : Packet) (rest : List ℕ)
    → ((n : ℕ) → p.alloc n ≡ true)
    → h.remaining ≡ 0
    → Valid p packet
    → isr_round p ready (packet.type ∷ (packet.header ++ (packet.payload ++ rest))) h
      ≡ some (receive_rest ready (packet.payload ++ rest) (opened p h packet))
unfolding isr_round opened
isr_round-next p ready h _ rest allocs idle (command o0 o1 payload fits) =
    let room : ltb (p.tailroom h4_cmd) (length payload) ≡ false = ground arith in
    rw (idle, allocs h.allocs, room) refl
isr_round-next p ready h _ rest allocs idle (data_packet h0 h1 l0 l1 payload len fits) =
    let room : ltb (p.tailroom h4_acl) (length payload) ≡ false = ground arith in
    rw (idle, allocs h.allocs, len, room) refl

next-Within :
    (p : Pools) (sent rest : List Packet) (packet : Packet) (h : H4)
    → h.tx_queue ≡ map item sent
    → AllValid p rest
    → Within p sent packet rest (opened p h packet) (packet.payload ++ wire rest)
unfolding opened
next-Within p sent rest packet h queued valid = record {
  got = [];
  left = packet.payload;
  payload = refl;
  remains = refl;
  in_buf = ap (λ l. some (packet.type, l)) (sym (append-nil packet.header));
  queued = queued;
  valid = valid;
  on_line = refl;
}

-- Where the receiver is in a sequence of packets.
pub data Receives (p : Pools) (all : List Packet) (h : H4) (line : List ℕ) : Type 0 where
  at_start :
      (sent rest : List Packet)
      → all ≡ sent ++ rest
      → Between p sent rest h line
      → Receives p all h line
  in_packet :
      (sent rest : List Packet) (packet : Packet)
      → all ≡ sent ++ packet ∷ rest
      → Within p sent packet rest h line
      → h.remaining ≢ 0
      → Receives p all h line

Progress-Receives :
    (p : Pools) (all sent rest : List Packet) (packet : Packet) (h : H4) (line : List ℕ)
    → all ≡ sent ++ packet ∷ rest
    → Progress p sent packet rest h line
    → Receives p all h line
unfolding Progress
Progress-Receives p all sent rest packet h line e (inl b) =
    at_start (sent ++ packet ∷ []) rest (e ∙ sym (append_assoc sent (packet ∷ []) rest)) b
Progress-Receives p all sent rest packet h line e (inr (w, more)) =
    in_packet sent rest packet e w more

some-eq {ℓ} : {A : Type ℓ} (a b : A) → some a ≡ some b → a ≡ b
some-eq a b e = ap (λ o. elim o [ none ↦ a | some x ↦ x ]) e

none-some {ℓ} : {A : Type ℓ} (a : A) → none ≡ some a → false ≡ true
none-some a e = ap (λ o. elim o [ none ↦ false | some x ↦ true ]) e

nothing_ready : (p : Pools) (ready : ℕ) (h : H4) → h.remaining ≡ 0 → isr_round p ready [] h ≡ none
unfolding isr_round
nothing_ready p ready h idle = rw idle refl

next_round :
    (p : Pools) (all : List Packet) (ready : ℕ) (h h' : H4) (line' : List ℕ)
    → ((n : ℕ) → p.alloc n ≡ true)
    → (sent rest : List Packet) → all ≡ sent ++ rest
    → AllValid p rest
    → h.remaining ≡ 0
    → h.tx_queue ≡ map item sent
    → isr_round p ready (wire rest) h ≡ some (h', line')
    → Receives p all h' line'
next_round p all ready h h' line' allocs sent _ e none_left idle queued r =
    absurd (false≢true (none-some (h', line') (sym (nothing_ready p ready h idle) ∙ r)))
next_round p all ready h h' line' allocs sent _ e (one_more packet rest v valid) idle queued r =
    subst (λ (x : H4 × List ℕ). Receives p all x.0 x.1)
      (some-eq _ _ (sym (isr_round-next p ready h packet (wire rest) allocs idle v) ∙ r))
      (Progress-Receives p all sent rest packet _ _ e (
        receive_rest-Progress p sent rest packet ready (opened p h packet)
          (packet.payload ++ wire rest) (next-Within p sent rest packet h queued valid)))

round-Receives :
    (p : Pools) (all : List Packet) (ready : ℕ) (h h' : H4) (line line' : List ℕ)
    → ((n : ℕ) → p.alloc n ≡ true)
    → Receives p all h line
    → isr_round p ready line h ≡ some (h', line')
    → Receives p all h' line'
round-Receives p all ready h h' line line' allocs (in_packet sent rest packet e w more) r =
    let same : (receive_rest ready line h) ≡ (h', line') =
      some-eq _ _ (sym (isr_round-on p ready line h more) ∙ r) in
    subst (λ (x : H4 × List ℕ). Receives p all x.0 x.1) same
      (Progress-Receives p all sent rest packet _ _ e
        (receive_rest-Progress p sent rest packet ready h line w))
round-Receives p all ready h h' line line' allocs (at_start sent rest e b) r =
    next_round p all ready h h' line' allocs sent rest e b.valid b.idle b.queued
      (ap (λ l. isr_round p ready l h) (sym b.on_line) ∙ r)

-- Rounds of the loop, each with the number of bytes that are ready then.
pub data Rounds (p : Pools) : H4 → List ℕ → H4 → List ℕ → Type 0 where
  no_round : (h : H4) (line : List ℕ) → Rounds p h line h line
  next :
      (ready : ℕ) (h h' h'' : H4) (line line' line'' : List ℕ)
      → Rounds p h line h' line'
      → isr_round p ready line' h' ≡ some (h'', line'')
      → Rounds p h line h'' line''

pub Rounds-Receives :
    (p : Pools) (all : List Packet) (h h' : H4) (line line' : List ℕ)
    → ((n : ℕ) → p.alloc n ≡ true)
    → Rounds p h line h' line'
    → Receives p all h line
    → Receives p all h' line'
Rounds-Receives p all _ _ _ _ allocs (no_round h line) r = r
Rounds-Receives p all _ _ _ _ allocs (next ready h h' h'' line line' line'' more e) r =
    round-Receives p all ready h' h'' line' line'' allocs
      (Rounds-Receives p all h h' line line' allocs more r) e

-- Before the first interrupt.
abbrev pub start : H4
start = record { buf = none; remaining = 0; allocs = 0; tx_queue = [] }

wire-empty : (rest : List Packet) → wire rest ≡ [] → rest ≡ []
wire-empty [] e = refl
wire-empty (packet ∷ rest) e = absurd (omega (arith, ap length e))

all_received :
    (p : Pools) (all : List Packet) (h : H4) (line : List ℕ)
    → Receives p all h line
    → line ≡ []
    → h.tx_queue ≡ map item all
all_received p all h line (at_start sent rest e b) empty =
    b.queued
    ∙ ap (map item) (
        sym (append-nil sent)
        ∙ (ap (λ l. sent ++ l) (sym (wire-empty rest (sym b.on_line ∙ empty))) ∙ sym e))
all_received p all h line (in_packet sent rest packet e w more) empty = absurd (
    more (
      omega
        (arith, w.remains, length-append w.left (wire rest), ap length (sym w.on_line ∙ empty))))

pub start-Receives :
    (p : Pools) (packets : List Packet)
    → AllValid p packets
    → Receives p packets start (wire packets)
start-Receives p packets valid =
    at_start [] packets refl
      (record { idle = refl; no_buf = refl; queued = refl; valid = valid; on_line = refl })

-- However the bytes of a sequence of packets come in, when all have been read, exactly these packets
-- have been queued, in their order, each with its header and its payload; if each allocation succeeds,
-- and each packet is a command or data of the length that its header gives and fits in a buffer.
pub stream_received :
    (p : Pools) (packets : List Packet) (h : H4) (line : List ℕ)
    → ((n : ℕ) → p.alloc n ≡ true)
    → AllValid p packets
    → Rounds p start (wire packets) h line
    → line ≡ []
    → h.tx_queue ≡ map item packets
stream_received p packets h line allocs valid rounds empty =
    all_received p packets h line
      (Rounds-Receives p packets start h (wire packets) line allocs rounds
        (start-Receives p packets valid))
      empty
