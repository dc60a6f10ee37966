-- ===== src/Enigma/Threads/Printed.antt =====
-- userspace/shared_mem/src/main.c: what the threads have printed in the end, and where they stop.
use zephyr_samples.Base.{
  ℕ, ◌≡◌, refl, sym, ap, ◌∙◌, ◌⊎◌, inl, inr, true, false, List, ◌++◌, some, none, Bool-cases,
  Option-cases, arith,
}
use zephyr_samples.Enigma.{Machine, enc_block}
use zephyr_samples.Enigma.Threads.{
  Shared, pt, enc, enc_waits, ct, Turn, turn_pt, turn_enc, turn_ct, turn_wait, Turns, no_turn,
  next_turn, enc_all, when, Delivers, idle, idle-Delivers, enc-Delivers, enc_waits-Delivers,
  ct-Delivers, Turns-Delivers,
}
use mathlib.Core.List.{append-nil}

-- `enc` waits for BUFOUT to be empty, and it is full.
abbrev pub Stuck : Shared → Type 0
Stuck s = (enc_ct : List ℕ) × (s.waiting ≡ some enc_ct) × (s.f_bufout ≡ true)

-- Some turns print the output for every message sent so far, and no other.
abbrev pub Prints : Machine → Shared → Type 0
Prints m s = (t : Shared) × Turns s t × (t.sent ≡ s.sent) × (t.printed ≡ (enc_all s.sent m).0)

-- With nothing left in the buffers.
all_printed :
    (m : Machine) (t : Shared)
    → Delivers m t
    → t.f_bufin ≡ false
    → t.f_bufout ≡ false
    → t.waiting ≡ none
    → t.printed ≡ (enc_all t.sent m).0
all_printed m t d b1 b2 b3 =
    let sent : t.sent ≡ d.taken =
      d.sent_eq ∙ (ap (λ b. d.taken ++ when b t.bufin) b1 ∙ append-nil d.taken) in
    let out : (enc_all d.taken m).0 ≡ t.printed = d.out_eq ∙ rw (b2, b3) (simp append-nil) in
    sym out ∙ ap (λ (xs : List (List ℕ)). (enc_all xs m).0) (sym sent)

ct_empties :
    (s : Shared)
    → ((ct s).f_bufout ≡ false)
      × ((ct s).f_bufin ≡ s.f_bufin)
      × ((ct s).waiting ≡ s.waiting)
      × ((ct s).sent ≡ s.sent)
unfolding ct
ct_empties s = ground arith

enc_takes :
    (s : Shared)
    → s.f_bufin ≡ true
    → ((enc s).f_bufin ≡ false)
      × ((enc s).f_bufout ≡ s.f_bufout)
      × ((enc s).waiting ≡ some (enc_block s.bufin s.machine).0)
      × ((enc s).sent ≡ s.sent)
unfolding enc
enc_takes s full = rw full (refl, refl, refl, refl)

enc_puts :
    (enc_ct : List ℕ) (s : Shared)
    → s.f_bufout ≡ false
    → ((enc_waits enc_ct s).f_bufin ≡ s.f_bufin)
      × ((enc_waits enc_ct s).waiting ≡ none)
      × ((enc_waits enc_ct s).sent ≡ s.sent)
unfolding enc_waits
enc_puts enc_ct s free = rw free (refl, refl, refl)

-- With the encoder's input empty and no one waiting, a turn of `ct` prints what is left.
ct-Prints :
    (m : Machine) (s : Shared) → Delivers m s → s.f_bufin ≡ false → s.waiting ≡ none → Prints m s
ct-Prints m s d b w =
    let (out, inn, waits, sent) = ct_empties s in
    let t = ct s in
    (
      t,
      next_turn s s t (no_turn s) (turn_ct s w),
      sent,
      all_printed m t (ct-Delivers m s d) (inn ∙ b) out (waits ∙ w)
          ∙ ap (λ (xs : List (List ℕ)). (enc_all xs m).0) sent,
    )

Turns-append : (s t u : Shared) → Turns s t → Turns t u → Turns s u
Turns-append s t _ first (no_turn _) = first
Turns-append s t u first (next_turn _ v _ more turn) =
    next_turn s v u (Turns-append s t v first more) turn

Prints-after : (m : Machine) (s t : Shared) → Turns s t → t.sent ≡ s.sent → Prints m t → Prints m s
Prints-after m s t turns same (u, more, sent, printed) = (
  u,
  Turns-append s t u turns more,
  sent ∙ same,
  printed ∙ ap (λ (xs : List (List ℕ)). (enc_all xs m).0) same,
)

-- `enc` puts its output in BUFOUT if that is empty.
waits-Prints :
    (m : Machine) (enc_ct : List ℕ) (s : Shared)
    → Delivers m s
    → s.f_bufin ≡ false
    → s.f_bufout ≡ false
    → s.waiting ≡ some enc_ct
    → Prints m s
waits-Prints m enc_ct s d b1 b2 w =
    let t = enc_waits enc_ct s in
    let (inn, waits, sent) = enc_puts enc_ct s b2 in
    Prints-after m s t (next_turn s s t (no_turn s) (turn_wait enc_ct s w)) sent
      (ct-Prints m t (enc_waits-Delivers m enc_ct s w d) (inn ∙ b1) waits)

-- With no one waiting, `ct` makes room, `enc` encodes, and `ct` prints.
idle-Prints : (m : Machine) (s : Shared) → Delivers m s → s.waiting ≡ none → Prints m s
idle-Prints m s d w = elim (Bool-cases s.f_bufin) [
  | inr b ↦ ct-Prints m s d b w
  | inl b ↦
      let s1 = ct s in
      let s2 = enc s1 in
      let (out1, in1, waits1, sent1) = ct_empties s in
      let (in2, out2, waits2, sent2) = enc_takes s1 (in1 ∙ b) in
      let turns =
        next_turn s s1 s2 (next_turn s s s1 (no_turn s) (turn_ct s w)) (turn_enc s1 (waits1 ∙ w)) in
      Prints-after m s s2 turns (sent2 ∙ sent1) (
        waits-Prints m (enc_block s1.bufin s1.machine).0 s2
          (enc-Delivers m s1 (waits1 ∙ w) (ct-Delivers m s d)) in2 (out2 ∙ out1) waits2)
]

-- `enc` frees `f_bufin` before it waits; `pt` does not get the semaphore until it is done.
Turn-takes :
    (s t : Shared)
    → Turn s t
    → ((s.waiting ≡ none) ⊎ (s.f_bufin ≡ false))
    → ((t.waiting ≡ none) ⊎ (t.f_bufin ≡ false))
unfolding pt enc enc_waits ct
Turn-takes _ _ (turn_pt message s w) h = inl (ground (arith, w))
Turn-takes _ _ (turn_enc s w) h = ground (arith, w)
Turn-takes _ _ (turn_ct s w) h = inl (ground (arith, w))
Turn-takes _ _ (turn_wait enc_ct s w) h = ground (arith, w)

Turns-takes :
    (m : Machine) (t : Shared) → Turns (idle m) t → (t.waiting ≡ none) ⊎ (t.f_bufin ≡ false)
Turns-takes m t turns = from_idle m (idle m) t turns (inl refl)
  where
    from_idle :
        (m : Machine) (s t : Shared)
        → Turns s t
        → ((s.waiting ≡ none) ⊎ (s.f_bufin ≡ false))
        → ((t.waiting ≡ none) ⊎ (t.f_bufin ≡ false))
    from_idle m _ _ (no_turn s) h = h
    from_idle m _ _ (next_turn s t u more turn) h = Turn-takes t u turn (from_idle m s t more h)

waiting-Prints :
    (m : Machine) (s : Shared) (enc_ct : List ℕ)
    → Delivers m s
    → (s.waiting ≡ none) ⊎ (s.f_bufin ≡ false)
    → s.waiting ≡ some enc_ct
    → Stuck s ⊎ Prints m s
waiting-Prints m s enc_ct d (inl none_waits) w = inr (idle-Prints m s d none_waits)
waiting-Prints m s enc_ct d (inr b) w = elim (Bool-cases s.f_bufout) [
  | inl full ↦ inl (enc_ct, w, full)
  | inr free ↦ inr (waits-Prints m enc_ct s d b free w)
]

-- From the start of the threads on, whatever the order of their turns, the messages sent are those
-- that the encoder has taken and then the one in BUFIN, if there is one; and what the encoder has
-- made of those taken, in their order, is what ct has printed, then what is in BUFOUT, then what
-- enc waits with. And either enc waits while BUFOUT is full, or some turns lead to a state in which
-- nothing more was sent, and ct has printed what the encoder makes of all messages sent, in order.
pub messages_delivered :
    (m : Machine) (s : Shared) → Turns (idle m) s → Delivers m s × (Stuck s ⊎ Prints m s)
messages_delivered m s turns =
    let d = Turns-Delivers m (idle m) s turns (idle-Delivers m) in
    (
      d,
      elim (Option-cases s.waiting) [
        | inl w ↦ inr (idle-Prints m s d w)
        | inr (enc_ct, w) ↦ waiting-Prints m s enc_ct d (Turns-takes m s turns) w
      ],
    )
