-- ===== src/Enigma/Threads.antt =====
-- userspace/shared_mem/src/main.c: the threads `pt`, `enc` and `ct`, and the buffers between them.
pub mod Printed
use zephyr_samples.Base.{
  ℕ, ◌≡◌, refl, ap, ◌∙◌, Bool, true, false, if◌then◌else◌, List, [], ◌∷◌, ◌++◌, inl, inr, Option,
  some, none, Bool-cases,
}
use zephyr_samples.Enigma.{Machine, enc_block}
use mathlib.Core.List.{append_assoc, append-nil}

-- `fBUFIN`, `BUFIN`, `fBUFOUT`, `BUFOUT`, the wheels, and what `ct` has printed. `waiting` holds
-- `enc_ct` while `enc` waits for `fBUFOUT` to be cleared, which it does without giving `allforone`
-- back. `sent` lists what `pt` has put in `BUFIN`.
pub record Shared : Type 0 where
  pub f_bufin : Bool
  pub bufin : List ℕ
  pub f_bufout : Bool
  pub bufout : List ℕ
  pub machine : Machine
  pub waiting : Option (List ℕ)
  pub printed : List (List ℕ)
  pub sent : List (List ℕ)

-- `pt`, holding the semaphore, with a message for `BUFIN`.
unfoldable pub pt : List ℕ → Shared → Shared
pt message s =
    if s.f_bufin
    then s
    else record s { f_bufin = true; bufin = message; sent = s.sent ++ message ∷ [] }

-- `enc`, holding the semaphore, up to the wait for `fBUFOUT`.
unfoldable pub enc : Shared → Shared
unfolding enc_block
enc s =
    let (enc_ct, m) = enc_block s.bufin s.machine in
    if s.f_bufin then record s { f_bufin = false; machine = m; waiting = some enc_ct } else s

-- `enc` from that wait on.
unfoldable pub enc_waits : List ℕ → Shared → Shared
enc_waits enc_ct s =
    if s.f_bufout then s else record s { f_bufout = true; bufout = enc_ct; waiting = none }

-- `ct`, holding the semaphore.
unfoldable pub ct : Shared → Shared
ct s = if s.f_bufout then record s { f_bufout = false; printed = s.printed ++ s.bufout ∷ [] } else s

-- A turn of one of the threads. `enc` keeps the semaphore while it waits.
pub data Turn : Shared → Shared → Type 0 where
  turn_pt : (message : List ℕ) (s : Shared) → s.waiting ≡ none → Turn s (pt message s)
  turn_enc : (s : Shared) → s.waiting ≡ none → Turn s (enc s)
  turn_ct : (s : Shared) → s.waiting ≡ none → Turn s (ct s)
  turn_wait : (enc_ct : List ℕ) (s : Shared) → s.waiting ≡ some enc_ct → Turn s (enc_waits enc_ct s)

pub data Turns : Shared → Shared → Type 0 where
  no_turn : (s : Shared) → Turns s s
  next_turn : (s t u : Shared) → Turns s t → Turn t u → Turns s u

-- The messages that the encoder has taken, one after the other.
unfoldable pub enc_all : List (List ℕ) → Machine → List (List ℕ) × Machine
enc_all [] m = ([], m)
enc_all (block ∷ blocks) m =
    let (ct, m1) = enc_block block m in let (cts, m2) = enc_all blocks m1 in (ct ∷ cts, m2)

abbrev pub when : Bool → List ℕ → List (List ℕ)
when true block = block ∷ []
when false block = []

abbrev pub pending : Option (List ℕ) → List (List ℕ)
pending none = []
pending (some block) = block ∷ []

-- `taken` is what the encoder has taken of the messages sent; its output is printed, in `BUFOUT`, or
-- with `enc`, in that order.
pub record Delivers (m : Machine) (s : Shared) : Type 0 where
  pub taken : List (List ℕ)
  pub sent_eq : s.sent ≡ taken ++ when s.f_bufin s.bufin
  pub out_eq : (enc_all taken m).0 ≡ s.printed ++ when s.f_bufout s.bufout ++ pending s.waiting
  pub machine_eq : (enc_all taken m).1 ≡ s.machine

enc_all-snoc :
    (taken : List (List ℕ)) (block : List ℕ) (m : Machine)
    → enc_all (taken ++ block ∷ []) m ≡ (
      (enc_all taken m).0 ++ (enc_block block (enc_all taken m).1).0 ∷ [],
      (enc_block block (enc_all taken m).1).1,
    )
unfolding enc_all
enc_all-snoc [] block m = refl
enc_all-snoc (b ∷ taken) block m =
    ap (λ (p : List (List ℕ) × Machine). ((enc_block b m).0 ∷ p.0, p.1))
      (enc_all-snoc taken block (enc_block b m).1)

pt-Delivers :
    (m : Machine) (message : List ℕ) (s : Shared) → Delivers m s → Delivers m (pt message s)
unfolding pt
pt-Delivers m message s d = elim (Bool-cases s.f_bufin) [
  | inl e ↦ simp e d
  | inr e ↦ rw e (record {
    taken = d.taken;
    sent_eq =
        ap (λ (xs : List (List ℕ)). xs ++ message ∷ [])
          (d.sent_eq ∙ ap (λ b. d.taken ++ when b s.bufin) e)
        ∙ simp (append_assoc);
    out_eq = d.out_eq;
    machine_eq = d.machine_eq;
  })
]

pub enc-Delivers : (m : Machine) (s : Shared) → s.waiting ≡ none → Delivers m s → Delivers m (enc s)
unfolding enc
enc-Delivers m s idle d = elim (Bool-cases s.f_bufin) [
  | inr e ↦ simp e d
  | inl e ↦ rw e (record {
    taken = d.taken ++ s.bufin ∷ [];
    sent_eq = d.sent_eq ∙ (ap (λ b. d.taken ++ when b s.bufin) e ∙ simp (append-nil));
    out_eq =
        rw (enc_all-snoc d.taken s.bufin m, d.machine_eq, d.out_eq, idle)
          (simp (append_assoc, append-nil));
    machine_eq = rw (enc_all-snoc d.taken s.bufin m, d.machine_eq) refl;
  })
]

pub enc_waits-Delivers :
    (m : Machine) (enc_ct : List ℕ) (s : Shared)
    → s.waiting ≡ some enc_ct
    → Delivers m s
    → Delivers m (enc_waits enc_ct s)
unfolding enc_waits
enc_waits-Delivers m enc_ct s waits d = elim (Bool-cases s.f_bufout) [
  | inl e ↦ simp e d
  | inr e ↦ rw e (record {
    taken = d.taken;
    sent_eq = d.sent_eq;
    out_eq = rw (d.out_eq, waits, e) (simp (append-nil));
    machine_eq = d.machine_eq;
  })
]

pub ct-Delivers : (m : Machine) (s : Shared) → Delivers m s → Delivers m (ct s)
unfolding ct
ct-Delivers m s d = elim (Bool-cases s.f_bufout) [
  | inr e ↦ simp e d
  | inl e ↦ rw e (record {
    taken = d.taken;
    sent_eq = d.sent_eq;
    out_eq = rw (d.out_eq, e) (simp (append_assoc));
    machine_eq = d.machine_eq;
  })
]

Turn-Delivers : (m : Machine) (s t : Shared) → Turn s t → Delivers m s → Delivers m t
Turn-Delivers m _ _ (turn_pt message s idle) d = pt-Delivers m message s d
Turn-Delivers m _ _ (turn_enc s idle) d = enc-Delivers m s idle d
Turn-Delivers m _ _ (turn_ct s idle) d = ct-Delivers m s d
Turn-Delivers m _ _ (turn_wait enc_ct s waits) d = enc_waits-Delivers m enc_ct s waits d

pub Turns-Delivers : (m : Machine) (s t : Shared) → Turns s t → Delivers m s → Delivers m t
Turns-Delivers m _ _ (no_turn s) d = d
Turns-Delivers m _ _ (next_turn s t u more turn) d =
    Turn-Delivers m t u turn (Turns-Delivers m s t more d)

-- `main` before the threads.
abbrev pub idle : Machine → Shared
idle m = record {
  f_bufin = false;
  bufin = [];
  f_bufout = false;
  bufout = [];
  machine = m;
  waiting = none;
  printed = [];
  sent = [];
}

pub idle-Delivers : (m : Machine) → Delivers m (idle m)
unfolding enc_all
idle-Delivers m = record { taken = []; sent_eq = refl; out_eq = refl; machine_eq = refl }
