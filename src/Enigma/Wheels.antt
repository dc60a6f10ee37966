-- ===== src/Enigma/Wheels.antt =====
-- userspace/shared_mem/src/enc.c: `calc_rev_wheel` and the way through a wheel.
use zephyr_samples.Base.{
  ℕ, zero, suc, ◌+◌, ◌-◌, ◌%◌, ◌≤◌, ◌<◌, ◌≡◌, refl, sym, ap, subst, ◌∙◌, List, [], ◌∷◌, length,
  entry, set_entry, length-set_entry, entry-set_entry, entry-set_entry_other, arith, ℕ_discrete,
}
use zephyr_samples.Base.Int.{pos, negsuc}
use zephyr_samples.Enigma.{through, rev_wheel_from, calc_rev_wheel, imod}

-- A wheel that has each number below 26 once, with the place where it has it.
pub record IsWheel (wheel : List ℕ) : Type 0 where
  pub place : ℕ → ℕ
  pub size : length wheel ≡ 26
  pub small : (i : ℕ) → i < 26 → entry wheel i < 26
  pub placed : (i : ℕ) → i < 26 → place (entry wheel i) ≡ i
  pub full : (y : ℕ) → y < 26 → entry wheel (place y) ≡ y
  pub place_small : (y : ℕ) → y < 26 → place y < 26

-- The entries that are left hold the numbers whose places come next.
pub record Continues (place : ℕ → ℕ) (i : ℕ) (wheel : List ℕ) : Type 0 where
  pub fits : (j : ℕ) → j < length wheel → entry wheel j < 26
  pub at : (j : ℕ) → j < length wheel → place (entry wheel j) ≡ i + j

Continues-rest :
    (place : ℕ → ℕ) (i w : ℕ) (wheel : List ℕ)
    → Continues place i (w ∷ wheel)
    → Continues place (suc i) wheel
Continues-rest place i w wheel c = record {
  fits = λ j lt. c.fits (suc j) (omega arith);
  at = λ j lt. c.at (suc j) (omega arith) ∙ omega arith;
}

rev_round :
    (place : ℕ → ℕ) (i w : ℕ) (wheel backpath : List ℕ)
    → Continues place i (w ∷ wheel)
    → rev_wheel_from i (w ∷ wheel) backpath ≡ rev_wheel_from (suc i) wheel (set_entry backpath w i)
unfolding rev_wheel_from
rev_round place i w wheel backpath c = let lt = c.fits 0 (omega arith) in ground arith

rev_returns :
    (place : ℕ → ℕ) (i : ℕ) (wheel backpath : List ℕ)
    → Continues place i wheel
    → (rev_wheel_from i wheel backpath).0 ≡ pos 1
unfolding rev_wheel_from
rev_returns place i [] backpath c = refl
rev_returns place i (w ∷ wheel) backpath c =
    ap (λ p. p.0) (rev_round place i w wheel backpath c)
    ∙ rev_returns place (suc i) wheel (set_entry backpath w i) (Continues-rest place i w wheel c)

-- A round writes the place of a number at that number.
set_place :
    (place : ℕ → ℕ) (i w : ℕ) (wheel backpath : List ℕ) (y : ℕ)
    → Continues place i (w ∷ wheel)
    → y < length backpath
    → entry backpath y ≡ place y
    → entry (set_entry backpath w i) y ≡ place y
set_place place i w wheel backpath y c lt h = elim (ℕ_discrete w y) [
  | yes e ↦
      rw e
        (entry-set_entry backpath y i lt ∙ (omega arith ∙ sym (c.at 0 (omega arith)) ∙ ap place e))
  | no ne ↦ entry-set_entry_other backpath w y i ne ∙ h
]

-- What stands in the backpath already stays.
rev_keeps :
    (place : ℕ → ℕ) (i : ℕ) (wheel backpath : List ℕ) (y : ℕ)
    → Continues place i wheel
    → y < length backpath
    → entry backpath y ≡ place y
    → entry (rev_wheel_from i wheel backpath).1 y ≡ place y
unfolding rev_wheel_from
rev_keeps place i [] backpath y c lt h = h
rev_keeps place i (w ∷ wheel) backpath y c lt h =
    ap (λ p. entry p.1 y) (rev_round place i w wheel backpath c)
    ∙ rev_keeps place (suc i) wheel (set_entry backpath w i) y (Continues-rest place i w wheel c)
        (omega (arith, length-set_entry backpath w i)) (set_place place i w wheel backpath y c lt h)

rev_writes :
    (place : ℕ → ℕ) (i : ℕ) (wheel backpath : List ℕ) (j : ℕ)
    → Continues place i wheel
    → j < length wheel
    → 26 ≤ length backpath
    → entry (rev_wheel_from i wheel backpath).1 (entry wheel j) ≡ place (entry wheel j)
rev_writes place i [] backpath j c lt room = absurd (omega arith)
rev_writes place i (w ∷ wheel) backpath zero c lt room =
    ap (λ p. entry p.1 w) (rev_round place i w wheel backpath c)
    ∙ rev_keeps place (suc i) wheel (set_entry backpath w i) w (Continues-rest place i w wheel c)
        (omega (arith, length-set_entry backpath w i, c.fits 0 (omega arith)))
        (entry-set_entry backpath w i (omega (arith, c.fits 0 (omega arith)))
          ∙ (omega arith ∙ sym (c.at 0 (omega arith))))
rev_writes place i (w ∷ wheel) backpath (suc j) c lt room =
    ap (λ p. entry p.1 (entry wheel j)) (rev_round place i w wheel backpath c)
    ∙ rev_writes place (suc i) wheel (set_entry backpath w i) j (Continues-rest place i w wheel c)
        (omega arith) (omega (arith, length-set_entry backpath w i))

IsWheel-Continues : (wheel : List ℕ) (w : IsWheel wheel) → Continues w.place 0 wheel
IsWheel-Continues wheel w = record {
  fits = λ j lt. w.small j (omega (arith, lt, w.size));
  at = λ j lt. w.placed j (omega (arith, lt, w.size)) ∙ omega arith;
}

-- The backpath of a wheel takes each number to its place.
rev_wheel-entry :
    (wheel backpath : List ℕ) (w : IsWheel wheel)
    → 26 ≤ length backpath
    → (y : ℕ) → y < 26
    → entry (calc_rev_wheel wheel backpath).1 y ≡ w.place y
unfolding calc_rev_wheel
rev_wheel-entry wheel backpath w room y lt =
    subst (λ x. entry (rev_wheel_from 0 wheel backpath).1 x ≡ w.place x) (w.full y lt)
      (rev_writes w.place 0 wheel backpath (w.place y) (IsWheel-Continues wheel w)
        (omega (arith, w.size, w.place_small y lt)) room)

-- Two tables that undo each other.
pub record Undoes (wheel back : List ℕ) : Type 0 where
  pub small : (i : ℕ) → i < 26 → entry wheel i < 26
  pub back_small : (i : ℕ) → i < 26 → entry back i < 26
  pub there_back : (i : ℕ) → i < 26 → entry back (entry wheel i) ≡ i
  pub back_there : (i : ℕ) → i < 26 → entry wheel (entry back i) ≡ i

-- For a wheel that has each number below 26 once, calc_rev_wheel returns 1, and the backpath that
-- it writes over one of at least 26 entries undoes the wheel and is undone by it.
pub calc_rev_wheel-Undoes :
    (wheel backpath : List ℕ)
    → IsWheel wheel
    → 26 ≤ length backpath
    → ((calc_rev_wheel wheel backpath).0 ≡ pos 1) × Undoes wheel ((calc_rev_wheel wheel backpath).1)
unfolding calc_rev_wheel
calc_rev_wheel-Undoes wheel backpath w room =
    let at = rev_wheel-entry wheel backpath w room in
    (
      rev_returns w.place 0 wheel backpath (IsWheel-Continues wheel w),
      record {
        small = w.small;
        back_small = λ i lt. rw (at i lt) (w.place_small i lt);
        there_back = λ i lt. at (entry wheel i) (w.small i lt) ∙ w.placed i lt;
        back_there = λ i lt. rw (at i lt) (w.full i lt);
      },
    )

-- An entry over 25 is refused.
pub calc_rev_wheel_refuses :
    (wheel backpath : List ℕ) (i : ℕ)
    → i < length wheel
    → 26 ≤ entry wheel i
    → (calc_rev_wheel wheel backpath).0 ≡ negsuc 0
unfolding calc_rev_wheel
calc_rev_wheel_refuses wheel backpath i lt big = refuses_from 0 wheel backpath i lt big
  where
    refuses_from :
        (k : ℕ) (wheel backpath : List ℕ) (i : ℕ)
        → i < length wheel
        → 26 ≤ entry wheel i
        → (rev_wheel_from k wheel backpath).0 ≡ negsuc 0
    refuses_from k [] backpath i lt big = absurd (omega arith)
    refuses_from k (w ∷ wheel) backpath zero lt big = ground arith
    refuses_from k (w ∷ wheel) backpath (suc i) lt big =
        ground (arith, refuses_from (suc k) wheel (set_entry backpath w k) i (omega arith) big)

turned_back : (iw b : ℕ) → iw < 26 → b < 26 → imod iw ((b + 26 - iw) % 26) ≡ b
turned_back iw b lt lt' = omega arith

turned : (iw i : ℕ) → iw < 26 → i < 26 → (imod iw i + 26 - iw) % 26 ≡ i
turned iw i lt lt' = omega arith

-- A pass through a wheel is undone by a pass through its backpath, in the same position.
pub through-through :
    (wheel back : List ℕ)
    → Undoes wheel back
    → (iw i : ℕ) → iw < 26
    → i < 26
    → through back iw (through wheel iw i) ≡ i
unfolding through
through-through wheel back u iw i lt lt' =
    let a_small : imod iw i < 26 = omega arith in
    ap (λ (a : ℕ). (entry back a + 26 - iw) % 26)
      (turned_back iw (entry wheel (imod iw i)) lt (u.small (imod iw i) a_small))
    ∙ (ap (λ (a : ℕ). (a + 26 - iw) % 26) (u.there_back (imod iw i) a_small) ∙ turned iw i lt lt')

Undoes-sym : (wheel back : List ℕ) → Undoes wheel back → Undoes back wheel
Undoes-sym wheel back u = record {
  small = u.back_small;
  back_small = u.small;
  there_back = u.back_there;
  back_there = u.there_back;
}

pub through_back :
    (wheel back : List ℕ)
    → Undoes wheel back
    → (iw i : ℕ) → iw < 26
    → i < 26
    → through wheel iw (through back iw i) ≡ i
through_back wheel back u = through-through back wheel (Undoes-sym wheel back u)

pub through_small : (wheel : List ℕ) (iw i : ℕ) → through wheel iw i < 26
unfolding through
through_small wheel iw i = omega arith
