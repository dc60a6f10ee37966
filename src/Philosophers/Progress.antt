-- ===== src/Philosophers/Progress.antt =====
-- philosophers/src/main.c: somebody can always go on.
use zephyr_samples.Base.{
  ℕ, zero, suc, ◌+◌, ◌<◌, ◌≤◌, ◌≡◌, refl, true, some, inl, inr, Option-cases, arith, eq→==,
}
use mathlib.Core.Bool.{false≢true}
use zephyr_samples.Philosophers.{
  PhilState, starving, holding_one_fork, eating, dropped_one_fork, thinking, fork1, fork2, Table,
  PhilStep, take_first, take_second, drop_second, drop_first, starve, Reach, laid,
}
use zephyr_samples.Philosophers.Forks.{
  holds, Agrees, fork1-fork2, fork2-lt, Reach-Agrees, laid-Agrees,
}

-- Some philosopher can take a step.
abbrev pub GoesOn : ℕ → Table → Type 0
GoesOn n t = (u : Table) × PhilStep n t u

holds-lt : (n : ℕ) (p : PhilState) (id f : ℕ) → 2 ≤ n → id < n → holds n p id f ≡ true → f < n
unfolding holds
holds-lt n starving id f two lt h = absurd (false≢true h)
holds-lt n holding_one_fork id f two lt h =
    ground (arith, fork1-fork2 n id two lt, fork2-lt n id lt)
holds-lt n eating id f two lt h = ground (arith, fork1-fork2 n id two lt, fork2-lt n id lt)
holds-lt n dropped_one_fork id f two lt h =
    ground (arith, fork1-fork2 n id two lt, fork2-lt n id lt)
holds-lt n thinking id f two lt h = absurd (false≢true h)

-- A philosopher who has the fork `f` goes on, if whoever has a fork with a higher number lets somebody
-- go on.
holder_phase :
    (n : ℕ) (t : Table)
    → 2 ≤ n
    → (f id : ℕ) (p : PhilState) → t.phase id ≡ p
    → id < n
    → holds n p id f ≡ true
    → ((g j : ℕ) → t.owner g ≡ some j → f < g → GoesOn n t)
    → GoesOn n t
unfolding holds
holder_phase n t two f id starving e lt h higher = absurd (false≢true h)
holder_phase n t two f id holding_one_fork e lt h higher =
    elim (Option-cases (t.owner (fork2 n id))) [
      | inl free ↦ (_, take_second id t lt e free)
      | inr (j, owns) ↦ higher (fork2 n id) j owns (ground (arith, fork1-fork2 n id two lt))
    ]
holder_phase n t two f id eating e lt h higher = (_, drop_second id t lt e)
holder_phase n t two f id dropped_one_fork e lt h higher = (_, drop_first id t lt e)
holder_phase n t two f id thinking e lt h higher = absurd (false≢true h)

-- Whoever has a fork can go on, or waits for one with a higher number: the chain of those who wait
-- ends. `fuel` bounds the numbers that are left.
holder-GoesOn :
    (n fuel : ℕ) (t : Table)
    → 2 ≤ n
    → Agrees n t
    → (f id : ℕ) → t.owner f ≡ some id
    → n ≤ fuel + f
    → GoesOn n t
holder-GoesOn n zero t two a f id owns enough =
    let (lt, has) = a.owned f id owns in
    absurd (omega (arith, holds-lt n (t.phase id) id f two lt has))
holder-GoesOn n (suc fuel) t two a f id owns enough =
    let (lt, has) = a.owned f id owns in
    holder_phase n t two f id (t.phase id) refl lt has
      (λ g j owns' above. holder-GoesOn n fuel t two a g j owns' (omega arith))

owner-GoesOn :
    (n : ℕ) (t : Table) → 2 ≤ n → Agrees n t → (f id : ℕ) → t.owner f ≡ some id → GoesOn n t
owner-GoesOn n t two a f id owns = holder-GoesOn n n t two a f id owns (omega arith)

some_phase-GoesOn :
    (n : ℕ) (t : Table) (p : PhilState) → 2 ≤ n → Agrees n t → t.phase 0 ≡ p → GoesOn n t
unfolding holds
some_phase-GoesOn n t starving two a e = elim (Option-cases (t.owner (fork1 n 0))) [
  | inl free ↦ (_, take_first 0 t (omega arith) e free)
  | inr (j, owns) ↦ owner-GoesOn n t two a (fork1 n 0) j owns
]
some_phase-GoesOn n t holding_one_fork two a e =
    owner-GoesOn n t two a (fork1 n 0) 0
      (a.held (fork1 n 0) 0 (omega arith) (rw e (eq→== _ _ refl)))
some_phase-GoesOn n t eating two a e = (_, drop_second 0 t (omega arith) e)
some_phase-GoesOn n t dropped_one_fork two a e = (_, drop_first 0 t (omega arith) e)
some_phase-GoesOn n t thinking two a e = (_, starve 0 t (omega arith) e)

-- There is no deadlock: in every state that two or more philosophers reach from the laid table,
-- one of them can take a step.
pub Reach-GoesOn : (n : ℕ) (t : Table) → 2 ≤ n → Reach n laid t → GoesOn n t
Reach-GoesOn n t two reached =
    some_phase-GoesOn n t (t.phase 0) two (Reach-Agrees n laid t two reached (laid-Agrees n)) refl
