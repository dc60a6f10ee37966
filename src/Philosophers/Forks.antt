-- ===== src/Philosophers/Forks.antt =====
-- philosophers/src/main.c: who has which fork.
use zephyr_samples.Base.{
  ℕ, ◌<◌, ◌≤◌, ◌≡◌, ◌≢◌, refl, sym, ap, ◌∙◌, Bool, true, false, ◌||◌, if◌then◌else◌, ◌==◌, none,
  some, arith, ℕ_discrete, eq→==,
}
use zephyr_samples.Philosophers.{
  is_last_philosopher, PhilState, starving, holding_one_fork, eating, dropped_one_fork, thinking,
  fork1, fork2, Table, update, take_fork, drop_fork, print_phase, PhilStep, take_first, take_second,
  drop_second, drop_first, starve, Reach, here, onward, laid,
}

-- Whether a philosopher in a phase has a fork.
unfoldable pub holds : ℕ → PhilState → ℕ → ℕ → Bool
holds n starving id f = false
holds n holding_one_fork id f = f == fork1 n id
holds n eating id f = f == fork1 n id || f == fork2 n id
holds n dropped_one_fork id f = f == fork1 n id
holds n thinking id f = false

-- The forks that are locked are those that the philosophers have.
pub record Agrees (n : ℕ) (t : Table) : Type 0 where
  pub owned : (f id : ℕ) → t.owner f ≡ some id → (id < n) × (holds n (t.phase id) id f ≡ true)
  pub held : (f id : ℕ) → id < n → holds n (t.phase id) id f ≡ true → t.owner f ≡ some id

pub fork1-fork2 : (n id : ℕ) → 2 ≤ n → id < n → fork1 n id < fork2 n id
unfolding fork1 fork2 is_last_philosopher
fork1-fork2 n id two lt = ground arith

pub fork2-lt : (n id : ℕ) → id < n → fork2 n id < n
unfolding fork2 is_last_philosopher
fork2-lt n id lt = ground arith

update-at {ℓ} : {A : Type ℓ} (f : ℕ → A) (i : ℕ) (a : A) → update f i a i ≡ a
update-at f i a = rw (eq→== i i refl) refl

update_other {ℓ} : {A : Type ℓ} (f : ℕ → A) (i j : ℕ) (a : A) → j ≢ i → update f i a j ≡ f j
update_other f i j a ne = let no' : (j == i) ≡ false = ground arith in rw no' refl

-- What a philosopher has, after one of them has changed its phase.
holds-update :
    (n : ℕ) (phase : ℕ → PhilState) (id j g : ℕ) (p : PhilState)
    → holds n (update phase id p j) j g
      ≡ (if j == id then holds n p id g else holds n (phase j) j g)
holds-update n phase id j g p = elim (ℕ_discrete j id) [
  | yes e ↦ rw (e, eq→== id id refl) refl
  | no ne ↦ let no' : (j == id) ≡ false = ground arith in rw no' refl
]

some-eq : (i j : ℕ) → (some i) ≡ (some j) → i ≡ j
some-eq i j e = ground arith

-- A fork that nobody has is taken.
take-Agrees :
    (n f id : ℕ) (p : PhilState) (t : Table)
    → Agrees n t
    → id < n
    → t.owner f ≡ none
    → holds n p id f ≡ true
    → ((g : ℕ) → g ≢ f → holds n p id g ≡ holds n (t.phase id) id g)
    → Agrees n (take_fork f id p t)
unfolding take_fork
take-Agrees n f id p t a lt free has same = record {
  owned = λ g j e. rw (holds-update n t.phase id j g p) (ground (arith, a.owned g j, same g));
  held = λ g j lt' e.
      let e' = sym (holds-update n t.phase id j g p) ∙ e in
      ground (arith, a.held g j lt', a.held f j lt', same g, free);
}

-- A fork that a philosopher has is put back.
drop-Agrees :
    (n f id : ℕ) (p : PhilState) (t : Table)
    → Agrees n t
    → id < n
    → holds n (t.phase id) id f ≡ true
    → holds n p id f ≡ false
    → ((g : ℕ) → g ≢ f → holds n p id g ≡ holds n (t.phase id) id g)
    → Agrees n (drop_fork f id p t)
unfolding drop_fork
drop-Agrees n f id p t a lt had gone same = record {
  owned = λ g j e. rw (holds-update n t.phase id j g p) (ground (arith, a.owned g j, same g));
  held = λ g j lt' e.
      let e' = sym (holds-update n t.phase id j g p) ∙ e in
      ground (arith, a.held g j lt', a.held f j lt', a.held f id lt had, same g);
}

print-Agrees :
    (n id : ℕ) (p : PhilState) (t : Table)
    → Agrees n t
    → ((g : ℕ) → holds n p id g ≡ holds n (t.phase id) id g)
    → Agrees n (print_phase id p t)
unfolding print_phase
print-Agrees n id p t a same = record {
  owned = λ g j e. rw (holds-update n t.phase id j g p) (ground (arith, a.owned g j e, same g));
  held = λ g j lt' e.
      let e' = sym (holds-update n t.phase id j g p) ∙ e in ground (arith, a.held g j lt', same g);
}

step-Agrees : (n : ℕ) (t u : Table) → 2 ≤ n → PhilStep n t u → Agrees n t → Agrees n u
unfolding holds
step-Agrees n _ _ two (take_first id t lt e free) a =
    take-Agrees n (fork1 n id) id holding_one_fork t a lt free (eq→== _ _ refl)
      (λ g ne. rw e (ground arith))
step-Agrees n _ _ two (take_second id t lt e free) a =
    take-Agrees n (fork2 n id) id eating t a lt free (ground arith) (λ g ne. rw e (ground arith))
step-Agrees n _ _ two (drop_second id t lt e) a =
    let order = fork1-fork2 n id two lt in
    drop-Agrees n (fork2 n id) id dropped_one_fork t a lt (rw e (ground arith)) (ground arith)
      (λ g ne. rw e (ground arith))
step-Agrees n _ _ two (drop_first id t lt e) a =
    drop-Agrees n (fork1 n id) id thinking t a lt (rw e (eq→== _ _ refl)) refl
      (λ g ne. rw e (ground arith))
step-Agrees n _ _ two (starve id t lt e) a = print-Agrees n id starving t a (λ g. rw e refl)

-- However the philosophers take turns, the locks are as their phases say.
pub Reach-Agrees : (n : ℕ) (t u : Table) → 2 ≤ n → Reach n t u → Agrees n t → Agrees n u
Reach-Agrees n _ _ two (here t) a = a
Reach-Agrees n _ _ two (onward t u v more step) a =
    step-Agrees n u v two step (Reach-Agrees n t u two more a)

pub laid-Agrees : (n : ℕ) → Agrees n laid
unfolding holds
laid-Agrees n = record { owned = λ f id e. ground arith; held = λ f id lt e. ground arith }

-- In every state that two or more philosophers reach from the laid table, two of them who eat have
-- no fork in common.
pub no_shared_fork :
    (n : ℕ) (t : Table)
    → 2 ≤ n
    → Reach n laid t
    → (i j : ℕ) → i < n
    → j < n
    → i ≢ j
    → t.phase i ≡ eating
    → t.phase j ≡ eating
    → (fork1 n i ≢ fork1 n j)
      × (fork1 n i ≢ fork2 n j)
      × (fork2 n i ≢ fork1 n j)
      × (fork2 n i ≢ fork2 n j)
unfolding holds
no_shared_fork n t two reached i j lti ltj ne ei ej =
    let a = Reach-Agrees n laid t two reached (laid-Agrees n) in
    let own1 : (k : ℕ) → k < n → t.phase k ≡ eating → t.owner (fork1 n k) ≡ some k =
      λ k lt e. a.held (fork1 n k) k lt (rw e (ground arith)) in
    let own2 : (k : ℕ) → k < n → t.phase k ≡ eating → t.owner (fork2 n k) ≡ some k =
      λ k lt e. a.held (fork2 n k) k lt (rw e (ground arith)) in
    (
      λ e. ne (some-eq i j (sym (own1 i lti ei) ∙ (ap t.owner e ∙ own1 j ltj ej))),
      λ e. ne (some-eq i j (sym (own1 i lti ei) ∙ (ap t.owner e ∙ own2 j ltj ej))),
      λ e. ne (some-eq i j (sym (own2 i lti ei) ∙ (ap t.owner e ∙ own1 j ltj ej))),
      λ e. ne (some-eq i j (sym (own2 i lti ei) ∙ (ap t.owner e ∙ own2 j ltj ej))),
    )
