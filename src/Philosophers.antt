-- ===== src/Philosophers.antt =====
-- philosophers/src/main.c: the philosophers and the forks, which are mutexes.
pub mod Forks
pub mod Progress
mod Tests
use zephyr_samples.Base.{
  ℕ, suc, ◌+◌, ◌-◌, ◌<◌, ◌≡◌, Bool, true, false, ◌||◌, if◌then◌else◌, ◌==◌, Option, none, some,
}

-- Where a philosopher is, by what it has printed last; `fork1` and `fork2` are what it has picked up.
pub data PhilState : Type 0 where
  starving holding_one_fork eating dropped_one_fork thinking : PhilState

-- `is_last_philosopher`, of `num_phil` philosophers.
unfoldable pub is_last_philosopher : ℕ → ℕ → Bool
is_last_philosopher num_phil id = id == (num_phil - 1)

-- `fork1` and `fork2` of a philosopher.
unfoldable pub fork1 : ℕ → ℕ → ℕ
unfolding is_last_philosopher
fork1 num_phil id = if is_last_philosopher num_phil id then 0 else id

unfoldable pub fork2 : ℕ → ℕ → ℕ
unfolding is_last_philosopher
fork2 num_phil id = if is_last_philosopher num_phil id then id else id + 1

-- The phase of each philosopher, and the philosopher that has locked each fork.
pub record Table : Type 0 where
  pub phase : ℕ → PhilState
  pub owner : ℕ → Option ℕ

abbrev pub update {ℓ} : {A : Type ℓ} → (ℕ → A) → ℕ → A → ℕ → A
update f i a j = if j == i then a else f j

-- `take` and `drop` of a fork, with the phase after them.
unfoldable pub take_fork : ℕ → ℕ → PhilState → Table → Table
take_fork f id p t = record { phase = update t.phase id p; owner = update t.owner f (some id) }

unfoldable pub drop_fork : ℕ → ℕ → PhilState → Table → Table
drop_fork f id p t = record { phase = update t.phase id p; owner = update t.owner f none }

unfoldable pub print_phase : ℕ → PhilState → Table → Table
print_phase id p t = record t { phase = update t.phase id p }

-- One round of the loop of `philosopher`: `take` goes on only when nobody has the fork.
pub data PhilStep (n : ℕ) : Table → Table → Type 0 where
  take_first :
      (id : ℕ) (t : Table)
      → id < n
      → t.phase id ≡ starving
      → t.owner (fork1 n id) ≡ none
      → PhilStep n t (take_fork (fork1 n id) id holding_one_fork t)
  take_second :
      (id : ℕ) (t : Table)
      → id < n
      → t.phase id ≡ holding_one_fork
      → t.owner (fork2 n id) ≡ none
      → PhilStep n t (take_fork (fork2 n id) id eating t)
  drop_second :
      (id : ℕ) (t : Table)
      → id < n
      → t.phase id ≡ eating
      → PhilStep n t (drop_fork (fork2 n id) id dropped_one_fork t)
  drop_first :
      (id : ℕ) (t : Table)
      → id < n
      → t.phase id ≡ dropped_one_fork
      → PhilStep n t (drop_fork (fork1 n id) id thinking t)
  starve :
      (id : ℕ) (t : Table)
      → id < n
      → t.phase id ≡ thinking
      → PhilStep n t (print_phase id starving t)

pub data Reach (n : ℕ) : Table → Table → Type 0 where
  here : (t : Table) → Reach n t t
  onward : (t u v : Table) → Reach n t u → PhilStep n u v → Reach n t v

-- After `main`: every philosopher starves, and the forks lie on the table.
abbrev pub laid : Table
laid = record { phase = λ id. starving; owner = λ f. none }
