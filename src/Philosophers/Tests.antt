-- ===== src/Philosophers/Tests.antt =====
-- philosophers/src/main.c: six philosophers, of whom two eat.
use zephyr_samples.Base.{ℕ, ◌≡◌, ◌≢◌, refl, arith}
use zephyr_samples.Philosophers.{
  eating, holding_one_fork, fork1, fork2, Table, take_fork, take_first, take_second, Reach, here,
  onward, laid,
}
use zephyr_samples.Philosophers.Forks.{no_shared_fork}
use zephyr_samples.Philosophers.Progress.{GoesOn, Reach-GoesOn}

-- `NUM_PHIL`
abbrev num_phil : ℕ
num_phil = 6

abbrev one_holds : Table
one_holds = take_fork (fork1 num_phil 0) 0 holding_one_fork laid

abbrev one_eats : Table
one_eats = take_fork (fork2 num_phil 0) 0 eating one_holds

abbrev other_holds : Table
other_holds = take_fork (fork1 num_phil 2) 2 holding_one_fork one_eats

abbrev two_eat : Table
two_eat = take_fork (fork2 num_phil 2) 2 eating other_holds

two_reached : Reach num_phil laid two_eat
unfolding take_fork fork1 fork2
two_reached =
    onward laid other_holds two_eat
      (onward laid one_eats other_holds
        (onward laid one_holds one_eats
          (onward laid laid one_holds (here laid) (take_first 0 laid (omega arith) refl refl))
          (take_second 0 one_holds (omega arith) refl refl))
        (take_first 2 one_eats (omega arith) refl refl))
      (take_second 2 other_holds (omega arith) refl refl)

eats_0 : two_eat.phase 0 ≡ eating
unfolding take_fork
eats_0 = refl

eats_2 : two_eat.phase 2 ≡ eating
unfolding take_fork
eats_2 = refl

no_shared_fork_example :
    (fork1 num_phil 0 ≢ fork1 num_phil 2)
    × (fork1 num_phil 0 ≢ fork2 num_phil 2)
    × (fork2 num_phil 0 ≢ fork1 num_phil 2)
    × (fork2 num_phil 0 ≢ fork2 num_phil 2)
no_shared_fork_example =
    no_shared_fork num_phil two_eat (omega arith) two_reached 0 2 (omega arith) (omega arith)
      (λ e. omega (arith, e)) eats_0 eats_2

Reach-GoesOn_example : GoesOn num_phil two_eat
Reach-GoesOn_example = Reach-GoesOn num_phil two_eat (omega arith) two_reached
