-- ===== src/Enigma/Boot.antt =====
-- userspace/shared_mem/src/main.c: the tables that the sample is built with.
use zephyr_samples.Base.{
  ℕ, ◌≡◌, refl, true, List, [], ◌∷◌, entry, length, replicate, arith, all_below, all_below-at, ◌==◌,
  ltb, ==→eq, ltb→lt,
}
use zephyr_samples.Enigma.{
  Machine, boot, start_wheel, start_wheel2, reflect, reset_wheels, wheel_size,
}
use zephyr_samples.Enigma.Wheels.{IsWheel, Undoes, calc_rev_wheel-Undoes}
use zephyr_samples.Enigma.Paths.{IsReady}

-- The four facts about a table and its inverse, as tests.
tables-Undoes :
    (wheel back : List ℕ)
    → all_below 26 (λ i. ltb (entry wheel i) 26) ≡ true
    → all_below 26 (λ i. ltb (entry back i) 26) ≡ true
    → all_below 26 (λ i. entry back (entry wheel i) == i) ≡ true
    → all_below 26 (λ i. entry wheel (entry back i) == i) ≡ true
    → Undoes wheel back
tables-Undoes wheel back h1 h2 h3 h4 = record {
  small = λ i lt. ltb→lt _ _ (all_below-at 26 (λ i. ltb (entry wheel i) 26) i h1 lt);
  back_small = λ i lt. ltb→lt _ _ (all_below-at 26 (λ i. ltb (entry back i) 26) i h2 lt);
  there_back = λ i lt. ==→eq _ _ (all_below-at 26 (λ i. entry back (entry wheel i) == i) i h3 lt);
  back_there = λ i lt. ==→eq _ _ (all_below-at 26 (λ i. entry wheel (entry back i) == i) i h4 lt);
}

Undoes-IsWheel : (wheel back : List ℕ) → length wheel ≡ 26 → Undoes wheel back → IsWheel wheel
Undoes-IsWheel wheel back size u = record {
  place = entry back;
  size = size;
  small = u.small;
  placed = u.there_back;
  full = u.back_there;
  place_small = u.back_small;
}

abbrev turned_wheel2 : List ℕ
turned_wheel2 =
    21 ∷ 23 ∷ 25 ∷ 24 ∷ 22 ∷ 20 ∷ 0 ∷ 1 ∷ 2 ∷ 3 ∷ 4 ∷ 5 ∷ 6 ∷ 7 ∷ 8 ∷ 9 ∷ 10 ∷ 11 ∷ 12 ∷ 13 ∷ 14
    ∷ 15 ∷ 16 ∷ 17 ∷ 18 ∷ 19 ∷ []

pub start_wheel-IsWheel : IsWheel start_wheel
unfolding all_below
start_wheel-IsWheel =
    Undoes-IsWheel start_wheel start_wheel refl
      (tables-Undoes start_wheel start_wheel refl refl refl refl)

pub start_wheel2-IsWheel : IsWheel start_wheel2
unfolding all_below
start_wheel2-IsWheel =
    Undoes-IsWheel start_wheel2 turned_wheel2 refl
      (tables-Undoes start_wheel2 turned_wheel2 refl refl refl refl)

reflect-Undoes : Undoes reflect reflect
unfolding all_below
reflect-Undoes = tables-Undoes reflect reflect refl refl refl refl

abbrev blank : List ℕ
blank = replicate wheel_size 0

-- With any wheel in the first place, the machine is ready.
pub boot-IsReady : (wheel1 : List ℕ) → IsWheel wheel1 → IsReady (boot wheel1)
unfolding boot
boot-IsReady wheel1 w = record {
  wheel1 = (calc_rev_wheel-Undoes wheel1 blank w (omega arith)).1;
  wheel2 = (calc_rev_wheel-Undoes start_wheel blank start_wheel-IsWheel (omega arith)).1;
  wheel3 = (calc_rev_wheel-Undoes start_wheel blank start_wheel-IsWheel (omega arith)).1;
  mirror = reflect-Undoes;
  below1 = omega arith;
  below2 = omega arith;
  below3 = omega arith;
}

pub reset_wheels-IsReady : (m : Machine) → IsReady m → IsReady (reset_wheels m)
unfolding reset_wheels
reset_wheels-IsReady m h = record {
  wheel1 = h.wheel1;
  wheel2 = h.wheel2;
  wheel3 = h.wheel3;
  mirror = h.mirror;
  below1 = omega arith;
  below2 = omega arith;
  below3 = omega arith;
}
