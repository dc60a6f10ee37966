-- ===== src/Base/Lists.antt =====
-- List functions that count by the native numbers.
use Prim.Native.Nat.{ℕ, zero, suc, ◌+◌, ◌<◌, ◌≤◌}
use mathlib.Core.Path.{◌≡◌, refl, ap}
use mathlib.Core.Logic.{◌≢◌}
use mathlib.Core.List.{List, [], ◌∷◌, ◌++◌}
use native.Mathlib.Omega.{arith}
use mathlib.Core.Option.{Option, none, some}

module _ {ℓ} {A : Type ℓ} where
  abbrev pub length : List A → ℕ
  length [] = 0
  length (_ ∷ xs) = suc (length xs)

  abbrev pub get_elem? : List A → ℕ → Option A
  get_elem? [] i = none
  get_elem? (x ∷ xs) zero = some x
  get_elem? (x ∷ xs) (suc i) = get_elem? xs i

  abbrev pub take : ℕ → List A → List A
  take zero xs = []
  take (suc n) [] = []
  take (suc n) (x ∷ xs) = x ∷ take n xs

pub take-all {ℓ} : {A : Type ℓ} → (n : ℕ) (xs : List A) → length xs ≤ n → take n xs ≡ xs
take-all zero [] h = refl
take-all zero (x ∷ xs) h = absurd (omega arith)
take-all (suc n) [] h = refl
take-all (suc n) (x ∷ xs) h = ap (λ l. x ∷ l) (take-all n xs (omega arith))

infixl 5 ◌>>=◌
abbrev pub ◌>>=◌ {ℓ ℓ'} : {A : Type ℓ} → {B : Type ℓ'} → Option A → (A → Option B) → Option B
none >>= f = none
some a >>= f = f a

-- Element `i`; 0 past the end.
abbrev pub entry : List ℕ → ℕ → ℕ
entry [] i = 0
entry (x ∷ xs) zero = x
entry (x ∷ xs) (suc i) = entry xs i

-- The list with element `i` replaced; the list itself past its end.
abbrev pub set_entry : List ℕ → ℕ → ℕ → List ℕ
set_entry [] i v = []
set_entry (x ∷ xs) zero v = v ∷ xs
set_entry (x ∷ xs) (suc i) v = x ∷ set_entry xs i v

abbrev pub replicate {ℓ} : {A : Type ℓ} → ℕ → A → List A
replicate zero x = []
replicate (suc n) x = x ∷ replicate n x

pub length-set_entry : (xs : List ℕ) (i v : ℕ) → length (set_entry xs i v) ≡ length xs
length-set_entry [] i v = refl
length-set_entry (x ∷ xs) zero v = refl
length-set_entry (x ∷ xs) (suc i) v = ap suc (length-set_entry xs i v)

pub entry-set_entry : (xs : List ℕ) (i v : ℕ) → i < length xs → entry (set_entry xs i v) i ≡ v
entry-set_entry [] i v lt = absurd (omega arith)
entry-set_entry (x ∷ xs) zero v lt = refl
entry-set_entry (x ∷ xs) (suc i) v lt = entry-set_entry xs i v (omega arith)

pub entry-set_entry_other :
    (xs : List ℕ) (i j v : ℕ) → i ≢ j → entry (set_entry xs i v) j ≡ entry xs j
entry-set_entry_other [] i j v ne = refl
entry-set_entry_other (x ∷ xs) zero zero v ne = absurd (ne refl)
entry-set_entry_other (x ∷ xs) zero (suc j) v ne = refl
entry-set_entry_other (x ∷ xs) (suc i) zero v ne = refl
entry-set_entry_other (x ∷ xs) (suc i) (suc j) v ne =
    entry-set_entry_other xs i j v (λ e. ne (ap suc e))

pub length-append {ℓ} : {A : Type ℓ} (xs ys : List A) → length (xs ++ ys) ≡ length xs + length ys
length-append [] ys = omega arith
length-append (x ∷ xs) ys = omega (arith, length-append xs ys)
