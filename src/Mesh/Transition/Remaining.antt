-- ===== src/Mesh/Transition/Remaining.antt =====
-- The remaining time of a transition as one byte: `encode_remaining` against `duration_of`, which
-- reads such a byte.
use zephyr_samples.Base.{
  ℕ, ◌+◌, ◌*◌, ◌/◌, ◌%◌, ◌^◌, ◌≤◌, ◌<◌, ◌≡◌, arith, ltb, if◌then◌else◌, Bool-cases, inl, inr, refl,
  true, Bool, ◌||◌, ◌==◌, ◌≢◌, all_below, all_below-at, ==→eq, ltb→lt,
}
use zephyr_samples.Base.Int.{pos}
use zephyr_samples.Base.Bits.{bit_or_shifted}
use zephyr_samples.Mesh.Transition.{encode_remaining, duration_of}

-- The milliseconds that a transition time byte stands for, and those of one of its steps.
abbrev pub duration : ℕ → ℕ
duration b = duration_of (b / 2 ^ 6) (b % 64)

abbrev pub resolution_of : ℕ → ℕ
resolution_of b = duration_of (b / 2 ^ 6) 1

-- The four results without bit operations.
byte_of_remaining :
    (n : ℕ)
    → n ≤ 63 * 600000
    → encode_remaining (pos n) ≡ (
        if ltb 620000 n
        then 192 + n / 600000
        else if ltb 62000 n
        then 128 + n / 10000
        else if ltb 6200 n
        then 64 + n / 1000
        else n / 100)
unfolding encode_remaining
byte_of_remaining n h = ground (
  arith,
  bit_or_shifted 6 3 (n / 600000 % 256),
  bit_or_shifted 6 2 (n / 10000 % 256),
  bit_or_shifted 6 1 (n / 1000 % 256),
  bit_or_shifted 6 0 (n / 100 % 256),
  bit_or_shifted 6 0 0,
)

abbrev Fits : ℕ → ℕ → Type 0
Fits n b = (b < 256) × (b % 64 ≤ 62) × (duration b ≤ n) × (n < duration b + resolution_of b)

-- A byte of known fields stands for the steps of its resolution.
duration_of_fields : (r s : ℕ) → s < 64 → duration (r * 64 + s) ≡ duration_of r s
duration_of_fields r s h =
    let q : (r * 64 + s) / 2 ^ 6 ≡ r = omega arith in
    let m : (r * 64 + s) % 64 ≡ s = omega arith in rw (q, m)

resolution_of_fields : (r s : ℕ) → s < 64 → resolution_of (r * 64 + s) ≡ duration_of r 1
resolution_of_fields r s h = let q : (r * 64 + s) / 2 ^ 6 ≡ r = omega arith in rw q

fields_fit :
    (n r s unit : ℕ)
    → r < 4
    → s ≤ 62
    → duration_of r s ≡ s * unit
    → duration_of r 1 ≡ unit
    → s * unit ≤ n
    → n < s * unit + unit
    → Fits n (r * 64 + s)
fields_fit n r s unit hr hs d1 d2 lo hi = (
  omega arith,
  omega arith,
  rw (duration_of_fields r s (omega arith)) (omega arith),
  rw (duration_of_fields r s (omega arith), resolution_of_fields r s (omega arith)) (omega arith),
)

minutes_fit : (n : ℕ) → 620000 < n → n < 63 * 600000 → Fits n (192 + n / 600000)
unfolding duration_of
minutes_fit n lo hi =
    fields_fit n 3 (n / 600000) 600000 (omega arith) (omega arith) refl refl (omega arith)
      (omega arith)

ten_seconds_fit : (n : ℕ) → n ≤ 620000 → Fits n (128 + n / 10000)
unfolding duration_of
ten_seconds_fit n hi =
    fields_fit n 2 (n / 10000) 10000 (omega arith) (omega arith) refl refl (omega arith)
      (omega arith)

seconds_fit : (n : ℕ) → n ≤ 62000 → Fits n (64 + n / 1000)
unfolding duration_of
seconds_fit n hi =
    fields_fit n 1 (n / 1000) 1000 (omega arith) (omega arith) refl refl (omega arith) (omega arith)

tenths_fit : (n : ℕ) → n ≤ 6200 → Fits n (n / 100)
unfolding duration_of
tenths_fit n hi =
    let low : 0 + n / 100 ≡ n / 100 = omega arith in
    rw low at (
      fields_fit n 0 (n / 100) 100 (omega arith) (omega arith) refl refl (omega arith)
        (omega arith))

byte-Fits :
    (n : ℕ)
    → n < 63 * 600000
    → Fits n (
        if ltb 620000 n
        then 192 + n / 600000
        else if ltb 62000 n
        then 128 + n / 10000
        else if ltb 6200 n
        then 64 + n / 1000
        else n / 100)
byte-Fits n h = elim (Bool-cases (ltb 620000 n)) [
  | inl e ↦ rw e (minutes_fit n (omega (arith, ltb→lt 620000 n e)) h)
  | inr e1 ↦ elim (Bool-cases (ltb 62000 n)) [
    | inl e ↦ rw (e1, e) (ten_seconds_fit n (ground arith))
    | inr e2 ↦ elim (Bool-cases (ltb 6200 n)) [
      | inl e ↦ rw (e1, e2, e) (seconds_fit n (ground arith))
      | inr e3 ↦ rw (e1, e2, e3) (tenths_fit n (ground arith))
    ]
  ]
]

-- Up to the longest transition the byte fits, never says "unknown", and stands for the time that is
-- left to within one step of its resolution.
pub encode_remaining_bounds :
    (n : ℕ)
    → n < 63 * 600000
    → let b = encode_remaining (pos n) in
      (b < 256) × (b % 64 ≤ 62) × (duration b ≤ n) × (n < duration b + resolution_of b)
encode_remaining_bounds n h = rw (byte_of_remaining n (omega arith)) (byte-Fits n h)

keeps_duration : ℕ → Bool
unfolding encode_remaining duration_of
keeps_duration b = b % 64 == 63 || duration (encode_remaining (pos (duration b))) == duration b

durations : all_below 256 keeps_duration ≡ true
unfolding all_below keeps_duration encode_remaining duration_of
durations = refl

-- Of every transition time that a message may carry, the byte encoded for it stands for exactly the
-- same number of milliseconds.
pub duration-encode_remaining :
    (b : ℕ) → b < 256 → b % 64 ≢ 63 → duration (encode_remaining (pos (duration b))) ≡ duration b
unfolding keeps_duration
duration-encode_remaining b h known =
    ==→eq _ _ (ground (arith, all_below-at 256 keeps_duration b durations h))
