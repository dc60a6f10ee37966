-- ===== src/Wpan/Writing.antt =====
-- net/wpan_serial/src/main.c: the loop of `try_write`.
use zephyr_samples.Base.{ℕ, zero, suc, ◌+◌, ◌-◌, ◌≤◌, ◌<◌, ◌≡◌, ap, ◌∙◌, some, false, arith}
use zephyr_samples.Base.Int.{ℤ, pos, ltb_ℤ, ◌-ℤ◌}
use zephyr_samples.Base.Words.{to_u16}
use zephyr_samples.Wpan.{try_write}

-- The documented behaviour of `uart_fifo_fill` on a line that is up: it takes a byte at least, and
-- no more than it was given.
pub record Drains (fill : ℕ → ℕ → ℕ → ℤ) : Type 0 where
  pub taken : ℕ → ℕ → ℕ → ℕ
  pub takes : (n moved len : ℕ) → fill n moved (suc len) ≡ pos (suc (taken n moved len))
  pub bounded : (n moved len : ℕ) → taken n moved len ≤ len

-- The length that is left, in its 16 bits.
len_left : (len wrote : ℕ) → wrote ≤ len → len < 65536 → to_u16 (pos len -ℤ pos wrote) ≡ len - wrote
unfolding ◌-ℤ◌
len_left len wrote le lt = ground arith

-- One round of the loop.
try_write_round :
    (fill : ℕ → ℕ → ℕ → ℤ) (fuel n moved len k : ℕ)
    → fill n moved (suc len) ≡ pos (suc k)
    → k ≤ len
    → suc len < 65536
    → try_write fill (suc fuel) n moved (suc len)
      ≡ try_write fill fuel (suc n) (moved + suc k) (suc len - suc k)
unfolding try_write
try_write_round fill fuel n moved len k h le lt =
    rw (h, len_left (suc len) (suc k) (omega arith) lt) (ground arith)

-- If each call of uart_fifo_fill takes a byte at least and no more than it is given, the loop ends
-- within len + 1 rounds, returns 0, and has written all len bytes, for every len of 16 bits.
pub try_write_total :
    (fill : ℕ → ℕ → ℕ → ℤ)
    → Drains fill
    → (fuel n moved len : ℕ) → len < fuel
    → len < 65536
    → try_write fill fuel n moved len ≡ some (pos 0, moved + len)
unfolding try_write
try_write_total fill d zero n moved len enough lt = absurd (omega arith)
try_write_total fill d (suc fuel) n moved zero enough lt = ap (λ m. some (pos 0, m)) (omega arith)
try_write_total fill d (suc fuel) n moved (suc len) enough lt =
    let k = d.taken n moved len in
    let le = d.bounded n moved len in
    try_write_round fill fuel n moved len k (d.takes n moved len) le lt
    ∙ (try_write_total fill d fuel (suc n) (moved + suc k) (suc len - suc k) (omega arith)
          (omega arith)
        ∙ ap (λ m. some (pos 0, m)) (omega arith))

-- An error of the driver, or no room, ends the loop with that value.
pub try_write_stops :
    (fill : ℕ → ℕ → ℕ → ℤ) (fuel n moved len : ℕ)
    → ltb_ℤ (pos 0) (fill n moved (suc len)) ≡ false
    → try_write fill (suc fuel) n moved (suc len) ≡ some (fill n moved (suc len), moved)
unfolding try_write
try_write_stops fill fuel n moved len h = rw h (ground arith)
