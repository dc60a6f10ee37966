-- ===== src/Battery/Level.antt =====
-- boards/nrf/battery/src/battery.c: the level between the points of a curve.
use zephyr_samples.Base.{
  ℕ, ◌+◌, ◌-◌, ◌*◌, ◌/◌, ◌%◌, ◌<◌, ◌≤◌, ◌≡◌, refl, ap, subst, ◌∙◌, true, [], ◌∷◌, some, inl, inr,
  lt→ltb, lt_or_le, arith,
}
use zephyr_samples.Base.Int.{ℤ, pos, ◌-ℤ◌}
use zephyr_samples.Base.Words.{to_u32, to_s32_fits}
use zephyr_samples.Battery.{
  BatteryLevelPoint, Curve, interpolate, go_down, battery_level_pptt, Divider, battery_sample,
}
use native.Mathlib.Nat.{
  mod-eq_of_lt, mul_comm, mul-le-mul, div-le_of_le-mul, le-div_iff_mul-le, div-mul-le_self,
  mul-le-mul_left, le_trans,
}

-- A curve that goes down to 0, in level and in voltage, in 16 bits.
pub data Descends : BatteryLevelPoint → Curve → Type 0 where
  at_zero : (p : BatteryLevelPoint) → p.lvl_pptt ≡ 0 → Descends p []
  down :
      (p q : BatteryLevelPoint) (curve : Curve)
      → q.lvl_pptt < p.lvl_pptt
      → q.lvl_mv < p.lvl_mv
      → p.lvl_pptt < 65536
      → p.lvl_mv < 65536
      → Descends q curve
      → Descends p (q ∷ curve)

-- Between two points whose numbers have 16 bits, no product and no sum is cut.
product-lt : (x y : ℕ) → x < 65536 → y < 65536 → x * y < 4294967296
product-lt x y ltx lty =
    let le : x * y ≤ 65535 * 65535 =
      mul-le-mul {n₂ = 65535} {m₂ = 65535} (omega arith) (omega arith) in
    omega (arith, le)

quotient_le : (x y d : ℕ) → y ≤ d → x * y / d ≤ x
quotient_le x y d le =
    div-le_of_le-mul d (subst (λ k. x * y ≤ k) (mul_comm x d) (mul-le-mul (omega arith) le))

pub quotient_mono : (x y z d : ℕ) → 0 < d → y ≤ z → x * y / d ≤ x * z / d
quotient_mono x y z d some' le =
    (le-div_iff_mul-le some').1 (le_trans (div-mul-le_self (x * y) d) (mul-le-mul_left x le))

-- The line between two points.
abbrev pub line : ℕ → BatteryLevelPoint → BatteryLevelPoint → ℕ
line mv pa pb = (pa.lvl_pptt - pb.lvl_pptt) * (mv - pb.lvl_mv) / (pa.lvl_mv - pb.lvl_mv)

pub interpolate-line :
    (mv : ℕ) (pa pb : BatteryLevelPoint)
    → pb.lvl_pptt < pa.lvl_pptt
    → pa.lvl_pptt < 65536
    → pa.lvl_mv < 65536
    → pb.lvl_mv ≤ mv
    → mv < pa.lvl_mv
    → interpolate mv pa pb ≡ pb.lvl_pptt + line mv pa pb
unfolding interpolate ◌-ℤ◌
interpolate-line mv pa pb lt lt1 lt2 le lt3 =
    let e1 : to_u32 (pos pa.lvl_pptt -ℤ pos pb.lvl_pptt) ≡ pa.lvl_pptt - pb.lvl_pptt =
      ground arith in
    let e2 : to_u32 (pos mv -ℤ pos pb.lvl_mv) ≡ mv - pb.lvl_mv = ground arith in
    let e3 : to_u32 (pos pa.lvl_mv -ℤ pos pb.lvl_mv) ≡ pa.lvl_mv - pb.lvl_mv = ground arith in
    let small : (pa.lvl_pptt - pb.lvl_pptt) * (mv - pb.lvl_mv) < 4294967296 =
      product-lt (pa.lvl_pptt - pb.lvl_pptt) (mv - pb.lvl_mv) (omega arith) (omega arith) in
    let q_le : line mv pa pb ≤ pa.lvl_pptt - pb.lvl_pptt =
      quotient_le (pa.lvl_pptt - pb.lvl_pptt) (mv - pb.lvl_mv) (pa.lvl_mv - pb.lvl_mv)
        (omega arith) in
    rw (e1, e2, e3, mod-eq_of_lt small) (mod-eq_of_lt (omega (arith, q_le)))

-- The steps of the loop: past a point above the voltage, and to the end at one that is not.
pub go_on :
    (mv : ℕ) (pa pb q : BatteryLevelPoint) (curve : Curve)
    → 0 < pb.lvl_pptt
    → mv < pb.lvl_mv
    → go_down mv pa pb (q ∷ curve) ≡ go_down mv pb q curve
unfolding go_down
go_on mv pa pb q curve some' lt = rw (lt→ltb _ _ some', lt→ltb _ _ lt) refl

pub stop_at :
    (mv : ℕ) (pa pb : BatteryLevelPoint) (curve : Curve)
    → pb.lvl_mv ≤ mv
    → go_down mv pa pb curve ≡ some (interpolate mv pa pb)
unfolding go_down
stop_at mv pa pb [] le = ground arith
stop_at mv pa pb (q ∷ curve) le = ground arith

pub stop_zero :
    (mv : ℕ) (pa pb : BatteryLevelPoint)
    → pb.lvl_pptt ≡ 0
    → mv < pb.lvl_mv
    → go_down mv pa pb [] ≡ some 0
unfolding go_down
stop_zero mv pa pb zero' lt = ground arith

-- The points around the voltage, if `pa` is above it and `pb` is the next one.
pub record Below (mv : ℕ) (pa pb : BatteryLevelPoint) : Type 0 where
  pub under : mv < pa.lvl_mv
  pub falls : pb.lvl_pptt < pa.lvl_pptt
  pub pptt16 : pa.lvl_pptt < 65536
  pub mv16 : pa.lvl_mv < 65536

abbrev pub Found : ℕ → BatteryLevelPoint → BatteryLevelPoint → Curve → Type 0
Found mv pa pb curve = (level : ℕ) × (go_down mv pa pb curve ≡ some level) × (level ≤ pa.lvl_pptt)

stop-Found :
    (mv : ℕ) (pa pb : BatteryLevelPoint) (curve : Curve)
    → Below mv pa pb
    → pb.lvl_mv ≤ mv
    → Found mv pa pb curve
stop-Found mv pa pb curve b le =
    let q_le : line mv pa pb ≤ pa.lvl_pptt - pb.lvl_pptt =
      quotient_le (pa.lvl_pptt - pb.lvl_pptt) (mv - pb.lvl_mv) (pa.lvl_mv - pb.lvl_mv)
        (omega (arith, b.under)) in
    (
      pb.lvl_pptt + line mv pa pb,
      stop_at mv pa pb curve le
          ∙ ap some (interpolate-line mv pa pb b.falls b.pptt16 b.mv16 le b.under),
      omega (arith, q_le, b.falls),
    )

pub go_down-Found :
    (mv : ℕ) (pa pb : BatteryLevelPoint) (curve : Curve)
    → Descends pb curve
    → Below mv pa pb
    → Found mv pa pb curve
go_down-Found mv pa pb _ (at_zero _ e) b = elim (lt_or_le mv pb.lvl_mv) [
  | inl lt ↦ (0, stop_zero mv pa pb e lt, omega arith)
  | inr le ↦ stop-Found mv pa pb [] b le
]
go_down-Found mv pa pb _ (down _ q curve lt1 lt2 lt3 lt4 d) b = elim (lt_or_le mv pb.lvl_mv) [
  | inl lt ↦
      let (level, e, le) =
        go_down-Found mv pb q curve d
          (record { under = lt; falls = lt1; pptt16 = lt3; mv16 = lt4 }) in
      (level, go_on mv pa pb q curve (omega arith) lt ∙ e, omega (arith, b.falls, le))
  | inr le ↦ stop-Found mv pa pb (q ∷ curve) b le
]

-- The first round of the loop: the first point is above the voltage.
pub first_round :
    (mv : ℕ) (p : BatteryLevelPoint) (curve : Curve)
    → Descends p curve
    → mv < p.lvl_mv
    → Found mv p p curve
first_round mv p _ (at_zero _ e) lt = (0, stop_zero mv p p e lt, omega arith)
first_round mv p _ (down _ q curve lt1 lt2 lt3 lt4 d) lt =
    let (level, e, le) =
      go_down-Found mv p q curve d (record { under = lt; falls = lt1; pptt16 = lt3; mv16 = lt4 }) in
    (level, go_on mv p p q curve (omega arith) lt ∙ e, le)

pub enters :
    (mv : ℕ) (p : BatteryLevelPoint) (curve : Curve)
    → mv < p.lvl_mv
    → battery_level_pptt mv (p ∷ curve) ≡ go_down mv p p curve
unfolding battery_level_pptt
enters mv p curve lt = ground arith

pub capped :
    (mv : ℕ) (p : BatteryLevelPoint) (curve : Curve)
    → p.lvl_mv ≤ mv
    → battery_level_pptt mv (p ∷ curve) ≡ some p.lvl_pptt
unfolding battery_level_pptt
capped mv p curve le = ground arith

-- On a curve of 16-bit numbers that goes down to the level 0, the loop ends within the curve for
-- every voltage, and the level is at most that of the first point.
pub battery_level_total :
    (mv : ℕ) (p : BatteryLevelPoint) (curve : Curve)
    → Descends p curve
    → (level : ℕ) × (battery_level_pptt mv (p ∷ curve) ≡ some level) × (level ≤ p.lvl_pptt)
battery_level_total mv p curve d = elim (lt_or_le mv p.lvl_mv) [
  | inr le ↦ (p.lvl_pptt, capped mv p curve le, omega arith)
  | inl lt ↦
      let (level, e, le) = first_round mv p curve d lt in (level, enters mv p curve lt ∙ e, le)
]

-- What `battery_sample` gives for a reading that is not negative: the voltage in front of the divider.
pub battery_sample_value :
    (d : Divider) (raw : ℤ) (mv : ℕ)
    → d.adc_read ≡ (pos 0, raw)
    → d.adc_raw_to_millivolts raw ≡ pos mv
    → mv < 2147483648
    → mv * d.full_ohm < 18446744073709551616
    → mv * d.full_ohm / d.output_ohm < 2147483648
    → battery_sample d true ≡ pos (mv * d.full_ohm / d.output_ohm)
unfolding battery_sample
battery_sample_value d raw mv ok is s32 fits fits' =
    let small : mv % 18446744073709551616 * d.full_ohm % 18446744073709551616 ≡ mv * d.full_ohm =
      rw (mod-eq_of_lt {n = mv} {m = 18446744073709551616} (omega (arith, s32)))
        (mod-eq_of_lt fits) in
    simp (ok, is, small)
      (to_s32_fits (pos (mv * d.full_ohm / d.output_ohm)) (omega arith) (omega (arith, fits')))
