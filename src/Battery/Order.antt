-- ===== src/Battery/Order.antt =====
-- boards/nrf/battery/src/battery.c: the levels of two voltages.
use zephyr_samples.Base.{
  ℕ, ◌+◌, ◌-◌, ◌<◌, ◌≤◌, ◌≡◌, sym, ap, ◌∙◌, [], ◌∷◌, some, inl, inr, lt_or_le, arith,
}
use zephyr_samples.Battery.{BatteryLevelPoint, Curve, go_down, battery_level_pptt}
use zephyr_samples.Battery.Level.{
  Descends, at_zero, down, line, interpolate-line, Below, quotient_mono, go_on, stop_at, stop_zero,
  go_down-Found, enters, capped, battery_level_total,
}

-- Of two voltages below the first point, the higher gives no lower level.
Ordered : ℕ → ℕ → BatteryLevelPoint → BatteryLevelPoint → Curve → Type 0
Ordered mv mv' pa pb curve =
    (l l' : ℕ) → go_down mv pa pb curve ≡ some l → go_down mv' pa pb curve ≡ some l' → l ≤ l'

line_mono :
    (mv mv' : ℕ) (pa pb : BatteryLevelPoint)
    → pb.lvl_mv ≤ mv
    → mv ≤ mv'
    → mv' < pa.lvl_mv
    → line mv pa pb ≤ line mv' pa pb
line_mono mv mv' pa pb le1 le2 lt =
    quotient_mono (pa.lvl_pptt - pb.lvl_pptt) (mv - pb.lvl_mv) (mv' - pb.lvl_mv)
      (pa.lvl_mv - pb.lvl_mv) (omega arith) (omega arith)

some-eq : (a b : ℕ) → some a ≡ some b → a ≡ b
some-eq a b e = ground arith

stop_level :
    (mv : ℕ) (pa pb : BatteryLevelPoint) (curve : Curve) (l : ℕ)
    → Below mv pa pb
    → pb.lvl_mv ≤ mv
    → go_down mv pa pb curve ≡ some l
    → l ≡ pb.lvl_pptt + line mv pa pb
stop_level mv pa pb curve l b le e = some-eq l (pb.lvl_pptt + line mv pa pb) (
    sym e
    ∙ (stop_at mv pa pb curve le
        ∙ ap some (interpolate-line mv pa pb b.falls b.pptt16 b.mv16 le b.under)))

stop-Ordered :
    (mv mv' : ℕ) (pa pb : BatteryLevelPoint) (curve : Curve)
    → Below mv' pa pb
    → pb.lvl_mv ≤ mv
    → mv ≤ mv'
    → Ordered mv mv' pa pb curve
unfolding Ordered
stop-Ordered mv mv' pa pb curve b le1 le2 l l' e e' =
    let b' : Below mv pa pb = record {
      under = omega (arith, b.under);
      falls = b.falls;
      pptt16 = b.pptt16;
      mv16 = b.mv16;
    } in
    omega (
      arith,
      stop_level mv pa pb curve l b' le1 e,
      stop_level mv' pa pb curve l' b (omega arith) e',
      line_mono mv mv' pa pb le1 le2 b.under,
    )

go_down-Ordered :
    (mv mv' : ℕ) (pa pb : BatteryLevelPoint) (curve : Curve)
    → Descends pb curve
    → Below mv' pa pb
    → mv ≤ mv'
    → Ordered mv mv' pa pb curve
unfolding Ordered
go_down-Ordered mv mv' pa pb _ (at_zero _ z) b le l l' e e' = elim (lt_or_le mv pb.lvl_mv) [
  | inl lt ↦ omega (arith, some-eq l 0 (sym e ∙ stop_zero mv pa pb z lt))
  | inr le' ↦ stop-Ordered mv mv' pa pb [] b le' le l l' e e'
]
go_down-Ordered mv mv' pa pb _ (down _ q curve lt1 lt2 lt3 lt4 d) b le l l' e e' =
    elim (lt_or_le mv pb.lvl_mv) [
      | inr le' ↦ stop-Ordered mv mv' pa pb (q ∷ curve) b le' le l l' e e'
      | inl lt ↦
          let f = sym (go_on mv pa pb q curve (omega arith) lt) ∙ e in
          elim (lt_or_le mv' pb.lvl_mv) [
            | inl lt' ↦
                go_down-Ordered mv mv' pb q curve d
                  (record { under = lt'; falls = lt1; pptt16 = lt3; mv16 = lt4 }) le l l' f
                  (sym (go_on mv' pa pb q curve (omega arith) lt') ∙ e')
            | inr le' ↦
                let (level, g, top) =
                  go_down-Found mv pb q curve d
                    (record { under = lt; falls = lt1; pptt16 = lt3; mv16 = lt4 }) in
                omega (
                  arith,
                  some-eq l level (sym f ∙ g),
                  stop_level mv' pa pb (q ∷ curve) l' b le' e',
                  top,
                )
          ]
    ]

first-Ordered :
    (mv mv' : ℕ) (p : BatteryLevelPoint) (curve : Curve)
    → Descends p curve
    → mv' < p.lvl_mv
    → mv ≤ mv'
    → Ordered mv mv' p p curve
unfolding Ordered
first-Ordered mv mv' p _ (at_zero _ z) lt le l l' e e' =
    omega (arith, some-eq l 0 (sym e ∙ stop_zero mv p p z (omega arith)))
first-Ordered mv mv' p _ (down _ q curve lt1 lt2 lt3 lt4 d) lt le l l' e e' =
    go_down-Ordered mv mv' p q curve d
      (record { under = lt; falls = lt1; pptt16 = lt3; mv16 = lt4 }) le l l'
      (sym (go_on mv p p q curve (omega arith) (omega arith)) ∙ e)
      (sym (go_on mv' p p q curve (omega arith) lt) ∙ e')

-- On a curve of 16-bit numbers that goes down to the level 0, of two voltages the higher gives no
-- lower level, whether they fall between the same points or not.
pub battery_level_mono :
    (mv mv' : ℕ) (p : BatteryLevelPoint) (curve : Curve)
    → Descends p curve
    → mv ≤ mv'
    → (l l' : ℕ) → battery_level_pptt mv (p ∷ curve) ≡ some l
    → battery_level_pptt mv' (p ∷ curve) ≡ some l'
    → l ≤ l'
unfolding Ordered
battery_level_mono mv mv' p curve d le l l' e e' = elim (lt_or_le mv' p.lvl_mv) [
  | inl lt ↦
      first-Ordered mv mv' p curve d lt le l l' (sym (enters mv p curve (omega arith)) ∙ e)
        (sym (enters mv' p curve lt) ∙ e')
  | inr above ↦
      let (level, f, top) = battery_level_total mv p curve d in
      omega (
        arith,
        some-eq l level (sym e ∙ f),
        some-eq l' p.lvl_pptt (sym e' ∙ capped mv' p curve above),
        top,
      )
]
