-- ===== src/Enigma/Paths.antt =====
-- userspace/shared_mem/src/enc.c: the counters, and the way of a character through the machine.
use zephyr_samples.Base.{ℕ, ◌+◌, ◌-◌, ◌*◌, ◌%◌, ◌<◌, ◌≡◌, ap, ◌∙◌, true, List, entry, arith}
use zephyr_samples.Base.Int.{pos}
use zephyr_samples.Enigma.{
  Machine, through, path, update_wheel_index, is_letter, enig_enc, index_to_char,
}
use zephyr_samples.Enigma.Wheels.{Undoes, through-through, through_back, through_small}

-- The machine between two characters: each backpath undoes its wheel, the reflector itself, and the
-- counters are below 26.
pub record IsReady (m : Machine) : Type 0 where
  pub wheel1 : Undoes m.w1 m.w1r
  pub wheel2 : Undoes m.w2 m.w2r
  pub wheel3 : Undoes m.w3 m.w3r
  pub mirror : Undoes m.r m.r
  pub below1 : m.iw1 < 26
  pub below2 : m.iw2 < 26
  pub below3 : m.iw3 < 26

-- The three counters, as the digits of one number.
abbrev pub position : Machine → ℕ
position m = m.iw1 + 26 * m.iw2 + 676 * m.iw3

-- With counters below 26, update_wheel_index adds 1 to the number whose digits to base 26 they
-- are, modulo 26 ^ 3.
pub update_wheel_index-counts :
    (m : Machine)
    → m.iw1 < 26
    → m.iw2 < 26
    → m.iw3 < 26
    → position (update_wheel_index m) ≡ (position m + 1) % 17576
unfolding update_wheel_index
update_wheel_index-counts m lt1 lt2 lt3 = ground arith

update_below :
    (m : Machine)
    → m.iw1 < 26
    → m.iw2 < 26
    → m.iw3 < 26
    → ((update_wheel_index m).iw1 < 26)
      × ((update_wheel_index m).iw2 < 26)
      × ((update_wheel_index m).iw3 < 26)
unfolding update_wheel_index
update_below m lt1 lt2 lt3 = ground arith

update_tables :
    (m : Machine)
    → update_wheel_index m ≡ record m {
      iw1 = (update_wheel_index m).iw1;
      iw2 = (update_wheel_index m).iw2;
      iw3 = (update_wheel_index m).iw3;
    }
unfolding update_wheel_index
update_tables m = ground arith

-- A map of the numbers below 26 that undoes itself.
record Swaps (f : ℕ → ℕ) : Type 0 where
  pub below : (i : ℕ) → i < 26 → f i < 26
  pub twice : (i : ℕ) → i < 26 → f (f i) ≡ i

-- A wheel on the way to it and back makes another one of it.
through-Swaps :
    (f : ℕ → ℕ) (wheel back : List ℕ) (iw : ℕ)
    → Undoes wheel back
    → iw < 26
    → Swaps f
    → Swaps (λ i. through back iw (f (through wheel iw i)))
through-Swaps f wheel back iw u lt s = record {
  below = λ i lt'. through_small back iw (f (through wheel iw i));
  twice = λ i lt'.
      ap (λ (x : ℕ). through back iw (f x))
        (through_back wheel back u iw (f (through wheel iw i)) lt
          (s.below (through wheel iw i) (through_small wheel iw i)))
      ∙ (ap (through back iw) (s.twice (through wheel iw i) (through_small wheel iw i))
          ∙ through-through wheel back u iw i lt lt');
}

path-Swaps : (m : Machine) → IsReady m → Swaps (path m)
unfolding path
path-Swaps m h = through-Swaps _ m.w1 m.w1r m.iw1 h.wheel1 h.below1 (
    through-Swaps _ m.w2 m.w2r m.iw2 h.wheel2 h.below2 (
      through-Swaps (entry m.r) m.w3 m.w3r m.iw3 h.wheel3 h.below3
        (record { below = h.mirror.small; twice = h.mirror.there_back })))

enig_enc-letter :
    (m : Machine) (c : ℕ)
    → is_letter c ≡ true
    → enig_enc c m ≡ (index_to_char (pos (path m (c - b'a'))), update_wheel_index m)
unfolding enig_enc
enig_enc-letter m c h = ground arith

pub enig_enc-moves :
    (m : Machine) (c : ℕ) → is_letter c ≡ true → (enig_enc c m).1 ≡ update_wheel_index m
enig_enc-moves m c h = ap (λ p. p.1) (enig_enc-letter m c h)

index_to_char-below : (i : ℕ) → i < 26 → index_to_char (pos i) ≡ b'a' + i
unfolding index_to_char
index_to_char-below i lt = ground arith

-- The character of a letter is a letter, and the same machine takes it back.
pub enig_enc-enig_enc :
    (m : Machine) (c : ℕ)
    → IsReady m
    → is_letter c ≡ true
    → (is_letter (enig_enc c m).0 ≡ true)
      × (enig_enc (enig_enc c m).0 m ≡ (c, update_wheel_index m))
enig_enc-enig_enc m c h letter =
    let s = path-Swaps m h in
    let i = c - b'a' in
    let lt : i < 26 = ground arith in
    let out : (enig_enc c m).0 ≡ b'a' + path m i =
      ap (λ p. p.0) (enig_enc-letter m c letter) ∙ index_to_char-below (path m i) (s.below i lt) in
    let is : is_letter (b'a' + path m i) ≡ true = ground (arith, s.below i lt) in
    let back : b'a' + path m i - b'a' ≡ path m i = omega arith in
    rw out (
      is,
      enig_enc-letter m (b'a' + path m i) is
          ∙ rw (back, s.twice i lt)
              (ap (λ x. (x, update_wheel_index m)) (index_to_char-below i lt ∙ ground arith)),
    )

pub update_wheel_index-IsReady : (m : Machine) → IsReady m → IsReady (update_wheel_index m)
update_wheel_index-IsReady m h =
    let (b1, b2, b3) = update_below m h.below1 h.below2 h.below3 in
    rw (update_tables m) (record {
      wheel1 = h.wheel1;
      wheel2 = h.wheel2;
      wheel3 = h.wheel3;
      mirror = h.mirror;
      below1 = b1;
      below2 = b2;
      below3 = b3;
    })
