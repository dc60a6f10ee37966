-- ===== src/Enigma/Messages.antt =====
-- userspace/shared_mem/src/main.c: what the thread `enc` makes of a message.
use zephyr_samples.Base.{
  ℕ, zero, suc, ◌-◌, ◌≤◌, ◌≡◌, refl, ap, ◌∙◌, true, false, if◌then◌else◌, ◌==◌, List, [], ◌∷◌, ◌++◌,
  arith, inl, inr, Bool-cases, take, take-all, length, length-append, replicate,
}
use zephyr_samples.Enigma.{
  Machine, update_wheel_index, enig_enc, is_letter, enc_text, enc_block, reset_wheels,
  samp_blocksize,
}
use zephyr_samples.Enigma.Paths.{
  IsReady, enig_enc-enig_enc, update_wheel_index-IsReady, enig_enc-moves,
}

-- The lower-case letters in front of the first zero.
unfoldable pub letters : List ℕ → List ℕ
letters [] = []
letters (c ∷ text) =
    let rest = letters text in if c == 0 then [] else if is_letter c then c ∷ rest else rest

enc_text-zeros : (k : ℕ) (m : Machine) → enc_text (replicate k 0) m ≡ ([], m)
unfolding enc_text
enc_text-zeros zero m = refl
enc_text-zeros (suc k) m = refl

enc_text-nil :
    (m : Machine) (k : ℕ)
    → enc_text ((enc_text [] m).0 ++ replicate k 0) m ≡ ([], (enc_text [] m).1)
unfolding enc_text
enc_text-nil m k = enc_text-zeros k m

letter_nonzero : (c : ℕ) → is_letter c ≡ true → (c == 0) ≡ false
letter_nonzero c h = ground arith

enc_text-letter :
    (c : ℕ) (text : List ℕ) (m : Machine)
    → is_letter c ≡ true
    → enc_text (c ∷ text) m
      ≡ ((enig_enc c m).0 ∷ (enc_text text (enig_enc c m).1).0, (enc_text text (enig_enc c m).1).1)
unfolding enc_text
enc_text-letter c text m h = rw (letter_nonzero c h, h) refl

-- The three ways of the loop.
enc_text-end :
    (c : ℕ) (text : List ℕ) (m : Machine) → (c == 0) ≡ true → enc_text (c ∷ text) m ≡ ([], m)
unfolding enc_text
enc_text-end c text m h = rw h refl

enc_text-other :
    (c : ℕ) (text : List ℕ) (m : Machine)
    → (c == 0) ≡ false
    → is_letter c ≡ false
    → enc_text (c ∷ text) m ≡ enc_text text m
unfolding enc_text
enc_text-other c text m h h' = rw (h, h') refl

-- The encoder takes its own output back.
pub enc_text-enc_text :
    (text : List ℕ) (m : Machine) (k : ℕ)
    → IsReady m
    → enc_text ((enc_text text m).0 ++ replicate k 0) m ≡ (letters text, (enc_text text m).1)
unfolding letters
enc_text-enc_text [] m k h = enc_text-nil m k
enc_text-enc_text (c ∷ text) m k h = elim (Bool-cases (c == 0)) [
  | inl e ↦ rw (enc_text-end c text m e, e) (enc_text-zeros k m)
  | inr e ↦ elim (Bool-cases (is_letter c)) [
    | inr e' ↦ rw (enc_text-other c text m e e', e, e') (enc_text-enc_text text m k h)
    | inl e' ↦
        let (is, back) = enig_enc-enig_enc m c h e' in
        let m1 = update_wheel_index m in
        let rest = (enc_text text m1).0 ++ replicate k 0 in
        rw (enc_text-letter c text m e', e, e', enig_enc-moves m c e')
          (enc_text-letter (enig_enc c m).0 rest m is
            ∙ rw back (
                ap (λ (p : List ℕ × Machine). (c ∷ p.0, p.1))
                  (enc_text-enc_text text m1 k (update_wheel_index-IsReady m h))))
  ]
]

length-replicate : (n : ℕ) → length {A = ℕ} (replicate n 0) ≡ n
length-replicate zero = refl
length-replicate (suc n) = ap suc (length-replicate n)

length-fill : (n : ℕ) (xs : List ℕ) → length xs ≤ n → length (xs ++ replicate (n - length xs) 0) ≤ n
length-fill n xs h =
    omega
      (arith, h, length-append xs (replicate (n - length xs) 0), length-replicate (n - length xs))

length-enc_text : (text : List ℕ) (m : Machine) → length (enc_text text m).0 ≤ length text
unfolding enc_text
length-enc_text [] m = omega arith
length-enc_text (c ∷ text) m =
    ground (arith, length-enc_text text m, length-enc_text text (enig_enc c m).1)

length-take : (n : ℕ) (xs : List ℕ) → length (take n xs) ≤ n
length-take zero xs = omega arith
length-take (suc n) [] = omega arith
length-take (suc n) (x ∷ xs) = omega (arith, length-take n xs)

length-letters : (text : List ℕ) → length (letters text) ≤ length text
unfolding letters
length-letters [] = omega arith
length-letters (c ∷ text) = ground (arith, length-letters text)

-- The machine after a message differs in its counters alone, which the next message resets.
reset-enig_enc : (c : ℕ) (m : Machine) → reset_wheels (enig_enc c m).1 ≡ reset_wheels m
unfolding reset_wheels enig_enc update_wheel_index
reset-enig_enc c m = ground arith

reset-enc_text : (text : List ℕ) (m : Machine) → reset_wheels (enc_text text m).1 ≡ reset_wheels m
unfolding enc_text
reset-enc_text [] m = refl
reset-enc_text (c ∷ text) m =
    ground (arith, reset-enc_text text m, reset-enc_text text (enig_enc c m).1, reset-enig_enc c m)

reset_twice : (m : Machine) → reset_wheels (reset_wheels m) ≡ reset_wheels m
unfolding reset_wheels
reset_twice m = refl

-- A block that is encoded, and whose result is encoded by the machine as it is then, gives the
-- lower-case letters of the text in front of its first zero, filled up with zeros to 50 bytes; if
-- the machine with its counters reset is ready.
pub enc_block-enc_block :
    (block : List ℕ) (m : Machine)
    → IsReady (reset_wheels m)
    → (enc_block (enc_block block m).0 (enc_block block m).1).0
      ≡ letters (take samp_blocksize block)
        ++ replicate (samp_blocksize - length (letters (take samp_blocksize block))) 0
unfolding enc_block
enc_block-enc_block block m h =
    let text = take samp_blocksize block in
    let cts = (enc_text text (reset_wheels m)).0 in
    let fill = length cts in
    let short : length cts ≤ samp_blocksize =
      omega (arith, length-enc_text text (reset_wheels m), length-take samp_blocksize block) in
    rw
      (
        reset-enc_text text (reset_wheels m),
        reset_twice m,
        take-all samp_blocksize (cts ++ replicate (samp_blocksize - length cts) 0)
            (length-fill samp_blocksize cts short),
        enc_text-enc_text text (reset_wheels m) (samp_blocksize - length cts) h,
      )
      refl
