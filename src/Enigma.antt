-- ===== src/Enigma.antt =====
-- userspace/shared_mem/src/enc.c and the tables of main.h: the wheels, the reflector and the encoder.
pub mod Wheels
pub mod Paths
pub mod Messages
pub mod Boot
pub mod Threads
mod Tests
use zephyr_samples.Base.{
  ℕ, suc, ◌+◌, ◌-◌, ◌*◌, ◌%◌, Bool, if◌then◌else◌, ltb, leb, ◌==◌, ◌||◌, ◌&&◌, List, [], ◌∷◌, entry,
  set_entry, ◌++◌, take, length, replicate,
}
use zephyr_samples.Base.Int.{ℤ, pos, negsuc, pos_part, ltb_ℤ, eqb_ℤ}

-- `WHEEL_SIZE`
abbrev pub wheel_size : ℕ
wheel_size = 26

-- `IMOD`
abbrev pub imod : ℕ → ℕ → ℕ
imod a b = (a + b) % wheel_size

-- `W1` to `W3`, `R`, `W1R` to `W3R` and `IW1` to `IW3`. The counters are `int`s that are never negative.
pub record Machine : Type 0 where
  pub w1 : List ℕ
  pub w2 : List ℕ
  pub w3 : List ℕ
  pub r : List ℕ
  pub w1r : List ℕ
  pub w2r : List ℕ
  pub w3r : List ℕ
  pub iw1 : ℕ
  pub iw2 : ℕ
  pub iw3 : ℕ

-- One pass through a wheel, `(W[IMOD(IW, i)] + WHEEL_SIZE - IW) % WHEEL_SIZE`.
unfoldable pub through : List ℕ → ℕ → ℕ → ℕ
through wheel iw i = (entry wheel (imod iw i) + wheel_size - iw) % wheel_size

-- `char_to_index`: a byte over 127 is no letter, whether `char` is signed or not.
unfoldable pub char_to_index : ℕ → ℤ
char_to_index c = if ltb c b'a' || ltb b'z' c then negsuc 0 else pos (c - b'a')

-- `index_to_char`
unfoldable pub index_to_char : ℤ → ℕ
index_to_char i = if ltb_ℤ i (pos 0) || ltb_ℤ (pos 25) i then 0xFF else b'a' + pos_part i

-- `update_wheel_index`
unfoldable pub carry3 : Machine → Machine
carry3 m = if leb wheel_size m.iw3 then record m { iw3 = m.iw3 % wheel_size } else m

unfoldable pub carry2 : Machine → Machine
carry2 m =
    if leb wheel_size m.iw2 then record m { iw2 = m.iw2 % wheel_size; iw3 = suc m.iw3 } else m

unfoldable pub carry1 : Machine → Machine
carry1 m =
    if leb wheel_size m.iw1 then record m { iw1 = m.iw1 % wheel_size; iw2 = suc m.iw2 } else m

unfoldable pub update_wheel_index : Machine → Machine
unfolding carry1 carry2 carry3
update_wheel_index m = carry3 (carry2 (carry1 (record m { iw1 = suc m.iw1 })))

-- The way through the wheels, the reflector, and back.
unfoldable pub path : Machine → ℕ → ℕ
unfolding through
path m i =
    let i1 = through m.w1 m.iw1 i in
    let i2 = through m.w2 m.iw2 i1 in
    let i3 = through m.w3 m.iw3 i2 in
    let b3 = through m.w3r m.iw3 (entry m.r i3) in
    let b2 = through m.w2r m.iw2 b3 in through m.w1r m.iw1 b2

-- `enig_enc`
unfoldable pub enig_enc : ℕ → Machine → ℕ × Machine
unfolding char_to_index index_to_char path update_wheel_index
enig_enc pt m =
    let i = char_to_index pt in
    if eqb_ℤ i (negsuc 0)
    then (0xFF, m)
    else (index_to_char (pos (path m (pos_part i))), update_wheel_index m)

-- `calc_rev_wheel`, from the entry `i` of the wheel on.
unfoldable pub rev_wheel_from : ℕ → List ℕ → List ℕ → ℤ × List ℕ
rev_wheel_from i [] backpath = (pos 1, backpath)
rev_wheel_from i (w ∷ wheel) backpath =
    let rest = rev_wheel_from (suc i) wheel (set_entry backpath w i) in
    if leb wheel_size w then (negsuc 0, backpath) else rest

unfoldable pub calc_rev_wheel : List ℕ → List ℕ → ℤ × List ℕ
unfolding rev_wheel_from
calc_rev_wheel wheel backpath = rev_wheel_from 0 wheel backpath

-- `START_WHEEL`
abbrev pub start_wheel : List ℕ
start_wheel =
    0 ∷ 1 ∷ 2 ∷ 3 ∷ 4 ∷ 5 ∷ 6 ∷ 7 ∷ 8 ∷ 9 ∷ 10 ∷ 11 ∷ 12 ∷ 13 ∷ 14 ∷ 15 ∷ 16 ∷ 17 ∷ 18 ∷ 19 ∷ 20
    ∷ 21 ∷ 22 ∷ 23 ∷ 24 ∷ 25 ∷ []

-- `START_WHEEL2`
abbrev pub start_wheel2 : List ℕ
start_wheel2 =
    6 ∷ 7 ∷ 8 ∷ 9 ∷ 10 ∷ 11 ∷ 12 ∷ 13 ∷ 14 ∷ 15 ∷ 16 ∷ 17 ∷ 18 ∷ 19 ∷ 20 ∷ 21 ∷ 22 ∷ 23 ∷ 24 ∷ 25
    ∷ 5 ∷ 0 ∷ 4 ∷ 1 ∷ 3 ∷ 2 ∷ []

-- `REFLECT`
abbrev pub reflect : List ℕ
reflect =
    1 ∷ 0 ∷ 3 ∷ 2 ∷ 5 ∷ 4 ∷ 7 ∷ 6 ∷ 9 ∷ 8 ∷ 11 ∷ 10 ∷ 13 ∷ 12 ∷ 15 ∷ 14 ∷ 17 ∷ 16 ∷ 19 ∷ 18 ∷ 21
    ∷ 20 ∷ 23 ∷ 22 ∷ 25 ∷ 24 ∷ []

-- A lower-case letter.
abbrev pub is_letter : ℕ → Bool
is_letter c = leb b'a' c && leb c b'z'

-- `IW1`, `IW2` and `IW3` as the thread `enc` sets them before a message.
unfoldable pub reset_wheels : Machine → Machine
reset_wheels m = record m { iw1 = 7; iw2 = 2; iw3 = 3 }

-- The loop of `enc` over the bytes of `enc_pt`: what it writes to `enc_ct`, which starts out as zeros.
unfoldable pub enc_text : List ℕ → Machine → List ℕ × Machine
enc_text [] m = ([], m)
enc_text (c ∷ text) m =
    let (ct, m1) = enig_enc c m in
    let (cts, m2) = enc_text text m1 in
    let skipped = enc_text text m in
    if c == 0 then ([], m) else if is_letter c then (ct ∷ cts, m2) else skipped

-- `SAMP_BLOCKSIZE`
abbrev pub samp_blocksize : ℕ
samp_blocksize = 50

-- What `enc` makes of the block that it finds in `BUFIN`: the 50 bytes of `enc_ct`.
unfoldable pub enc_block : List ℕ → Machine → List ℕ × Machine
unfolding enc_text reset_wheels
enc_block block m =
    let (cts, m1) = enc_text (take samp_blocksize block) (reset_wheels m) in
    (cts ++ replicate (samp_blocksize - length cts) 0, m1)

-- `main` up to the threads: the tables of main.c and what `calc_rev_wheel` makes of them. The
-- backpaths are zeros before.
unfoldable pub boot : List ℕ → Machine
unfolding calc_rev_wheel
boot wheel1 =
    let blank = replicate wheel_size 0 in
    record {
      w1 = wheel1;
      w2 = start_wheel;
      w3 = start_wheel;
      r = reflect;
      w1r = (calc_rev_wheel wheel1 blank).1;
      w2r = (calc_rev_wheel start_wheel blank).1;
      w3r = (calc_rev_wheel start_wheel blank).1;
      iw1 = 0;
      iw2 = 0;
      iw3 = 0;
    }
