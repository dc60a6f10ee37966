-- ===== src/Enigma/Tests.antt =====
-- userspace/shared_mem: the two messages of the sample, and the theorems at them.
use zephyr_samples.Base.{
  ◌⊎◌, ℕ, ◌+◌, ◌-◌, ◌%◌, ◌≡◌, refl, List, [], ◌∷◌, ◌++◌, length, replicate, take, arith,
}
use zephyr_samples.Base.Int.{pos}
use zephyr_samples.Enigma.{
  Machine, boot, start_wheel2, reset_wheels, enc_text, enc_block, samp_blocksize, calc_rev_wheel,
  update_wheel_index, enig_enc,
}
use zephyr_samples.Enigma.Wheels.{Undoes, calc_rev_wheel-Undoes}
use zephyr_samples.Enigma.Paths.{IsReady, position, update_wheel_index-counts}
use zephyr_samples.Enigma.Messages.{letters, enc_block-enc_block}
use zephyr_samples.Enigma.Boot.{boot-IsReady, start_wheel2-IsWheel, reset_wheels-IsReady}
use zephyr_samples.Enigma.Threads.{
  Shared, idle, pt, enc, Turns, no_turn, next_turn, turn_pt, turn_enc, turn_wait, enc_waits,
  Delivers,
}
use zephyr_samples.Enigma.Threads.Printed.{Stuck, Prints, messages_delivered}

abbrev machine : Machine
machine = boot start_wheel2

-- "message to encrypt"
abbrev message : List ℕ
message =
    b'm' ∷ b'e' ∷ b's' ∷ b's' ∷ b'a' ∷ b'g' ∷ b'e' ∷ b' ' ∷ b't' ∷ b'o' ∷ b' ' ∷ b'e' ∷ b'n' ∷ b'c'
    ∷ b'r' ∷ b'y' ∷ b'p' ∷ b't' ∷ []

-- "ofttbhfspgmeqzos", which main.c gives as the encrypted message.
abbrev encrypted : List ℕ
encrypted =
    b'o' ∷ b'f' ∷ b't' ∷ b't' ∷ b'b' ∷ b'h' ∷ b'f' ∷ b's' ∷ b'p' ∷ b'g' ∷ b'm' ∷ b'e' ∷ b'q' ∷ b'z'
    ∷ b'o' ∷ b's' ∷ []

encrypts : (enc_text message (reset_wheels machine)).0 ≡ encrypted
unfolding enc_text reset_wheels enig_enc boot
encrypts = refl

machine-IsReady : IsReady machine
machine-IsReady = boot-IsReady start_wheel2 start_wheel2-IsWheel

enc_block-enc_block_example :
    (enc_block (enc_block message machine).0 (enc_block message machine).1).0
    ≡ letters (take samp_blocksize message)
      ++ replicate (samp_blocksize - length (letters (take samp_blocksize message))) 0
enc_block-enc_block_example =
    enc_block-enc_block message machine (reset_wheels-IsReady machine machine-IsReady)

calc_rev_wheel-Undoes_example :
    ((calc_rev_wheel start_wheel2 (replicate 26 0)).0 ≡ pos 1)
    × Undoes start_wheel2 ((calc_rev_wheel start_wheel2 (replicate 26 0)).1)
calc_rev_wheel-Undoes_example =
    calc_rev_wheel-Undoes start_wheel2 (replicate 26 0) start_wheel2-IsWheel (omega arith)

abbrev turning : Machine
turning = record machine { iw1 = 25; iw2 = 25; iw3 = 4 }

update_wheel_index-counts_example :
    position (update_wheel_index turning) ≡ (position turning + 1) % 17576
update_wheel_index-counts_example =
    update_wheel_index-counts turning (omega arith) (omega arith) (omega arith)

-- A message is sent, and encoded; it waits for `BUFOUT`.
abbrev sent : Shared
sent = pt message (idle machine)

abbrev encoding : Shared
encoding = enc sent

sent-Turns : Turns (idle machine) encoding
unfolding pt
sent-Turns =
    next_turn (idle machine) sent encoding
      (next_turn (idle machine) (idle machine) sent (no_turn (idle machine))
        (turn_pt message (idle machine) refl))
      (turn_enc sent refl)

messages_delivered_example : Delivers machine encoding × (Stuck encoding ⊎ Prints machine encoding)
messages_delivered_example = messages_delivered machine encoding sent-Turns

-- The output is in `BUFOUT`; before `ct` takes it, a second message is sent and encoded.
abbrev put : Shared
put = enc_waits (enc_block message machine).0 encoding

abbrev sent_again : Shared
sent_again = pt encrypted put

abbrev stuck : Shared
stuck = enc sent_again

stuck-Turns : Turns (idle machine) stuck
unfolding pt enc enc_waits
stuck-Turns =
    next_turn (idle machine) sent_again stuck
      (next_turn (idle machine) put sent_again
        (next_turn (idle machine) encoding put sent-Turns
          (turn_wait (enc_block message machine).0 encoding refl))
        (turn_pt encrypted put refl))
      (turn_enc sent_again refl)
