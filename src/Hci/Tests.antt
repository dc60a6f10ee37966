-- ===== src/Hci/Tests.antt =====
-- bluetooth/hci_uart/src/main.c: two packets that come in three parts.
use zephyr_samples.Base.{ℕ, ◌≡◌, refl, true, List, [], ◌∷◌, some, none, map, arith}
use zephyr_samples.Hci.{Pools, H4, h4_cmd, h4_acl, isr_round}
use zephyr_samples.Hci.Stream.{
  Packet, command, data_packet, AllValid, none_left, one_more, wire, item, Rounds, no_round, next,
  start, stream_received,
}
use zephyr_samples.Hci.Rounds.{Takes, round-Takes}

abbrev pools : Pools
pools = record { alloc = λ n. true; tailroom = λ type. 70 }

-- A command with two bytes, and data of three.
abbrev packets : List Packet
packets =
    record { type = h4_cmd; header = 3 ∷ 12 ∷ 2 ∷ []; payload = 5 ∷ 6 ∷ [] }
    ∷ record { type = h4_acl; header = 1 ∷ 0 ∷ 3 ∷ 0 ∷ []; payload = 7 ∷ 8 ∷ 9 ∷ [] }
    ∷ []

packets-AllValid : AllValid pools packets
packets-AllValid =
    one_more _ _ (command 3 12 (5 ∷ 6 ∷ []) (omega arith))
      (one_more _ _ (data_packet 1 0 3 0 (7 ∷ 8 ∷ 9 ∷ []) refl (omega arith)) none_left)

-- One byte of the command is ready first.
abbrev after_one : H4
after_one = record { buf = some (1, 3 ∷ 12 ∷ 2 ∷ 5 ∷ []); remaining = 1; allocs = 1; tx_queue = [] }

abbrev after_two : H4
after_two = record {
  buf = none;
  remaining = 0;
  allocs = 1;
  tx_queue = (1, 3 ∷ 12 ∷ 2 ∷ 5 ∷ 6 ∷ []) ∷ [];
}

abbrev after_three : H4
after_three = record {
  buf = none;
  remaining = 0;
  allocs = 2;
  tx_queue = (1, 3 ∷ 12 ∷ 2 ∷ 5 ∷ 6 ∷ []) ∷ (2, 1 ∷ 0 ∷ 3 ∷ 0 ∷ 7 ∷ 8 ∷ 9 ∷ []) ∷ [];
}

abbrev second_wire : List ℕ
second_wire = 2 ∷ 1 ∷ 0 ∷ 3 ∷ 0 ∷ 7 ∷ 8 ∷ 9 ∷ []

one_round : Rounds pools start (wire packets) after_one (6 ∷ second_wire)
unfolding isr_round
one_round =
    next 1 start start after_one (wire packets) (wire packets) (6 ∷ second_wire)
      (no_round start (wire packets)) refl

three_rounds : Rounds pools start (wire packets) after_three []
unfolding isr_round
three_rounds =
    next 9 start after_two after_three (wire packets) second_wire []
      (next 4 start after_one after_two (wire packets) (6 ∷ second_wire) second_wire one_round refl)
      refl

stream_received_example : after_three.tx_queue ≡ map item packets
stream_received_example =
    stream_received pools packets after_three [] (λ n. refl) packets-AllValid three_rounds refl

round-Takes_example : Takes pools 1 after_one (6 ∷ second_wire)
round-Takes_example =
    round-Takes pools packets after_one (6 ∷ second_wire) 1 (λ n. refl) packets-AllValid one_round
      (omega arith) (omega arith)
