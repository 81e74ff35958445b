-- ===== src/Early/Tests.antt =====
-- Concrete inputs for task3_making-chat-on-c/partb.c.
use making_chat_on_c.Base.{◌+◌, ◌≡◌, refl, true, [], ◌∷◌, replicate, arith}
use making_chat_on_c.Os.{ret, fault, spin}
use making_chat_on_c.Os.Feed.{all_succeed}
use making_chat_on_c.Chat.Relay.{play}
use making_chat_on_c.Early.Checksums.{receive_checksum}
use making_chat_on_c.Early.Runs.{receive_checksum_outcomes}

receive_checksum_outcomes_example :
    ((play all_succeed (replicate 16 1 ∷ replicate 16 2 ∷ []) (receive_checksum (2 + 1) 3 0)).1
      ≡ ret true)
    × ((play all_succeed (replicate 16 1 ∷ []) (receive_checksum 100 3 0)).1 ≡ spin)
    × ((play all_succeed (replicate 16 1 ∷ replicate 20 3 ∷ []) (receive_checksum (1 + 1) 3 0)).1
        ≡ fault)
receive_checksum_outcomes_example =
    receive_checksum_outcomes all_succeed 3 100 (replicate 16 1 ∷ replicate 16 2 ∷ [])
      (replicate 16 1 ∷ []) (replicate 20 3) (omega arith, (omega arith, tt)) refl (omega arith)
      (omega arith)
