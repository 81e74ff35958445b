-- ===== src/Chat/Tests.antt =====
-- The chat of task3_making-chat-on-c/stnc.c at concrete inputs.
use making_chat_on_c.Base.{
  ℕ, ◌+◌, ◌≡◌, ◌==◌, refl, List, [], ◌∷◌, ◌++◌, length, codes, replicate, if◌then◌else◌, arith,
}
use making_chat_on_c.Os.{ret, exit, fault, recv, read, shutdown, print}
use making_chat_on_c.Os.Feed.{all_succeed}
use making_chat_on_c.Chat.{handle_client, send_typed}
use making_chat_on_c.Chat.Relay.{play, sending, showing, AreTyped, chat_relays}

abbrev typed : List (List ℕ)
typed = codes "hi\n" ∷ codes "bye\n" ∷ []

typed-AreTyped : AreTyped typed
typed-AreTyped = (omega arith, omega arith, refl, (omega arith, omega arith, refl, tt))

chat_relays_example :
    (play all_succeed typed (send_typed (length typed + 1) 3)
      ≡ (sending 3 typed ++ read 0 1024 ∷ shutdown 3 ∷ [], ret tt))
    × (play all_succeed (typed ++ codes "exit\n" ∷ []) (send_typed (length typed + 1) 3)
        ≡ (sending 3 typed ++ read 0 1024 ∷ print "client leaves the chat..." [] ∷ [], exit 0))
    × (play all_succeed (typed ++ (65 ∷ replicate 1023 65) ∷ []) (send_typed (length typed + 1) 3)
        ≡ (sending 3 typed ++ read 0 1024 ∷ [], fault))
    × (play all_succeed typed (handle_client (length typed + 1) 3 4)
        ≡ (showing 3 (if 4 == 4 then "server: " else "client: ") typed ++ recv 3 1024 ∷ [], ret tt))
chat_relays_example =
    chat_relays all_succeed 3 4 65 (replicate 1023 65) typed [] typed-AreTyped refl
