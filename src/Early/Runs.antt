-- ===== src/Early/Runs.antt =====
-- How the loop of task3_making-chat-on-c/partb.c that receives a checksum goes on.
use making_chat_on_c.Base.{
  ℕ, zero, suc, ◌+◌, ◌<◌, ◌≤◌, ◌≡◌, refl, true, false, List, [], ◌∷◌, ◌++◌, length, ltb, leb, arith,
}
use making_chat_on_c.Os.{Call, Answer, ret, fault, spin, recv}
use making_chat_on_c.Chat.Relay.{play, after}
use making_chat_on_c.Server.Delivery.{bytes_total}
use making_chat_on_c.Early.Checksums.{receive_checksum}

abbrev pub IsNonempty : List (List ℕ) → Type 0
IsNonempty [] = Unit {0}
IsNonempty (chunk ∷ chunks) = (0 < length chunk) × IsNonempty chunks

module _ (answer : (c : Call) → Answer c) (sock : ℕ) where
  receive_round :
      (fuel received : ℕ) (chunk : List ℕ) (chunks : List (List ℕ))
      → received < 32
      → received + length chunk ≤ 32
      → play answer (chunk ∷ chunks) (receive_checksum (suc fuel) sock received)
        ≡ after
            (recv sock 1024 ∷ [])
            (play answer chunks (receive_checksum fuel sock (received + length chunk)))
  unfolding receive_checksum
  receive_round fuel received chunk chunks short fits =
      let a : ltb received 32 ≡ true = ground arith in
      let b : leb (received + length chunk) 32 ≡ true = ground arith in rw (play, a, b) refl

  receive_end :
      (fuel received : ℕ)
      → received < 32
      → play answer [] (receive_checksum (suc fuel) sock received)
        ≡ after (recv sock 1024 ∷ []) (play answer [] (receive_checksum fuel sock (received + 0)))
  unfolding receive_checksum
  receive_end fuel received short =
      let a : ltb received 32 ≡ true = ground arith in
      let b : leb (received + 0) 32 ≡ true = ground arith in rw (play, a, b) refl

  out_of_fuel :
      (received : ℕ) (chunks : List (List ℕ))
      → (play answer chunks (receive_checksum zero sock received)).1 ≡ spin
  unfolding receive_checksum
  out_of_fuel received chunks = refl

  receive_full :
      (fuel received : ℕ)
      → received ≡ 32
      → (play answer [] (receive_checksum (suc fuel) sock received)).1 ≡ ret true
  unfolding receive_checksum
  receive_full fuel received all = rw all refl

  receive_outside :
      (fuel received : ℕ) (chunk : List ℕ) (chunks : List (List ℕ))
      → received < 32
      → 32 < received + length chunk
      → (play answer (chunk ∷ chunks) (receive_checksum (suc fuel) sock received)).1 ≡ fault
  unfolding receive_checksum
  receive_outside fuel received chunk chunks short big =
      let a : ltb received 32 ≡ true = ground arith in
      let b : leb (received + length chunk) 32 ≡ false = ground arith in rw (play, a, b) refl

  never_ends :
      (fuel received : ℕ) (chunks : List (List ℕ))
      → received + bytes_total chunks < 32
      → (play answer chunks (receive_checksum fuel sock received)).1 ≡ spin
  never_ends zero received chunks short = out_of_fuel received chunks
  never_ends (suc fuel) received [] short =
      rw (receive_end fuel received (omega arith)) (never_ends fuel (received + 0) [] (omega arith))
  never_ends (suc fuel) received (chunk ∷ chunks) short =
      rw (receive_round fuel received chunk chunks (omega arith) (omega arith))
        (never_ends fuel (received + length chunk) chunks (omega arith))

  fills :
      (fuel received : ℕ) (chunks : List (List ℕ))
      → IsNonempty chunks
      → received + bytes_total chunks ≡ 32
      → length chunks < fuel
      → (play answer chunks (receive_checksum fuel sock received)).1 ≡ ret true
  fills zero received chunks each all enough = absurd (omega arith)
  fills (suc fuel) received [] each all enough = receive_full fuel received (omega arith)
  fills (suc fuel) received (chunk ∷ chunks) (some_bytes, each) all enough =
      rw (receive_round fuel received chunk chunks (omega arith) (omega arith))
        (fills fuel (received + length chunk) chunks each (omega arith) (omega arith))

  writes_outside :
      (fuel received : ℕ) (chunks : List (List ℕ)) (big : List ℕ)
      → received + bytes_total chunks < 32
      → 32 < received + bytes_total chunks + length big
      → length chunks < fuel
      → (play answer (chunks ++ big ∷ []) (receive_checksum fuel sock received)).1 ≡ fault
  writes_outside zero received chunks big short over enough = absurd (omega arith)
  writes_outside (suc fuel) received [] big short over enough =
      receive_outside fuel received big [] (omega arith) (omega arith)
  writes_outside (suc fuel) received (chunk ∷ chunks) big short over enough =
      rw (receive_round fuel received chunk (chunks ++ big ∷ []) (omega arith) (omega arith)) (
        writes_outside fuel (received + length chunk) chunks big (omega arith) (omega arith)
          (omega arith))

-- The loop that receives a checksum ends well only on exactly 32 bytes. If the chunks that come in
-- are not empty and have 32 bytes together, it succeeds, on one round more than there are chunks.
-- If the connection ends before there are 32 bytes, no number of rounds ends it. If a chunk goes
-- beyond the 32nd byte, it writes outside of its array.
pub receive_checksum_outcomes :
    (answer : (c : Call) → Answer c) (sock fuel : ℕ) (full few : List (List ℕ)) (big : List ℕ)
    → IsNonempty full
    → bytes_total full ≡ 32
    → bytes_total few < 32
    → 32 < bytes_total few + length big
    → ((play answer full (receive_checksum (length full + 1) sock 0)).1 ≡ ret true)
      × ((play answer few (receive_checksum fuel sock 0)).1 ≡ spin)
      × ((play answer (few ++ big ∷ []) (receive_checksum (length few + 1) sock 0)).1 ≡ fault)
receive_checksum_outcomes answer sock fuel full few big each all short over = (
  fills answer sock (length full + 1) 0 full each (omega arith) (omega arith),
  never_ends answer sock fuel 0 few (omega arith),
  writes_outside answer sock (length few + 1) 0 few big (omega arith) (omega arith) (omega arith),
)
