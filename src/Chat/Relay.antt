-- ===== src/Chat/Relay.antt =====
-- What the two loops of task3_making-chat-on-c/stnc.c pass on.
use making_chat_on_c.Base.{
  ℕ, suc, ◌+◌, ◌<◌, ◌≤◌, ◌≡◌, ◌∙◌, refl, sym, ap, true, false, List, [], ◌∷◌, ◌++◌, some, String,
  length, ltb, c_string, reads_as, codes, ◌==◌, if◌then◌else◌, arith,
}
use mathlib.Core.List.{append-nil}
use making_chat_on_c.Os.{
  Call, Answer, Prog, ret, exit, fault, spin, call, recv, read, send, shutdown, print,
}
use making_chat_on_c.Chat.{terminated, handle_client, send_typed}

-- The answer to a call: `read` and `recv` bring the chunks in order and then the end, `answer`
-- answers all others.
abbrev pub bring : ((c : Call) → Answer c) → (c : Call) → List (List ℕ) → Answer c × List (List ℕ)
bring answer (read fd room) [] = (some [], [])
bring answer (read fd room) (chunk ∷ chunks) = (some chunk, chunks)
bring answer (recv fd room) [] = (some [], [])
bring answer (recv fd room) (chunk ∷ chunks) = (some chunk, chunks)
bring answer c chunks = (answer c, chunks)

abbrev pub after : {E : Type 0} → List Call → List Call × E → List Call × E
after calls (more, end) = (calls ++ more, end)

-- The calls that the program makes, oldest first, and how it ends.
abbrev pub play :
    {A : Type 0} → ((c : Call) → Answer c) → List (List ℕ) → Prog A → List Call × Prog A
play answer chunks (ret a) = ([], ret a)
play answer chunks (exit n) = ([], exit n)
play answer chunks fault = ([], fault)
play answer chunks spin = ([], spin)
play answer chunks (call c k) =
    let (r, left) = bring answer c chunks in after (c ∷ []) (play answer left (k r))

-- Chunks that leave room for the zero and do not read as the end of the chat.
abbrev pub AreTyped : List (List ℕ) → Type 0
AreTyped [] = Unit {0}
AreTyped (chunk ∷ chunks) =
    (0 < length chunk)
    × (length chunk < 1024)
    × (reads_as (chunk ++ 0 ∷ []) "exit\n" ≡ false)
    × AreTyped chunks

-- The calls that send the chunks.
abbrev pub sending : ℕ → List (List ℕ) → List Call
sending sock [] = []
sending sock (chunk ∷ chunks) = read 0 1024 ∷ send sock chunk ∷ sending sock chunks

-- The calls that show the chunks.
abbrev pub showing : ℕ → String → List (List ℕ) → List Call
showing sock speaker [] = []
showing sock speaker (chunk ∷ chunks) =
    recv sock 1024
    ∷ print speaker []
    ∷ print "%s" (c_string (chunk ++ 0 ∷ []))
    ∷ showing sock speaker chunks

short : (b : ℕ) (bs : List ℕ) → length (b ∷ bs) < 1024 → ltb (length (b ∷ bs)) 1024 ≡ true
short b bs h = ground arith

full : (b : ℕ) (bs : List ℕ) → 1024 ≤ length (b ∷ bs) → ltb (length (b ∷ bs)) 1024 ≡ false
full b bs h = ground arith

module _ (answer : (c : Call) → Answer c) (sock : ℕ) where
  send_round :
      (fuel b : ℕ) (bs : List ℕ) (chunks : List (List ℕ))
      → length (b ∷ bs) < 1024
      → reads_as ((b ∷ bs) ++ 0 ∷ []) "exit\n" ≡ false
      → play answer ((b ∷ bs) ∷ chunks) (send_typed (suc fuel) sock)
        ≡ after (read 0 1024 ∷ send sock (b ∷ bs) ∷ []) (play answer chunks (send_typed fuel sock))
  unfolding send_typed terminated
  send_round fuel b bs chunks room no_exit = rw (play, short b bs room, no_exit) refl

  send_full :
      (fuel b : ℕ) (bs : List ℕ) (chunks : List (List ℕ))
      → 1024 ≤ length (b ∷ bs)
      → play answer ((b ∷ bs) ∷ chunks) (send_typed (suc fuel) sock) ≡ (read 0 1024 ∷ [], fault)
  unfolding send_typed terminated
  send_full fuel b bs chunks big = rw (play, full b bs big) refl

  send_all_typed :
      (fuel : ℕ) (chunks rest : List (List ℕ))
      → AreTyped chunks
      → play answer (chunks ++ rest) (send_typed (length chunks + fuel) sock)
        ≡ after (sending sock chunks) (play answer rest (send_typed fuel sock))
  send_all_typed fuel [] rest are = ap (λ n. play answer rest (send_typed n sock)) (omega arith)
  send_all_typed fuel ([] ∷ chunks) rest (some_bytes, room, no_exit, are) = absurd (omega arith)
  send_all_typed fuel ((b ∷ bs) ∷ chunks) rest (some_bytes, room, no_exit, are) =
      let shift : suc (length chunks) + fuel ≡ suc (length chunks + fuel) = omega arith in
      ap (λ n. play answer ((b ∷ bs) ∷ (chunks ++ rest)) (send_typed n sock)) shift
      ∙ send_round (length chunks + fuel) b bs (chunks ++ rest) room no_exit
      ∙ ap (after (read 0 1024 ∷ send sock (b ∷ bs) ∷ [])) (send_all_typed fuel chunks rest are)

  show_round :
      (argc fuel b : ℕ) (bs : List ℕ) (chunks : List (List ℕ))
      → length (b ∷ bs) < 1024
      → play answer ((b ∷ bs) ∷ chunks) (handle_client (suc fuel) sock argc)
        ≡ after
            (recv sock 1024
              ∷ print (if argc == 4 then "server: " else "client: ") []
              ∷ print "%s" (c_string ((b ∷ bs) ++ 0 ∷ []))
              ∷ [])
            (play answer chunks (handle_client fuel sock argc))
  unfolding handle_client terminated
  show_round argc fuel b bs chunks room = rw (play, short b bs room) refl

  show_all :
      (argc fuel : ℕ) (chunks : List (List ℕ))
      → AreTyped chunks
      → play answer chunks (handle_client (length chunks + suc fuel) sock argc) ≡ (
        showing sock (if argc == 4 then "server: " else "client: ") chunks ++ recv sock 1024 ∷ [],
        ret tt,
      )
  unfolding handle_client
  show_all argc fuel [] are =
      let shift : 0 + suc fuel ≡ suc fuel = omega arith in
      ap (λ n. play answer [] (handle_client n sock argc)) shift
  show_all argc fuel ([] ∷ chunks) (some_bytes, room, no_exit, are) = absurd (omega arith)
  show_all argc fuel ((b ∷ bs) ∷ chunks) (some_bytes, room, no_exit, are) =
      let shift : suc (length chunks) + suc fuel ≡ suc (length chunks + suc fuel) = omega arith in
      ap (λ n. play answer ((b ∷ bs) ∷ chunks) (handle_client n sock argc)) shift
      ∙ show_round argc (length chunks + suc fuel) b bs chunks room
      ∙ ap
          (after (
            recv sock 1024
            ∷ print (if argc == 4 then "server: " else "client: ") []
            ∷ print "%s" (c_string ((b ∷ bs) ++ 0 ∷ []))
            ∷ []))
          (show_all argc fuel chunks are)

-- What one side types, chunk by chunk, is what it sends, and what comes in so is what the other
-- shows, up to the first zero of each chunk. With chunks that are not empty, have less than 1024
-- bytes and do not read as the exit message, whatever the other calls answer: the parent sends
-- exactly the chunks in order; then it shuts its side down at the end of the input, exits with 0
-- on the exit message, and writes outside of its array on a chunk of 1024 bytes. The child shows
-- exactly the chunks in order and returns at the end of the connection.
pub chat_relays :
    (answer : (c : Call) → Answer c) (sock argc b : ℕ) (bs : List ℕ) (chunks later : List (List ℕ))
    → AreTyped chunks
    → length (b ∷ bs) ≡ 1024
    → (play answer chunks (send_typed (length chunks + 1) sock)
        ≡ (sending sock chunks ++ read 0 1024 ∷ shutdown sock ∷ [], ret tt))
      × (play answer (chunks ++ codes "exit\n" ∷ later) (send_typed (length chunks + 1) sock) ≡ (
        sending sock chunks ++ read 0 1024 ∷ print "client leaves the chat..." [] ∷ [],
        exit 0,
      ))
      × (play answer (chunks ++ (b ∷ bs) ∷ later) (send_typed (length chunks + 1) sock)
          ≡ (sending sock chunks ++ read 0 1024 ∷ [], fault))
      × (play answer chunks (handle_client (length chunks + 1) sock argc) ≡ (
        showing sock (if argc == 4 then "server: " else "client: ") chunks ++ recv sock 1024 ∷ [],
        ret tt,
      ))
unfolding send_typed
chat_relays answer sock argc b bs chunks later are big = (
  ap (λ l. play answer l (send_typed (length chunks + 1) sock)) (sym (append-nil chunks))
      ∙ send_all_typed answer sock 1 chunks [] are,
  send_all_typed answer sock 1 chunks (codes "exit\n" ∷ later) are,
  send_all_typed answer sock 1 chunks ((b ∷ bs) ∷ later) are
      ∙ ap (after (sending sock chunks)) (send_full answer sock 0 b bs later (omega arith)),
  show_all answer sock argc 0 chunks are,
)
