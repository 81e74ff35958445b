-- ===== src/Server/Delivery.antt =====
-- The datagram servers of task3_making-chat-on-c/server.c on the datagrams that the clients of
-- client.c send.
use making_chat_on_c.Base.{
  ℕ, zero, suc, ◌+◌, ◌*◌, ◌-◌, ◌<◌, ◌≤◌, ◌≡◌, ◌∙◌, refl, sym, ap, true, false, List, [], ◌∷◌, ◌++◌,
  some, length, take, drop, replicate, reads_as, overwrite, c_string, bytes_eq, arith,
}
use making_chat_on_c.Checksum.{int_max, add_int-le}
use making_chat_on_c.Checksum.Fold.{compute_checksum_ends}
use making_chat_on_c.Os.{
  Call, Answer, Prog, ret, exit, fault, spin, call, Text, ◌>>=◌, socket, setsockopt, bind,
  gettimeofday, elapsed, Domain, Kind, any_host, parsed,
}
use making_chat_on_c.Os.Feed.{feed}
use making_chat_on_c.Client.Lines.{exit_line}
use making_chat_on_c.Server.Datagram.{zeroed, add_checksum, dgram_loop, s_ipv4_udp}

-- Datagrams that fit the buffer of a server and do not read as its exit message.
abbrev pub AreData : List (List ℕ) → Type 0
AreData [] = Unit {0}
AreData (line ∷ lines) =
    (length line ≤ 1024) × (bytes_eq (c_string line) exit_line ≡ false) × AreData lines

abbrev pub bytes_total : List (List ℕ) → ℕ
bytes_total [] = 0
bytes_total (line ∷ lines) = length line + bytes_total lines

take_all : (n : ℕ) (bytes : List ℕ) → length bytes ≤ n → take n bytes ≡ bytes
take_all zero [] h = refl
take_all zero (b ∷ bytes) h = absurd (omega arith)
take_all (suc n) [] h = refl
take_all (suc n) (b ∷ bytes) h = ap (λ l. b ∷ l) (take_all n bytes (omega arith))

c_string-replicate : (n : ℕ) → c_string (replicate n 0) ≡ []
c_string-replicate zero = refl
c_string-replicate (suc n) = refl

drop-replicate : (n m : ℕ) → drop {A = ℕ} n (replicate m 0) ≡ replicate (m - n) 0
drop-replicate zero m = ap (λ k. replicate k 0) (omega arith)
drop-replicate (suc n) zero =
    let none_left : 0 ≡ 0 - suc n = omega arith in ap (λ k. replicate k 0) none_left
drop-replicate (suc n) (suc m) =
    let shift : m - n ≡ suc m - suc n = omega arith in
    drop-replicate n m ∙ ap (λ k. replicate k 0) shift

c_string-zeros : (bytes : List ℕ) (n : ℕ) → c_string (bytes ++ replicate n 0) ≡ c_string bytes
c_string-zeros [] n = c_string-replicate n
c_string-zeros (b ∷ bytes) n = rw (c_string-zeros bytes n) refl

-- After the `memset` a datagram reads as its own text.
c_string-overwrite : (bytes : List ℕ) → c_string (overwrite (zeroed 1024) bytes) ≡ c_string bytes
unfolding zeroed
c_string-overwrite bytes =
    ap (λ l. c_string (bytes ++ l)) (drop-replicate (length bytes) 1024)
    ∙ c_string-zeros bytes (1024 - length bytes)

module _ (answer : (c : Call) → Answer c) {B : Type 0} (f : ℕ → Prog B) (fd : ℕ) where
  round :
      (fuel : ℕ) (buffer line : List ℕ) (queue : List (List ℕ)) (total checksum : ℕ)
      → length line ≤ 1024
      → reads_as (overwrite buffer line) "exit\n" ≡ false
      → checksum + 65535 ≤ int_max
      → (sum : ℕ) × (sum ≤ checksum + 65535)
        × (feed answer (line ∷ queue) (dgram_loop (suc fuel) fd buffer total checksum >>= f)
            ≡ feed answer queue (dgram_loop fuel fd (zeroed 1024) (total + length line) sum >>= f))
  unfolding dgram_loop add_checksum
  round fuel buffer line queue total checksum short no_exit fits =
      let (c, is, le) = compute_checksum_ends line in
      (
        checksum + c,
        omega arith,
        rw (feed, take_all 1024 line short, no_exit, is, add_int-le checksum c (omega arith)) refl,
      )

  last_round :
      (fuel : ℕ) (buffer line : List ℕ) (queue : List (List ℕ)) (total checksum : ℕ)
      → length line ≤ 1024
      → reads_as (overwrite buffer line) "exit\n" ≡ true
      → feed answer (line ∷ queue) (dgram_loop (suc fuel) fd buffer total checksum >>= f)
        ≡ feed answer queue (f total)
  unfolding dgram_loop
  last_round fuel buffer line queue total checksum short exits =
      rw (feed, take_all 1024 line short, exits) refl

  rounds :
      (fuel : ℕ) (lines : List (List ℕ)) (total checksum : ℕ)
      → AreData lines
      → length lines < fuel
      → checksum + 65535 * length lines ≤ int_max
      → feed answer
          (lines ++ exit_line ∷ [])
          (dgram_loop fuel fd (zeroed 1024) total checksum >>= f)
        ≡ feed answer [] (f (total + bytes_total lines))
  rounds zero lines total checksum are enough fits = absurd (omega arith)
  rounds (suc fuel) [] total checksum are enough fits =
      rw
        (last_round fuel (zeroed 1024) exit_line [] total checksum (omega arith)
          (ap (λ l. bytes_eq l exit_line) (c_string-overwrite exit_line)))
        (ap (λ n. feed answer [] (f n)) (omega arith))
  rounds (suc fuel) (line ∷ lines) total checksum (short, no_exit, are) enough fits =
      let (sum, le, e) =
        round fuel (zeroed 1024) line (lines ++ exit_line ∷ []) total checksum short
          (ap (λ l. bytes_eq l exit_line) (c_string-overwrite line) ∙ no_exit) (omega arith) in
      e
      ∙ rounds fuel lines (total + length line) sum are (omega arith) (omega arith)
      ∙ ap (λ n. feed answer [] (f n)) (omega arith)

  all_rounds :
      (fuel : ℕ) (garbage first : List ℕ) (lines : List (List ℕ))
      → length first ≤ 1024
      → reads_as (overwrite garbage first) "exit\n" ≡ false
      → AreData lines
      → length lines < 32768
      → suc (length lines) < fuel
      → feed answer (first ∷ (lines ++ exit_line ∷ [])) (dgram_loop fuel fd garbage 0 0 >>= f)
        ≡ feed answer [] (f (length first + bytes_total lines))
  all_rounds zero garbage first lines short no_exit are few enough = absurd (omega arith)
  all_rounds (suc fuel) garbage first lines short no_exit are few enough =
      let (sum, le, e) =
        round fuel garbage first (lines ++ exit_line ∷ []) 0 0 short no_exit (omega arith) in
      e
      ∙ rounds fuel lines (0 + length first) sum are (omega arith) (omega arith)
      ∙ ap (λ n. feed answer [] (f n)) (omega arith)

bind_ret : {A : Type 0} (m : Prog A) → (m >>= ret) ≡ m
bind_ret (ret a) = refl
bind_ret (exit n) = refl
bind_ret fault = refl
bind_ret spin = refl
bind_ret (call c k) = λ i. call c (λ r. bind_ret (k r) i)

-- `s_ipv4_udp` on a network that brings it the datagrams of `c_ipv4_udp`, each once and in order:
-- the first line, the others and the exit message. If the set-up calls succeed, there are at most
-- 32768 lines, each of at most 1024 bytes, and none of them reads as the exit message, the first
-- one with the stack memory behind it, then the loop counts all bytes of all lines, the server
-- returns the time that it took, and no datagram is left unread.
pub s_ipv4_udp_receives_all :
    (answer : (c : Call) → Answer c) (fuel fd : ℕ) (garbage first : List ℕ) (lines : List (List ℕ))
    (port : Text)
    → answer (socket Domain.inet Kind.dgram) ≡ some fd
    → answer (setsockopt fd) ≡ true
    → answer (bind fd (any_host (parsed port))) ≡ true
    → length first ≤ 1024
    → reads_as (overwrite garbage first) "exit\n" ≡ false
    → AreData lines
    → length lines < 32768
    → suc (length lines) < fuel
    → (feed answer (first ∷ (lines ++ exit_line ∷ [])) (dgram_loop fuel fd garbage 0 0)
        ≡ some (length first + bytes_total lines, []))
      × (feed answer (first ∷ (lines ++ exit_line ∷ [])) (s_ipv4_udp fuel garbage port)
          ≡ some (elapsed (answer gettimeofday) (answer gettimeofday), []))
unfolding s_ipv4_udp
s_ipv4_udp_receives_all answer fuel fd garbage first lines port opened set bound short no_exit are
      few enough =
    (
      ap (feed answer (first ∷ (lines ++ exit_line ∷ [])))
            (sym (bind_ret (dgram_loop fuel fd garbage 0 0)))
          ∙ all_rounds answer ret fd fuel garbage first lines short no_exit are few enough,
      rw (feed, opened, set, bound)
          (all_rounds answer _ fd fuel garbage first lines short no_exit are few enough),
    )
