-- ===== src/Server/Release/Loops.antt =====
-- What the loops of the servers keep, in the form in which it is used: a check of what follows
-- the loop is a check of the loop and what follows it.
use making_chat_on_c.Base.{
  ℕ, zero, suc, ◌+◌, ◌*◌, ◌≤◌, ◌≡◌, refl, List, [], ◌∷◌, Option, some, arith, ==_refl, length,
  reads_as, overwrite, ◌==◌, if◌then◌else◌,
}
use making_chat_on_c.Checksum.{int_max, add_int, add_int-le, compute_checksum}
use making_chat_on_c.Checksum.Fold.{compute_checksum_ends}
use making_chat_on_c.Os.{Prog, ret, defined, ◌>>=◌, ready_count}
use making_chat_on_c.Os.Guarantee.{Checks, if-Checks, defined-Checks}
use making_chat_on_c.Os.Ledger.{Ledger, ledger_step, counting, LastsReads, Handle, descriptor}
use making_chat_on_c.Server.Stream.{ipv4_tcp_loop, ipv6_tcp_loop, uds_stream_loop, pipe_loop}
use making_chat_on_c.Server.Datagram.{
  zeroed, add_checksum, dgram_loop, pollin, ipv6_udp_receive, ipv6_udp_loop, mmap_receive,
  mmap_loop, mmap_end,
}

module _ (bound : ℕ) {B : Type 0} (Q : B → Ledger → Type 0) (held : List Handle) (f : ℕ → Prog B)
    (next : (t : Ledger) (n : ℕ) → t.held ≡ held → Checks ledger_step Q (LastsReads bound) t (f n))
    (server client : ℕ) where
  abbrev Kept : Ledger → Prog ℕ → Type 0
  Kept s m = Checks ledger_step Q (LastsReads bound) s (m >>= f)

  pub ipv4_tcp :
      (fuel total : ℕ) (s : Ledger)
      → s.held ≡ held
      → bound ≤ fuel + s.reads
      → Kept s (ipv4_tcp_loop fuel server client total)
  unfolding ipv4_tcp_loop
  ipv4_tcp zero total s e enough = omega (arith, enough)
  ipv4_tcp (suc fuel) total s e enough =
      (refl, next _ total e, λ b bs room. ipv4_tcp fuel _ _ e (omega (arith, enough)))

  pub ipv6_tcp :
      (fuel total : ℕ) (s : Ledger)
      → s.held ≡ held
      → bound ≤ fuel + s.reads
      → Kept s (ipv6_tcp_loop fuel client total)
  unfolding ipv6_tcp_loop
  ipv6_tcp zero total s e enough = omega (arith, enough)
  ipv6_tcp (suc fuel) total s e enough =
      (next _ total e, next _ total e, λ b bs room. ipv6_tcp fuel _ _ e (omega (arith, enough)))

  pub uds_stream :
      (fuel total : ℕ) (s : Ledger)
      → s.held ≡ held
      → bound ≤ fuel + s.reads
      → Kept s (uds_stream_loop fuel client total)
  unfolding uds_stream_loop
  uds_stream zero total s e enough = omega (arith, enough)
  uds_stream (suc fuel) total s e enough =
      (refl, next _ total e, λ b bs room. uds_stream fuel _ _ e (omega (arith, enough)))

  pub pipe :
      (fuel checksum : ℕ) (s : Ledger)
      → s.held ≡ held
      → bound ≤ fuel + s.reads
      → Kept s (pipe_loop fuel server client checksum)
  unfolding pipe_loop
  pipe zero checksum s e enough = omega (arith, enough)
  pipe (suc fuel) checksum s e enough =
      (next _ checksum e, next _ checksum e, λ b bs room. pipe fuel _ _ e (omega (arith, enough)))

  after_checksum :
      (checksum : ℕ) (bytes : List ℕ) (s : Ledger) (k : ℕ → Prog ℕ)
      → checksum + 65535 ≤ int_max
      → ((sum : ℕ) → sum ≤ checksum + 65535 → Kept s (k sum))
      → Kept s (add_checksum checksum (compute_checksum bytes) k)
  unfolding add_checksum
  after_checksum checksum bytes s k fits then_k =
      let (c, is, le) = compute_checksum_ends bytes in
      rw is (
        defined-Checks ledger_step Q (LastsReads bound) f s _ (checksum + c) k
          (add_int-le checksum c (omega arith)) (then_k (checksum + c) (omega arith)))

  dgram_then :
      (s : Ledger) (buffer bytes : List ℕ) (total checksum : ℕ) (k : ℕ → Prog ℕ)
      → s.held ≡ held
      → checksum + 65535 ≤ int_max
      → ((sum : ℕ) → sum ≤ checksum + 65535 → Kept s (k sum))
      → Kept s (
          if reads_as (overwrite buffer bytes) "exit\n"
          then ret total
          else add_checksum checksum (compute_checksum bytes) k)
  dgram_then s buffer bytes total checksum k e fits then_k =
      if-Checks ledger_step Q (LastsReads bound) f s (reads_as (overwrite buffer bytes) "exit\n")
        (ret total) (add_checksum checksum (compute_checksum bytes) k) (next s total e)
        (after_checksum checksum bytes s k fits then_k)

  pub dgram :
      (fuel : ℕ) (buffer : List ℕ) (total checksum : ℕ) (s : Ledger)
      → checksum + 65535 * fuel ≤ int_max
      → s.held ≡ held
      → bound ≤ fuel + s.reads
      → Kept s (dgram_loop fuel client buffer total checksum)
  unfolding dgram_loop
  dgram zero buffer total checksum s small e enough = omega (arith, enough)
  dgram (suc fuel) buffer total checksum s small e enough = (
    refl,
    dgram_then _ buffer [] total checksum _ e (omega arith)
        (λ sum le. dgram fuel (zeroed 1024) _ sum _ (omega arith) e (omega (arith, enough))),
    λ b bs room.
        dgram_then _ buffer (b ∷ bs) total checksum _ e (omega arith)
          (λ sum le. dgram fuel (zeroed 1024) _ sum _ (omega arith) e (omega (arith, enough))),
  )

  receive_then :
      (s : Ledger) (bytes : List ℕ) (checksum : ℕ) (again : ℕ → Prog ℕ)
      → s.held ≡ held
      → checksum + length bytes ≤ int_max
      → Kept s (again (checksum + length bytes))
      → Kept s (
          defined
            (add_int checksum (length bytes))
            λ sum. if reads_as (overwrite (zeroed 1024) bytes) "exit\n" then ret sum else again sum)
  receive_then s bytes checksum again e fits rest =
      defined-Checks ledger_step Q (LastsReads bound) f s _ (checksum + length bytes)
        (λ sum. if reads_as (overwrite (zeroed 1024) bytes) "exit\n" then ret sum else again sum)
        (add_int-le checksum (length bytes) fits)
        (if-Checks ledger_step Q (LastsReads bound) f s
          (reads_as (overwrite (zeroed 1024) bytes) "exit\n") (ret (checksum + length bytes))
          (again (checksum + length bytes)) (next s _ e) rest)

  ipv6_udp_receive-Kept :
      (s : Ledger) (checksum : ℕ) (again : ℕ → Prog ℕ)
      → s.held ≡ held
      → checksum + 1024 ≤ int_max
      → ((sum : ℕ) → sum ≤ checksum + 1024 → Kept (counting s) (again sum))
      → Kept s (ipv6_udp_receive client checksum again)
  unfolding ipv6_udp_receive
  ipv6_udp_receive-Kept s checksum again e fits rest = (
    refl,
    receive_then (counting s) [] checksum again e (omega arith) (rest _ (omega arith)),
    λ b bs room.
        receive_then (counting s) (b ∷ bs) checksum again e (omega arith) (rest _ (omega arith)),
  )

  pub ipv6_udp :
      (fuel checksum : ℕ) (s : Ledger)
      → checksum + 65535 * fuel ≤ int_max
      → s.held ≡ held
      → bound ≤ fuel + s.reads
      → Kept s (ipv6_udp_loop fuel client checksum)
  unfolding ipv6_udp_loop
  ipv6_udp zero checksum s small e enough = omega (arith, enough)
  ipv6_udp (suc fuel) checksum s small e enough =
      let again = ipv6_udp fuel checksum (counting s) (omega arith) e (omega (arith, enough)) in
      (
        refl,
        again,
        λ r rs.
            if-Checks ledger_step Q (LastsReads bound) f (counting s) (pollin (r ∷ rs))
              (ipv6_udp_receive client checksum (λ sum. ipv6_udp_loop fuel client sum))
              (ipv6_udp_loop fuel client checksum)
              (ipv6_udp_receive-Kept (counting s) checksum _ e (omega arith)
                (λ sum le. ipv6_udp fuel sum _ (omega arith) e (omega (arith, enough))))
              again,
      )

module _ (bound fd : ℕ) (held : List Handle) (start : ℕ × ℕ) where
  abbrev pub Ended : Ledger → Prog (Option ℕ) → Type 0
  Ended s m =
      Checks ledger_step (λ _ t. t.held ≡ held) (LastsReads bound) s (m >>= mmap_end fd start)

  mmap_receive-Ended :
      (s : Ledger) (bite : ℕ) (again : ℕ → Prog (Option ℕ))
      → s.held ≡ descriptor fd ∷ held
      → bite + 1024 ≤ int_max
      → ((sum : ℕ) → sum ≤ bite + 1024 → Ended (counting s) (again sum))
      → Ended s (mmap_receive fd bite again)
  unfolding mmap_receive mmap_end
  mmap_receive-Ended s bite again e fits rest = (
    simp (e, ==_refl),
    defined-Checks ledger_step _ (LastsReads bound) (mmap_end fd start) (counting s) _ (bite + 0)
        again (add_int-le bite 0 (omega arith)) (rest _ (omega arith)),
    λ b bs room.
        defined-Checks ledger_step _ (LastsReads bound) (mmap_end fd start) (counting s) _
          (bite + length (b ∷ bs)) again (add_int-le bite _ (omega arith)) (rest _ (omega arith)),
  )

  pub mmap :
      (fuel bite : ℕ) (s : Ledger)
      → bite + 65535 * fuel ≤ int_max
      → s.held ≡ descriptor fd ∷ held
      → bound ≤ fuel + s.reads
      → Ended s (mmap_loop fuel fd bite)
  unfolding mmap_loop mmap_end
  mmap zero bite s small e enough = omega (arith, enough)
  mmap (suc fuel) bite s small e enough =
      let again = mmap fuel bite (counting s) (omega arith) e (omega (arith, enough)) in
      let ended : Ended (counting s) (ret (some bite)) = λ finish. simp (e, ==_refl) in
      (
        simp (e, ==_refl),
        ended,
        λ r rs.
            if-Checks ledger_step _ (LastsReads bound) (mmap_end fd start) (counting s)
              (ready_count (r ∷ rs) == 0) (ret (some bite))
              (if pollin (r ∷ rs)
                then mmap_receive fd bite (λ sum. mmap_loop fuel fd sum)
                else mmap_loop fuel fd bite)
              ended
              (if-Checks ledger_step _ (LastsReads bound) (mmap_end fd start) (counting s)
                (pollin (r ∷ rs)) (mmap_receive fd bite (λ sum. mmap_loop fuel fd sum))
                (mmap_loop fuel fd bite)
                (mmap_receive-Ended (counting s) bite _ e (omega arith)
                  (λ sum le. mmap fuel sum _ (omega arith) e (omega (arith, enough))))
                again),
      )
