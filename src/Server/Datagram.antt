-- ===== src/Server/Datagram.antt =====
-- The datagram servers of task3_making-chat-on-c/server.c. An `int` that adds up checksums or
-- sizes is followed to its overflow, which is a fault.
use making_chat_on_c.Base.{
  ℕ, zero, suc, ◌+◌, ◌==◌, List, [], ◌∷◌, Option, none, some, Bool, true, false, length, replicate,
  reads_as, overwrite, if◌then◌else◌, bit_and,
}
use making_chat_on_c.Base.Int.{ℤ, negsuc}
use making_chat_on_c.Checksum.{add_int, compute_checksum}
use making_chat_on_c.Os.{
  Text, Prog, ret, exit, spin, defined, ◌>>=◌, ◌>>◌, sys, die, require, unwrap, elapsed, Domain,
  Kind, any_host, parsed, socket_path, socket, setsockopt, bind, recvfrom, poll, gettimeofday,
  close, unlink, perror, ready_count, head_or_zero,
}

-- `memset(buffer, 0, sizeof(buffer))`
unfoldable pub zeroed : ℕ → List ℕ
zeroed size = replicate size 0

-- `checksum += compute_checksum(buffer, bytesRead)` on an `int`; it goes on with the new sum.
unfoldable pub add_checksum : {A : Type 0} → ℕ → Option ℕ → (ℕ → Prog A) → Prog A
add_checksum checksum none k = spin
add_checksum checksum (some c) k = defined (add_int checksum c) k

-- `while (1)` of `s_ipv4_udp`, and of `s_uds_dgram`. The state is the buffer, the bytes counted and
-- the `checksum`.
unfoldable pub dgram_loop : ℕ → ℕ → List ℕ → ℕ → ℕ → Prog ℕ
dgram_loop zero fd buffer total checksum = spin
dgram_loop (suc fuel) fd buffer total checksum = do
  got ← sys (recvfrom fd 1024)
  elim got [
    | none ↦ die "recvfrom"
    | some bytes ↦
        if reads_as (overwrite buffer bytes) "exit\n"
        then ret total
        else add_checksum checksum (compute_checksum bytes)
            (λ sum. dgram_loop fuel fd (zeroed 1024) (total + length bytes) sum)
  ]

-- `garbage` is what the stack buffer holds at the start.
unfoldable pub s_ipv4_udp : ℕ → List ℕ → Text → Prog ℤ
s_ipv4_udp fuel garbage port = do
  fd ← unwrap (← sys (socket Domain.inet Kind.dgram)) (die "socket")
  require (← sys (setsockopt fd)) (do sys (perror "setsockopt"); sys (close fd); exit 1)
  require (← sys (bind fd (any_host (parsed port)))) (die "bind")
  start ← sys gettimeofday
  dgram_loop fuel fd garbage 0 0
  finish ← sys gettimeofday
  sys (close fd)
  ret (elapsed start finish)

unfoldable pub s_uds_dgram : ℕ → List ℕ → Prog ℤ
s_uds_dgram fuel garbage = do
  fd ← unwrap (← sys (socket Domain.unix_local Kind.dgram)) (die "socket")
  require (← sys (setsockopt fd)) (do sys (perror "setsockopt"); sys (close fd); exit 1)
  sys (unlink "/tmp/file.txt")
  require (← sys (bind fd (socket_path "/tmp/file.txt"))) (die "bind")
  start ← sys gettimeofday
  dgram_loop fuel fd garbage 0 0
  finish ← sys gettimeofday
  sys (close fd)
  sys (unlink "/tmp/file.txt")
  ret (elapsed start finish)

-- `fds[0].revents & POLLIN`
abbrev pub pollin : List ℕ → Bool
pollin revents = if bit_and (head_or_zero revents) 1 == 0 then false else true

-- The body of `if (fds[0].revents & POLLIN)` in `s_ipv6_udp`. A failed `recvfrom` ends the program
-- before its -1 in the sum is read. `again` is the next round.
unfoldable pub ipv6_udp_receive : ℕ → ℕ → (ℕ → Prog ℕ) → Prog ℕ
ipv6_udp_receive fd checksum again = do
  bytes ← unwrap (← sys (recvfrom fd 1024)) (die "recvfrom")
  defined (add_int checksum (length bytes))
      λ sum. if reads_as (overwrite (zeroed 1024) bytes) "exit\n" then ret sum else again sum

-- `while (1)` of `s_ipv6_udp`.
unfoldable pub ipv6_udp_loop : ℕ → ℕ → ℕ → Prog ℕ
ipv6_udp_loop zero fd checksum = spin
ipv6_udp_loop (suc fuel) fd checksum = do
  polled ← sys (poll (fd ∷ []) none)
  elim polled [
    | none ↦ die "poll"
    | some revents ↦
        if pollin revents
        then ipv6_udp_receive fd checksum (λ sum. ipv6_udp_loop fuel fd sum)
        else ipv6_udp_loop fuel fd checksum
  ]

unfoldable pub s_ipv6_udp : ℕ → Text → Prog ℤ
s_ipv6_udp fuel port = do
  fd ← unwrap (← sys (socket Domain.inet6 Kind.dgram)) (die "socket")
  require (← sys (setsockopt fd)) (do sys (perror "setsockopt"); sys (close fd); exit 1)
  require (← sys (bind fd (any_host (parsed port)))) (die "bind")
  start ← sys gettimeofday
  ipv6_udp_loop fuel fd 0
  finish ← sys gettimeofday
  sys (close fd)
  ret (elapsed start finish)

-- The body of `if (fds[0].revents & POLLIN)` in `s_mmap`.
unfoldable pub mmap_receive : ℕ → ℕ → (ℕ → Prog (Option ℕ)) → Prog (Option ℕ)
mmap_receive fd bite again = do
  got ← sys (recvfrom fd 1023)
  elim got [
    | none ↦ do sys (perror "recvfrom"); sys (close fd); ret none
    | some bytes ↦ defined (add_int bite (length bytes)) again
  ]

-- `while (1)` of `s_mmap`, which `poll` ends after five quiet seconds. `none` is its `return -1`.
unfoldable pub mmap_loop : ℕ → ℕ → ℕ → Prog (Option ℕ)
mmap_loop zero fd bite = spin
mmap_loop (suc fuel) fd bite = do
  polled ← sys (poll (fd ∷ []) (some 5000))
  elim polled [
    | none ↦ do sys (perror "poll"); sys (close fd); ret none
    | some revents ↦
        if ready_count revents == 0
        then ret (some bite)
        else if pollin revents
        then mmap_receive fd bite (λ sum. mmap_loop fuel fd sum)
        else mmap_loop fuel fd bite
  ]

-- The end of `s_mmap`, or the `return -1` of its loop.
unfoldable pub mmap_end : ℕ → ℕ × ℕ → Option ℕ → Prog ℤ
mmap_end fd start none = ret (negsuc 0)
mmap_end fd start (some bite) = do
  finish ← sys gettimeofday
  sys (close fd)
  ret (elapsed start finish)

unfoldable pub s_mmap : ℕ → Text → Prog ℤ
s_mmap fuel port = do
  opened ← sys (socket Domain.inet Kind.dgram)
  elim opened [
    | none ↦ do sys (perror "socket"); ret (negsuc 0)
    | some fd ↦ do
      reusable ← sys (setsockopt fd)
      elim reusable [
        | false ↦ do sys (perror "setsockopt"); sys (close fd); ret (negsuc 0)
        | true ↦ do
          bound ← sys (bind fd (any_host (parsed port)))
          elim bound [
            | false ↦ do sys (perror "bind"); sys (close fd); ret (negsuc 0)
            | true ↦ do start ← sys gettimeofday; out ← mmap_loop fuel fd 0; mmap_end fd start out
          ]
      ]
  ]
