-- ===== src/Early/Checksums.antt =====
-- The IPv6 tests of task3_making-chat-on-c/partb.c. `sha256` is OpenSSL's, and `data'` are the
-- bytes that `rand` gave.
use making_chat_on_c.Base.{
  ℕ, zero, suc, ◌+◌, Bool, true, false, List, [], ◌++◌, none, some, String, length, ltb, leb,
  bytes_eq, drop, if◌then◌else◌,
}
use making_chat_on_c.Os.{
  Text, Prog, ret, fault, spin, ◌>>=◌, ◌>>◌, sys, perror, print, malloc, free, socket, setsockopt,
  resolve, resolved, freeaddrinfo, connect, send, sendto, recv, recvfrom, clock, close, Domain,
  Kind,
}
use making_chat_on_c.Perf.{or_return, check_or_return}
use making_chat_on_c.Early.{print_test_result}

-- `SHA256_DIGEST_LENGTH`
abbrev pub digest_length : ℕ
digest_length = 32

-- The loop that receives a checksum into an array of 32 bytes: `true` when there are 32. An end of
-- the connection is a `recv` of no bytes.
unfoldable pub receive_checksum : ℕ → ℕ → ℕ → Prog Bool
receive_checksum zero sock received = spin
receive_checksum (suc fuel) sock received =
    if ltb received digest_length
    then (do
      got ← sys (recv sock 1024)
      elim got [
        | none ↦ do sys (perror "recv"); ret false
        | some bytes ↦
            if leb (received + length bytes) digest_length
            then receive_checksum fuel sock (received + length bytes)
            else fault
      ])
    else ret true

abbrev pub give_up : String → ℕ → ℕ → Prog (Unit {0})
give_up message sock block = do
  sys (perror message)
  sys (close sock)
  sys freeaddrinfo
  sys (free block)
  ret tt

-- From `connect` on. The checksum of the data is not compared with what is received.
unfoldable pub send_ipv6 : ℕ → ℕ → ℕ → List ℕ → Text → Text → Bool → Prog (Unit {0})
unfolding receive_checksum
send_ipv6 fuel sock block data' ip port quiet = do
  start ← sys clock
  connected ← sys (connect sock (resolved ip port))
  check_or_return connected (give_up "connect" sock block) (do
    finish ← sys clock
    sent ← sys (send sock data')
    or_return sent (give_up "send" sock block) λ n. do
      all ← receive_checksum fuel sock 0
      elim all [
        | false ↦ do sys (close sock); sys freeaddrinfo; sys (free block); ret tt
        | true ↦ do
          (if quiet then ret tt else (do sys (print "IPv6 TCP test:" []); ret tt))
          sys (close sock)
          sys freeaddrinfo
          sys (free block)
          ret tt
      ])

unfoldable pub ipv6_tcp : ℕ → List ℕ → Text → Text → Bool → Prog (Unit {0})
unfolding send_ipv6
ipv6_tcp fuel data' ip port quiet = do
  allocated ← sys (malloc (length data'))
  or_return allocated (do sys (perror "malloc"); ret tt)
      λ block. do
        opened ← sys (socket Domain.inet6 Kind.stream)
        or_return opened (do sys (perror "socket"); sys (free block); ret tt)
            λ sock. do
              sys (setsockopt sock)
              found ← sys (resolve ip port)
              check_or_return found
                  (do sys (print "getaddrinfo: " []); sys (close sock); sys (free block); ret tt)
                  (send_ipv6 fuel sock block data' ip port quiet)

-- The digest of the received digest is compared with that of the data. `garbage` is what the array
-- holds behind a short datagram.
unfoldable pub is_verified : (List ℕ → List ℕ) → List ℕ → List ℕ → List ℕ → Bool
is_verified sha256 data' garbage received =
    bytes_eq (sha256 data') (sha256 (received ++ drop (length received) garbage))

-- From `recvfrom` on. In quiet mode nothing is closed or freed.
unfoldable pub verify_ipv6 : (List ℕ → List ℕ) → List ℕ → ℕ → ℕ → List ℕ → Bool → Prog (Unit {0})
unfolding is_verified print_test_result
verify_ipv6 sha256 garbage sock block data' quiet = do
  got ← sys (recvfrom sock digest_length)
  or_return got (do sys (perror "recvfrom"); ret tt)
      λ received. do
        (if is_verified sha256 data' garbage received
            then ret tt
            else (do sys (print "Checksums do not match!" []); ret tt))
        (if quiet then ret tt else (do
          print_test_result "ipv6_udp" quiet
          sys freeaddrinfo
          sys (close sock)
          sys (free block)
          ret tt))

unfoldable pub ipv6_udp : (List ℕ → List ℕ) → List ℕ → List ℕ → Text → Text → Bool → Prog (Unit {0})
unfolding verify_ipv6
ipv6_udp sha256 garbage data' ip port quiet = do
  allocated ← sys (malloc (length data'))
  or_return allocated (do sys (perror "malloc"); ret tt)
      λ block. do
        opened ← sys (socket Domain.inet6 Kind.dgram)
        or_return opened (do sys (perror "socket"); ret tt)
            λ sock. do
              set ← sys (setsockopt sock)
              check_or_return set (do sys (perror "setsockopt"); ret tt)
                  (do
                    found ← sys (resolve ip port)
                    check_or_return found (do sys (perror "getaddrinfo"); ret tt)
                        (do
                          start ← sys clock
                          sent ← sys (sendto sock data' (resolved ip port))
                          finish ← sys clock
                          or_return sent (do sys (perror "sendto"); ret tt)
                              λ n. verify_ipv6 sha256 garbage sock block data' quiet))
