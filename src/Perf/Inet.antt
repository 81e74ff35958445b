-- ===== src/Perf/Inet.antt =====
-- The client tests over the internet protocols of task3_making-chat-on-c/prartb_2.c.
use making_chat_on_c.Base.{ℕ, ◌*◌, ◌-◌, ◌/◌, ◌%◌, Bool, List, [], ◌∷◌, overwrite}
use making_chat_on_c.Base.Int.{sub_ℕ}
use making_chat_on_c.Checksum.{calculate_checksum}
use making_chat_on_c.Checksum.Sum.{filled_pairs}
use making_chat_on_c.Checksum.Laws.{checksum_bytes}
use making_chat_on_c.Os.{
  Prog, ret, ◌>>=◌, ◌>>◌, sys, defined, Text, Domain, Kind, host, parsed, socket, inet_pton, close,
  connect, fopen_path, fclose, file_size, malloc, free, fread, send, sendto, recv, recvfrom,
  gettimeofday, clock, perror, print, elapsed,
}
use making_chat_on_c.Perf.{or_return, check_or_return, stop, filled, store_at, show_result}

-- `htons(checksum)` as it lies in memory.
abbrev pub network_bytes : ℕ → List ℕ
network_bytes c = c / 256 ∷ c % 256 ∷ []

-- From the checksum on. `data'` is the file as it was read.
unfoldable pub transmit_file : ℕ → ℕ → ℕ → List ℕ → Bool → Prog (Unit {0})
unfolding show_result
transmit_file sock file block data' quiet = defined (calculate_checksum data') λ checksum. do
  start ← sys gettimeofday
  sent ← sys (send sock (network_bytes checksum))
  or_return sent (do sys (perror "send"); sys (free block); sys (close sock); ret tt)
      λ n. do
        sent ← sys (send sock data')
        or_return sent (do sys (perror "send"); sys (free block); sys (close sock); ret tt)
            λ n. do
              sys (recv sock 1024)
              finish ← sys gettimeofday
              show_result quiet "ipv4_tcp" (elapsed start finish)
              sys (close sock)
              sys (free block)
              sys (fclose file)
              ret tt

-- `memory n` is what a new block of `n` bytes happens to hold.
unfoldable pub perform_ipv4_tcp_client_test :
    (ℕ → List ℕ) → Text → Text → Text → Bool → Prog (Unit {0})
unfolding transmit_file
perform_ipv4_tcp_client_test memory ip port filename quiet = do
  opened ← sys (socket Domain.inet Kind.stream)
  or_return opened (stop "socket") λ sock. do
    valid ← sys (inet_pton ip)
    check_or_return valid (do sys (perror "inet_pton"); sys (close sock); ret tt)
        (do
          connected ← sys (connect sock (host ip (parsed port)))
          check_or_return connected (do sys (perror "connect"); sys (close sock); ret tt)
              (do
                file ← sys (fopen_path filename "rb")
                or_return file (do sys (perror "fopen"); sys (close sock); ret tt)
                    λ file. do
                      n ← sys (file_size file)
                      block ← sys (malloc n)
                      or_return block
                          (do
                            sys (print "Failed to allocate memory" [])
                            sys (fclose file)
                            sys (close sock)
                            ret tt)
                          λ block. do
                            bytes ← sys (fread file n)
                            transmit_file sock file block (overwrite (memory n) bytes) quiet))

-- From the data on.
unfoldable pub transmit_ipv4_udp : ℕ → ℕ → Text → Text → Bool → Prog (Unit {0})
unfolding show_result
transmit_ipv4_udp half sock ip port quiet =
    let data' = filled_pairs half 65 in
    defined (calculate_checksum data') λ checksum. do
      start ← sys clock
      sent ← sys (sendto sock (checksum_bytes checksum) (host ip (parsed port)))
      or_return sent (do sys (perror "sendto"); sys (close sock); ret tt)
          λ n. do
            sent ← sys (sendto sock data' (host ip (parsed port)))
            or_return sent (do sys (perror "sendto"); sys (close sock); ret tt)
                λ n. do
                  received ← sys (recvfrom sock 1)
                  or_return received (do sys (perror "recvfrom"); sys (close sock); ret tt)
                      λ ack. do
                        finish ← sys clock
                        sys (close sock)
                        show_result quiet "ipv4_udp" (sub_ℕ finish start)

unfoldable pub perform_ipv4_udp_client_test : ℕ → Text → Text → Bool → Prog (Unit {0})
unfolding transmit_ipv4_udp
perform_ipv4_udp_client_test half ip port quiet = do
  opened ← sys (socket Domain.inet Kind.dgram)
  or_return opened (stop "socket") λ sock. do
    valid ← sys (inet_pton ip)
    check_or_return valid (do sys (perror "inet_pton"); sys (close sock); ret tt)
        (transmit_ipv4_udp half sock ip port quiet)

-- From `memset` on. The checksum overwrites the last two bytes.
unfoldable pub transmit_ipv6_tcp : ℕ → ℕ → ℕ → Bool → Prog (Unit {0})
unfolding show_result store_at
transmit_ipv6_tcp half sock block quiet =
    let data' = filled_pairs half 65 in
    do
      start ← sys gettimeofday
      defined (calculate_checksum data') λ checksum.
          defined (store_at data' (2 * half - 2) (checksum_bytes checksum)) λ data'. do
            sent ← sys (send sock data')
            or_return sent (do sys (perror "send"); sys (close sock); sys (free block); ret tt)
                λ n. do
                  finish ← sys gettimeofday
                  show_result quiet "ipv6_tcp" (elapsed start finish)
                  sys (close sock)
                  sys (free block)
                  ret tt

unfoldable pub perform_ipv6_tcp_client_test : ℕ → Text → Text → Bool → Prog (Unit {0})
unfolding transmit_ipv6_tcp
perform_ipv6_tcp_client_test half ip port quiet = do
  opened ← sys (socket Domain.inet6 Kind.stream)
  or_return opened (stop "socket") λ sock. do
    valid ← sys (inet_pton ip)
    check_or_return valid (do sys (perror "inet_pton"); sys (close sock); ret tt)
        (do
          connected ← sys (connect sock (host ip (parsed port)))
          check_or_return connected (do sys (perror "connect"); sys (close sock); ret tt)
              (do
                block ← sys (malloc (2 * half))
                or_return block (do sys (perror "malloc"); sys (close sock); ret tt)
                    λ block. transmit_ipv6_tcp half sock block quiet))

unfoldable pub transmit_ipv6_udp : ℕ → ℕ → ℕ → Text → Text → Bool → Prog (Unit {0})
unfolding show_result store_at
transmit_ipv6_udp half sock block ip port quiet =
    let data' = filled_pairs half 65 in
    defined (calculate_checksum data') λ checksum.
      defined (store_at data' (2 * half - 2) (checksum_bytes checksum)) λ data'. do
        start ← sys gettimeofday
        sent ← sys (sendto sock data' (host ip (parsed port)))
        or_return sent
            (do sys (perror "Error sending data"); sys (close sock); sys (free block); ret tt)
            λ n. do
              finish ← sys gettimeofday
              show_result quiet "ipv6_udp" (elapsed start finish)
              sys (close sock)
              sys (free block)
              ret tt

unfoldable pub perform_ipv6_udp_client_test : ℕ → Text → Text → Bool → Prog (Unit {0})
unfolding transmit_ipv6_udp
perform_ipv6_udp_client_test half ip port quiet = do
  opened ← sys (socket Domain.inet6 Kind.dgram)
  or_return opened (stop "Error creating socket") λ sock. do
    valid ← sys (inet_pton ip)
    check_or_return valid (do sys (perror "Invalid address"); sys (close sock); ret tt)
        (do
          block ← sys (malloc (2 * half))
          filled block λ block. transmit_ipv6_udp half sock block ip port quiet)
