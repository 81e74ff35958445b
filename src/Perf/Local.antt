-- ===== src/Perf/Local.antt =====
-- The client tests on one machine of task3_making-chat-on-c/prartb_2.c.
use making_chat_on_c.Base.{ℕ, suc, ◌+◌, ◌*◌, Bool, List, ◌++◌, length, take}
use making_chat_on_c.Base.Int.{sub_ℕ}
use making_chat_on_c.Checksum.{calculate_checksum}
use making_chat_on_c.Checksum.Sum.{filled_pairs}
use making_chat_on_c.Checksum.Laws.{checksum_bytes}
use making_chat_on_c.Os.{
  Prog, ret, ◌>>=◌, ◌>>◌, sys, defined, Text, Domain, Kind, host, literal, named_socket, socket,
  inet_pton, close, connect, open_path, ftruncate, map_file, munmap, malloc, free, send, sendto,
  write, gettimeofday, clock, perror, elapsed,
}
use making_chat_on_c.Base.{codes}
use making_chat_on_c.Perf.{
  or_return, check_or_return, stop, filled, store_at, show_result, send_all, write_all,
}
use making_chat_on_c.Perf.Inet.{network_bytes}

unfoldable pub transmit_uds_dgram : ℕ → ℕ → ℕ → Text → Bool → Prog (Unit {0})
unfolding show_result
transmit_uds_dgram half sock block ip quiet =
    let data' = filled_pairs half 65 in
    defined (calculate_checksum data') λ checksum. do
      start ← sys gettimeofday
      sent ← sys (sendto sock (data' ++ checksum_bytes checksum) (named_socket (take 107 ip)))
      or_return sent (do sys (perror "sendto"); sys (free block); sys (close sock); ret tt)
          λ n. do
            finish ← sys gettimeofday
            show_result quiet "uds_dgram" (elapsed start finish)
            sys (free block)
            sys (close sock)
            ret tt

-- `strncpy` of the path keeps 107 bytes.
unfoldable pub perform_uds_dgram_client_test : ℕ → Text → Bool → Prog (Unit {0})
unfolding transmit_uds_dgram
perform_uds_dgram_client_test half ip quiet = do
  opened ← sys (socket Domain.unix_local Kind.dgram)
  or_return opened (stop "socket") λ sock. do
    block ← sys (malloc (2 * half))
    filled block λ block. transmit_uds_dgram half sock block ip quiet

-- The checksum is copied to the place behind the last byte of the block.
unfoldable pub transmit_uds_stream : ℕ → ℕ → ℕ → Bool → Prog (Unit {0})
unfolding show_result store_at send_all
transmit_uds_stream half sock block quiet =
    let data' = filled_pairs half 65 in
    defined (calculate_checksum data') λ checksum.
      defined (store_at data' (length data') (checksum_bytes checksum)) λ data'. do
        start ← sys clock
        send_all (suc (length data')) sock data'
        finish ← sys clock
        show_result quiet "uds_stream" (sub_ℕ finish start)
        sys (close sock)
        sys (free block)
        ret tt

-- `strcpy` of the path is taken to fit.
unfoldable pub perform_uds_stream_client_test : ℕ → Text → Bool → Prog (Unit {0})
unfolding transmit_uds_stream
perform_uds_stream_client_test half ip quiet = do
  opened ← sys (socket Domain.unix_local Kind.stream)
  or_return opened (stop "socket") λ sock. do
    connected ← sys (connect sock (named_socket ip))
    check_or_return connected (do sys (perror "connect"); sys (close sock); ret tt)
        (do
          block ← sys (malloc (2 * half))
          filled block λ block. transmit_uds_stream half sock block quiet)

-- The checksum is taken of the first half of the data.
unfoldable pub transmit_mmap : ℕ → ℕ → ℕ → Bool → Prog (Unit {0})
unfolding show_result
transmit_mmap half fd sock quiet =
    let data' = filled_pairs half 65 in
    defined (calculate_checksum (take half data')) λ checksum. do
      block ← sys (malloc (2 * half + 2))
      or_return block (stop "malloc") λ block. do
        start ← sys gettimeofday
        sent ← sys (send sock (data' ++ network_bytes checksum))
        or_return sent (stop "send buffer") λ n. do
          finish ← sys gettimeofday
          show_result quiet "mmap" (elapsed start finish)
          sys (munmap (2 * half))
          sys (free block)
          sys (close fd)
          ret tt

unfoldable pub perform_mmap_client_test : ℕ → Text → Bool → Prog (Unit {0})
unfolding transmit_mmap
perform_mmap_client_test half filename quiet = do
  opened ← sys (open_path filename "rw")
  or_return opened (stop "open") λ fd. do
    extended ← sys (ftruncate fd (2 * half))
    check_or_return extended (do sys (perror "ftruncate"); sys (close fd); ret tt)
        (do
          mapped ← sys (map_file fd (2 * half))
          check_or_return mapped (do sys (perror "mmap"); sys (close fd); ret tt)
              (do
                opened ← sys (socket Domain.inet Kind.stream)
                or_return opened (stop "socket") λ sock. do
                  valid ← sys (inet_pton (codes "127.0.0.1"))
                  check_or_return valid (stop "inet_pton") (do
                    connected ← sys (connect sock (host (codes "127.0.0.1") (literal 12345)))
                    check_or_return connected (stop "connect") (transmit_mmap half fd sock quiet))))

-- From the loop on.
unfoldable pub write_pipe : ℕ → ℕ → List ℕ → ℕ → Bool → Prog (Unit {0})
unfolding show_result write_all
write_pipe fd block data' checksum quiet = do
  start ← sys clock
  all ← write_all (suc (length data')) fd data'
  check_or_return all (do sys (close fd); sys (free block); ret tt)
      (do
        written ← sys (write fd (checksum_bytes checksum))
        or_return written (do sys (perror "write"); sys (close fd); sys (free block); ret tt)
            λ n. do
              finish ← sys clock
              sys (close fd)
              sys (free block)
              show_result quiet "pipe" (sub_ℕ finish start))

-- The checksum is taken of the first half of the data.
unfoldable pub transmit_pipe : ℕ → ℕ → Text → Bool → Prog (Unit {0})
unfolding write_pipe
transmit_pipe half block pipe_name quiet =
    let data' = filled_pairs half 65 in
    defined (calculate_checksum (take half data')) λ checksum. do
      opened ← sys (open_path pipe_name "w")
      or_return opened (do sys (perror "open"); sys (free block); ret tt)
          λ fd. write_pipe fd block data' checksum quiet

unfoldable pub perform_pipe_client_test : ℕ → Text → Bool → Prog (Unit {0})
unfolding transmit_pipe
perform_pipe_client_test half pipe_name quiet = do
  block ← sys (malloc (2 * half))
  filled block λ block. transmit_pipe half block pipe_name quiet
