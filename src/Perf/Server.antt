-- ===== src/Perf/Server.antt =====
-- The server test, the test file and `main` of task3_making-chat-on-c/prartb_2.c.
use making_chat_on_c.Base.{
  ℕ, suc, ◌+◌, ◌*◌, Bool, List, [], ◌∷◌, ◌++◌, Option, none, some, length, take, ◌&&◌, ◌||◌,
  bytes_eq, codes, if◌then◌else◌,
}
use making_chat_on_c.Base.Int.{sub_ℕ}
use making_chat_on_c.Checksum.{calculate_checksum}
use making_chat_on_c.Checksum.Sum.{filled_pairs}
use making_chat_on_c.Checksum.Laws.{checksum_bytes}
use making_chat_on_c.Os.{
  Prog, ret, fault, ◌>>=◌, ◌>>◌, sys, defined, Text, Domain, Kind, any_host, parsed, socket, bind,
  listen, accept, close, malloc, free, clock, perror, print, fopen, fclose, fwrite_whole, fputs,
}
use making_chat_on_c.Perf.{or_return, check_or_return, stop, show_result, write_all}
use making_chat_on_c.Perf.Inet.{
  perform_ipv4_tcp_client_test, perform_ipv4_udp_client_test, perform_ipv6_tcp_client_test,
  perform_ipv6_udp_client_test,
}
use making_chat_on_c.Perf.Local.{
  perform_uds_dgram_client_test, perform_uds_stream_client_test, perform_mmap_client_test,
  perform_pipe_client_test,
}

-- From the loop on. A failed write ends it as its end does.
unfoldable pub serve_data : ℕ → ℕ → ℕ → List ℕ → Bool → Prog (Unit {0})
unfolding show_result write_all
serve_data server client buffer bytes quiet = do
  start ← sys clock
  write_all (suc (length bytes)) client bytes
  finish ← sys clock
  show_result quiet "performance_test" (sub_ℕ finish start)
  sys (free buffer)
  sys (close client)
  sys (close server)
  ret tt

-- From `memset` on. The checksum is taken of the first half of the data.
unfoldable pub transmit_server : ℕ → ℕ → ℕ → ℕ → Bool → Prog (Unit {0})
unfolding serve_data
transmit_server half server client buffer quiet =
    let data' = filled_pairs half 65 in
    defined (calculate_checksum (take half data')) λ checksum. do
      copy ← sys (malloc (2 * half + 2))
      or_return copy (do sys (perror "malloc"); sys (close client); sys (close server); ret tt)
          λ copy. serve_data server client buffer (data' ++ checksum_bytes checksum) quiet

unfoldable pub perform_server_performance_test : ℕ → Text → Bool → Prog (Unit {0})
unfolding transmit_server
perform_server_performance_test half port quiet = do
  opened ← sys (socket Domain.inet Kind.stream)
  or_return opened (stop "socket") λ server. do
    bound ← sys (bind server (any_host (parsed port)))
    check_or_return bound (do sys (perror "bind"); sys (close server); ret tt)
        (do
          listening ← sys (listen server 1)
          check_or_return listening (do sys (perror "listen"); sys (close server); ret tt)
              (do
                accepted ← sys (accept server)
                or_return accepted (do sys (perror "accept"); sys (close server); ret tt)
                    λ client. do
                      buffer ← sys (malloc (2 * half))
                      or_return buffer
                          (do sys (perror "malloc"); sys (close client); sys (close server); ret tt)
                          λ buffer. transmit_server half server client buffer quiet))

unfoldable pub generate_file : ℕ → Prog (Unit {0})
generate_file half = do
  opened ← sys (fopen "sample.txt" "w")
  or_return opened (stop "ERROR: Could not open file") λ file. do
    block ← sys (malloc (2 * half))
    or_return block (do sys (print "Failed to allocate memory" []); sys (fclose file); ret tt)
        λ block. do
          whole ← sys (fwrite_whole file (filled_pairs half 65))
          check_or_return whole
              (do sys (print "Failed to write" []); sys (free block); sys (fclose file); ret tt)
              (do
                sys (fputs file "this is the end of the file")
                sys (free block)
                sys (fclose file)
                ret tt)

pub data Test : Type 0 where
  ipv4_tcp ipv4_udp ipv6_tcp ipv6_udp uds_dgram uds_stream mmap pipe : Test

-- The chain of `strcmp` on `type` and `param`.
unfoldable pub choose_test : Text → Text → Option Test
choose_test type param =
    if bytes_eq type (codes "ipv4") && bytes_eq param (codes "tcp")
    then some ipv4_tcp
    else if bytes_eq type (codes "ipv4") && bytes_eq param (codes "udp")
    then some ipv4_udp
    else if bytes_eq type (codes "ipv6") && bytes_eq param (codes "tcp")
    then some ipv6_tcp
    else if bytes_eq type (codes "ipv6") && bytes_eq param (codes "udp")
    then some ipv6_udp
    else if bytes_eq type (codes "uds") && bytes_eq param (codes "dgram")
    then some uds_dgram
    else if bytes_eq type (codes "uds") && bytes_eq param (codes "stream")
    then some uds_stream
    else if bytes_eq type (codes "mmap")
    then some mmap
    else if bytes_eq type (codes "pipe")
    then some pipe
    else none

unfoldable pub perform : ℕ → (ℕ → List ℕ) → Text → Text → Text → Bool → Test → Prog (Unit {0})
perform half memory ip port param quiet ipv4_tcp =
    perform_ipv4_tcp_client_test memory ip port (codes "sample.txt") quiet
perform half memory ip port param quiet ipv4_udp = perform_ipv4_udp_client_test half ip port quiet
perform half memory ip port param quiet ipv6_tcp = perform_ipv6_tcp_client_test half ip port quiet
perform half memory ip port param quiet ipv6_udp = perform_ipv6_udp_client_test half ip port quiet
perform half memory ip port param quiet uds_dgram = perform_uds_dgram_client_test half ip quiet
perform half memory ip port param quiet uds_stream = perform_uds_stream_client_test half ip quiet
perform half memory ip port param quiet mmap = perform_mmap_client_test half param quiet
perform half memory ip port param quiet pipe = perform_pipe_client_test half param quiet

-- The same chain for a `param` that is `NULL`: `none` is a `strcmp` of it.
unfoldable pub choose_without_param : Text → Option (Option Test)
choose_without_param type =
    if bytes_eq type (codes "ipv4") || bytes_eq type (codes "ipv6") || bytes_eq type (codes "uds")
    then none
    else if bytes_eq type (codes "mmap")
    then some (some mmap)
    else if bytes_eq type (codes "pipe")
    then some (some pipe)
    else some none

unfoldable pub run_chosen : ℕ → (ℕ → List ℕ) → Text → Text → Text → Bool → Option Test → Prog ℕ
run_chosen half memory ip port param quiet none = do
  sys (print "Invalid performance test parameters." [])
  ret 1
run_chosen half memory ip port param quiet (some test) = do
  perform half memory ip port param quiet test
  ret 0

abbrev pub no_test : Prog ℕ
no_test = do sys (print "No performance test specified." []); ret 1

-- The client's part of `main`, by what is behind the port and the next argument. With less than
-- six arguments `argv[6]` is behind the array; an `open` of `NULL` stands as one of no text.
unfoldable pub main_client : ℕ → (ℕ → List ℕ) → Text → Text → Bool → Bool → List Text → Prog ℕ
unfolding run_chosen choose_test choose_without_param
main_client half memory ip port performance quiet [] = fault
main_client half memory ip port performance quiet (type ∷ []) =
    if performance
    then defined (choose_without_param type) (run_chosen half memory ip port [] quiet)
    else no_test
main_client half memory ip port performance quiet (type ∷ param ∷ rest) =
    if performance
    then run_chosen half memory ip port param quiet (choose_test type param)
    else no_test

unfoldable pub main_server : ℕ → Text → Bool → Bool → Prog ℕ
main_server half port performance quiet =
    if performance
    then (if quiet
        then (do perform_server_performance_test half port quiet; ret 0)
        else do sys (print "Invalid server options." []); ret 1)
    else no_test

-- `main`. With three arguments `argv[4]` is `NULL`, and a `strcmp` reads through it.
unfoldable pub perf_main : ℕ → (ℕ → List ℕ) → List Text → Prog ℕ
unfolding main_client main_server generate_file
perf_main half memory (name ∷ mode ∷ second ∷ third ∷ []) = do generate_file half; fault
perf_main half memory (name ∷ mode ∷ second ∷ third ∷ fourth ∷ rest) = do
  generate_file half
  (if bytes_eq mode (codes "-c")
      then main_client half memory second third (bytes_eq third (codes "-p"))
          (bytes_eq fourth (codes "-q")) rest
      else if bytes_eq mode (codes "-s")
      then main_server half second (bytes_eq third (codes "-p")) (bytes_eq fourth (codes "-q"))
      else do sys (print "Invalid command." []); ret 1)
perf_main half memory argv = do sys (print "Usage:" []); ret 1
