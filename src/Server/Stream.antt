-- ===== src/Server/Stream.antt =====
-- The stream servers of task3_making-chat-on-c/server.c, and the server of the named pipe.
-- Each loop runs on fuel. The byte totals are a `ssize_t` and the times a `long` of 64 bits,
-- whose bounds no run reaches; the `int` total of the pipe is followed to its overflow.
use making_chat_on_c.Base.{ℕ, zero, suc, ◌+◌, ◌%◌, ◌^◌, [], ◌∷◌, none, some, length}
use making_chat_on_c.Base.Int.{ℤ}
use making_chat_on_c.Os.{
  Text, Prog, ret, exit, spin, ◌>>=◌, ◌>>◌, sys, die, require, unwrap, elapsed, Domain, Kind,
  any_host, parsed, socket_path, socket, setsockopt, bind, listen, accept, recv, read, gettimeofday,
  close, unlink, perror, mkfifo, open_file, fopen, fclose, fwrite,
}

-- `while (1)` of `s_ipv4_tcp`: until the peer closes. The state is the bytes counted so far.
unfoldable pub ipv4_tcp_loop : ℕ → ℕ → ℕ → ℕ → Prog ℕ
ipv4_tcp_loop zero server client total = spin
ipv4_tcp_loop (suc fuel) server client total = do
  got ← sys (recv client 1024)
  elim got [
    | none ↦ do sys (perror "recv"); sys (close client); sys (close server); exit 1
    | some [] ↦ ret total
    | some (b ∷ bs) ↦ ipv4_tcp_loop fuel server client (total + length (b ∷ bs))
  ]

unfoldable pub s_ipv4_tcp : ℕ → Text → Prog ℤ
s_ipv4_tcp fuel port = do
  server ← unwrap (← sys (socket Domain.inet Kind.stream)) (die "socket")
  require (← sys (setsockopt server)) (do sys (perror "setsockopt"); sys (close server); exit 1)
  require (← sys (bind server (any_host (parsed port)))) (die "bind")
  require (← sys (listen server 1)) (die "listen")
  client ← unwrap (← sys (accept server)) (die "accept")
  start ← sys gettimeofday
  ipv4_tcp_loop fuel server client 0
  finish ← sys gettimeofday
  sys (close client)
  sys (close server)
  ret (elapsed start finish)

-- `while (1)` of `s_ipv6_tcp`: a failed `recv` ends it too.
unfoldable pub ipv6_tcp_loop : ℕ → ℕ → ℕ → Prog ℕ
ipv6_tcp_loop zero client total = spin
ipv6_tcp_loop (suc fuel) client total = do
  got ← sys (recv client 1024)
  elim got [
    | none ↦ ret total
    | some [] ↦ ret total
    | some (b ∷ bs) ↦ ipv6_tcp_loop fuel client (total + length (b ∷ bs))
  ]

unfoldable pub s_ipv6_tcp : ℕ → Text → Prog ℤ
s_ipv6_tcp fuel port = do
  server ← unwrap (← sys (socket Domain.inet6 Kind.stream)) (die "socket")
  require (← sys (setsockopt server)) (do sys (perror "setsockopt"); sys (close server); exit 1)
  require (← sys (bind server (any_host (parsed port)))) (die "bind")
  require (← sys (listen server 1)) (die "listen")
  client ← unwrap (← sys (accept server)) (die "accept")
  start ← sys gettimeofday
  ipv6_tcp_loop fuel client 0
  finish ← sys gettimeofday
  sys (close client)
  sys (close server)
  ret (elapsed start finish)

-- The `while` of `s_uds_stream`, with the test of `bytesRead` behind it.
unfoldable pub uds_stream_loop : ℕ → ℕ → ℕ → Prog ℕ
uds_stream_loop zero client total = spin
uds_stream_loop (suc fuel) client total = do
  got ← sys (read client 1024)
  elim got [
    | none ↦ die "read"
    | some [] ↦ ret total
    | some (b ∷ bs) ↦ uds_stream_loop fuel client (total + length (b ∷ bs))
  ]

unfoldable pub s_uds_stream : ℕ → Prog ℤ
s_uds_stream fuel = do
  server ← unwrap (← sys (socket Domain.unix_local Kind.stream)) (die "socket")
  require (← sys (setsockopt server)) (do sys (perror "setsockopt"); sys (close server); exit 1)
  sys (unlink "/tmp/file.txt")
  require (← sys (bind server (socket_path "/tmp/file.txt"))) (die "bind")
  require (← sys (listen server 1)) (die "listen")
  client ← unwrap (← sys (accept server)) (die "accept")
  start ← sys gettimeofday
  uds_stream_loop fuel client 0
  finish ← sys gettimeofday
  sys (close client)
  sys (close server)
  ret (elapsed start finish)

-- The `while` of `s_pipe`. `checksum` adds up the sizes: the sum is an `ssize_t`, and its conversion
-- back to an `int` is taken to keep the low 32 bits, by which it stands here.
unfoldable pub pipe_loop : ℕ → ℕ → ℕ → ℕ → Prog ℕ
pipe_loop zero pipe out checksum = spin
pipe_loop (suc fuel) pipe out checksum = do
  got ← sys (read pipe 1024)
  elim got [
    | none ↦ ret checksum
    | some [] ↦ ret checksum
    | some (b ∷ bs) ↦ do
      sys (fwrite out (b ∷ bs))
      pipe_loop fuel pipe out ((checksum + length (b ∷ bs)) % 2 ^ 32)
  ]

unfoldable pub s_pipe : ℕ → Prog ℤ
s_pipe fuel = do
  sys (mkfifo "myfifo")
  pipe ← unwrap (← sys (open_file "myfifo" "O_RDONLY")) (die "Failed to open named pipe")
  out ← unwrap (← sys (fopen "received_file.txt" "w")) (die "Failed to open file for writing")
  start ← sys gettimeofday
  pipe_loop fuel pipe out 0
  finish ← sys gettimeofday
  sys (fclose out)
  sys (close pipe)
  sys (unlink "myfifo")
  ret (elapsed start finish)
