-- ===== src/Client/Lines.antt =====
-- The clients of task3_making-chat-on-c/client.c that send `file.txt` line by line: `fgets` reads
-- a line of at most 1023 bytes, and `strlen(buffer)` bytes of it are sent.
use making_chat_on_c.Base.{ℕ, zero, suc, List, none, some, c_string, codes}
use making_chat_on_c.Os.{
  Text, Prog, ret, spin, ◌>>=◌, ◌>>◌, sys, die, require, unwrap, Domain, Kind, Address, host,
  parsed, socket_path, socket, connect, send, sendto, close, fopen, fclose, fgets,
}

-- `while (fgets(...) != NULL) if (send(...) < 0) ...` of `c_ipv4_tcp`, and of `c_uds_stream`
unfoldable pub send_lines : ℕ → ℕ → ℕ → Prog (Unit {0})
send_lines zero fd file = spin
send_lines (suc fuel) fd file = do
  line ← sys (fgets file 1024)
  elim line [
    | none ↦ ret tt
    | some bytes ↦ do
      sent ← sys (send fd (c_string bytes))
      elim sent [ none ↦ die "send" | some n ↦ send_lines fuel fd file ]
  ]

unfoldable pub c_ipv4_tcp : ℕ → Text → Text → Prog ℕ
c_ipv4_tcp fuel ip port = do
  fd ← unwrap (← sys (socket Domain.inet Kind.stream)) (die "socket")
  require (← sys (connect fd (host ip (parsed port)))) (die "connect")
  file ← unwrap (← sys (fopen "file.txt" "r")) (die "fopen")
  send_lines fuel fd file
  sys (fclose file)
  sys (close fd)
  ret 0

unfoldable pub c_uds_stream : ℕ → Prog ℕ
c_uds_stream fuel = do
  fd ← unwrap (← sys (socket Domain.unix_local Kind.stream)) (die "socket")
  require (← sys (connect fd (socket_path "/tmp/file.txt"))) (die "connect")
  file ← unwrap (← sys (fopen "file.txt" "r")) (die "fopen")
  send_lines fuel fd file
  sys (fclose file)
  sys (close fd)
  ret 0

-- The loop of `c_ipv4_udp` and of `c_ipv6_udp`
unfoldable pub sendto_lines : ℕ → ℕ → ℕ → Address → Prog (Unit {0})
sendto_lines zero fd file address = spin
sendto_lines (suc fuel) fd file address = do
  line ← sys (fgets file 1024)
  elim line [
    | none ↦ ret tt
    | some bytes ↦ do
      sent ← sys (sendto fd (c_string bytes) address)
      elim sent [ none ↦ die "sendto" | some n ↦ sendto_lines fuel fd file address ]
  ]

-- `strcpy(buffer, "exit\n")` and the `sendto` of it
abbrev pub exit_line : List ℕ
exit_line = codes "exit\n"

unfoldable pub c_ipv4_udp : ℕ → Text → Text → Prog ℕ
c_ipv4_udp fuel ip port = do
  fd ← unwrap (← sys (socket Domain.inet Kind.dgram)) (die "socket")
  file ← unwrap (← sys (fopen "file.txt" "r")) (die "fopen")
  sendto_lines fuel fd file (host ip (parsed port))
  unwrap (← sys (sendto fd exit_line (host ip (parsed port)))) (die "sendto")
  sys (fclose file)
  sys (close fd)
  ret 0

unfoldable pub c_ipv6_udp : ℕ → Text → Text → Prog ℕ
c_ipv6_udp fuel ip port = do
  fd ← unwrap (← sys (socket Domain.inet6 Kind.dgram)) (die "socket")
  file ← unwrap (← sys (fopen "file.txt" "r")) (die "fopen")
  sendto_lines fuel fd file (host ip (parsed port))
  unwrap (← sys (sendto fd exit_line (host ip (parsed port)))) (die "sendto")
  sys (fclose file)
  sys (close fd)
  ret 0
