-- ===== src/Client/Blocks.antt =====
-- The clients of task3_making-chat-on-c/client.c that send `file.txt` in blocks of up to 1024
-- bytes, as they are read.
use making_chat_on_c.Base.{ℕ, zero, suc, List, [], ◌∷◌, none, some, Bool, true, false}
use making_chat_on_c.Base.Int.{ℤ, pos, negsuc}
use making_chat_on_c.Os.{
  Text, Prog, ret, exit, spin, ◌>>=◌, ◌>>◌, sys, die, require, unwrap, Domain, Kind, host, parsed,
  socket_path, socket, connect, send, sendto, write, read, close, open_file, fopen, fclose, fread,
  feof, perror,
}

-- The loop of `c_ipv6_tcp`. The result of `send` is kept in a `size_t`, so `nbytes2 < 0` is never
-- true, and a failed `send` is passed over.
unfoldable pub send_blocks : ℕ → ℕ → ℕ → Prog (Unit {0})
send_blocks zero fd file = spin
send_blocks (suc fuel) fd file = do
  block ← sys (fread file 1024)
  elim block [ [] ↦ ret tt | b ∷ bs ↦ do sys (send fd (b ∷ bs)); send_blocks fuel fd file ]

unfoldable pub c_ipv6_tcp : ℕ → Text → Text → Prog (Unit {0})
c_ipv6_tcp fuel ip port = do
  fd ← unwrap (← sys (socket Domain.inet6 Kind.stream)) (die "socket")
  require (← sys (connect fd (host ip (parsed port)))) (exit 1)
  file ← unwrap (← sys (fopen "file.txt" "r")) (die "fopen")
  send_blocks fuel fd file
  sys (fclose file)
  sys (close fd)
  ret tt

-- `if (bytes_read > 0)` of `c_uds_dgram`: one datagram, of the first 1024 bytes at most
unfoldable pub send_first : ℕ → List ℕ → Prog (Unit {0})
send_first fd [] = ret tt
send_first fd (b ∷ bs) = do
  unwrap (← sys (sendto fd (b ∷ bs) (socket_path "/tmp/file.txt"))) (die "sendto")
  ret tt

unfoldable pub c_uds_dgram : Prog ℕ
unfolding send_first
c_uds_dgram = do
  fd ← unwrap (← sys (socket Domain.unix_local Kind.dgram)) (die "socket")
  file ← unwrap (← sys (fopen "file.txt" "r")) (die "fopen")
  block ← sys (fread file 1024)
  send_first fd block
  sys (fclose file)
  sys (close fd)
  ret 0

-- The loop of `c_mmap`; `false` is its `return -1`.
unfoldable pub copy_blocks : ℕ → ℕ → ℕ → Prog Bool
copy_blocks zero fd sock = spin
copy_blocks (suc fuel) fd sock = do
  block ← sys (read fd 1024)
  elim block [
    | none ↦ ret true
    | some [] ↦ ret true
    | some (b ∷ bs) ↦ do
      sent ← sys (send sock (b ∷ bs))
      elim sent [
        | none ↦ do sys (perror "send"); sys (close fd); sys (close sock); ret false
        | some n ↦ copy_blocks fuel fd sock
      ]
  ]

unfoldable pub copy_end : ℕ → ℕ → Bool → Prog ℤ
copy_end fd sock false = ret (negsuc 0)
copy_end fd sock true = do sys (close fd); sys (close sock); ret (pos 0)

unfoldable pub c_mmap : ℕ → Text → Text → Prog ℤ
c_mmap fuel ip port = do
  opened ← sys (open_file "file.txt" "O_RDONLY")
  elim opened [
    | none ↦ do sys (perror "open"); ret (negsuc 0)
    | some fd ↦ do
      created ← sys (socket Domain.inet Kind.stream)
      elim created [
        | none ↦ do sys (perror "socket"); sys (close fd); ret (negsuc 0)
        | some sock ↦ do
          connected ← sys (connect sock (host ip (parsed port)))
          elim connected [
            | false ↦ do sys (perror "connect"); sys (close fd); sys (close sock); ret (negsuc 0)
            | true ↦ do copied ← copy_blocks fuel fd sock; copy_end fd sock copied
          ]
      ]
  ]

-- `while (!feof(file))` of `c_pipe`; `false` is its `return -1`.
unfoldable pub pipe_blocks : ℕ → ℕ → ℕ → Prog Bool
pipe_blocks zero fd file = spin
pipe_blocks (suc fuel) fd file = do
  ended ← sys (feof file)
  elim ended [
    | true ↦ ret true
    | false ↦ do
      block ← sys (fread file 1024)
      elim block [
        | [] ↦ pipe_blocks fuel fd file
        | b ∷ bs ↦ do
          written ← sys (write fd (b ∷ bs))
          elim written [
            | none ↦ do sys (perror "write"); sys (fclose file); sys (close fd); ret false
            | some n ↦ pipe_blocks fuel fd file
          ]
      ]
  ]

unfoldable pub pipe_end : ℕ → ℕ → Bool → Prog ℤ
pipe_end fd file false = ret (negsuc 0)
pipe_end fd file true = do sys (fclose file); sys (close fd); ret (pos 0)

unfoldable pub c_pipe : ℕ → Prog ℤ
c_pipe fuel = do
  file ← unwrap (← sys (fopen "file.txt" "r")) (die "Failed to open file")
  fd ← unwrap (← sys (open_file "myfifo" "O_WRONLY")) (die "Failed to open named pipe")
  written ← pipe_blocks fuel fd file
  pipe_end fd file written
