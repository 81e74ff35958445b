-- ===== src/Chat.antt =====
-- task3_making-chat-on-c/stnc.c: a chat over one TCP connection, in which a child process shows
-- what comes in and the parent sends what is typed.
pub mod Relay
mod Tests
use making_chat_on_c.Base.{
  ℕ, zero, suc, ◌+◌, ◌-◌, ◌^◌, ◌==◌, Bool, true, false, List, [], ◌∷◌, ◌++◌, Option, none, some,
  length, ltb, c_string, reads_as, bytes_eq, codes, if◌then◌else◌,
}
use making_chat_on_c.Client.Dispatch.{client_main}
use making_chat_on_c.Server.Dispatch.{server_main}
use making_chat_on_c.Os.{
  Prog, ret, exit, fault, spin, ◌>>=◌, ◌>>◌, sys, perror, print, recv, read, send, shutdown, socket,
  connect, bind, listen, accept, fork, Text, Domain, Kind, any_host, host, parsed,
}

-- `buffer[read_size] = '\0'` in an array of 1024 bytes.
unfoldable pub terminated : {A : Type 0} → List ℕ → (List ℕ → Prog A) → Prog A
terminated bytes k = if ltb (length bytes) 1024 then k (bytes ++ 0 ∷ []) else fault

unfoldable pub handle_client : ℕ → ℕ → ℕ → Prog (Unit {0})
unfolding terminated
handle_client zero client_sock argc = spin
handle_client (suc fuel) client_sock argc = do
  got ← sys (recv client_sock 1024)
  elim got [
    | none ↦ ret tt
    | some [] ↦ ret tt
    | some (b ∷ bytes) ↦ terminated (b ∷ bytes) λ buffer. do
      sys (print (if argc == 4 then "server: " else "client: ") [])
      sys (print "%s" (c_string buffer))
      handle_client fuel client_sock argc
  ]

-- The parent's loop over standard input, which is descriptor 0, with what follows it.
unfoldable pub send_typed : ℕ → ℕ → Prog (Unit {0})
unfolding terminated
send_typed zero sock = spin
send_typed (suc fuel) sock = do
  got ← sys (read 0 1024)
  elim got [
    | none ↦ sys (shutdown sock)
    | some [] ↦ sys (shutdown sock)
    | some (b ∷ bytes) ↦ terminated (b ∷ bytes) λ buffer.
        if reads_as buffer "exit\n"
        then (do sys (print "client leaves the chat..." []); exit 0)
        else (do sys (send sock (b ∷ bytes)); send_typed fuel sock)
  ]

unfoldable pub converse : ℕ → ℕ → ℕ → Prog ℕ
unfolding handle_client send_typed
converse fuel sock argc = do
  child ← sys fork
  (if child then handle_client fuel sock argc else send_typed fuel sock)
  ret 0

-- The descriptor -1 of a failed `accept`, which is not tested.
abbrev pub accepted : Option ℕ → ℕ
accepted none = 2 ^ 32 - 1
accepted (some sock) = sock

-- `argv[3]` is `NULL` if there are two arguments.
unfoldable pub chat_client : ℕ → ℕ → Text → List Text → Prog ℕ
unfolding converse
chat_client fuel sock ip [] = fault
chat_client fuel sock ip (port ∷ rest) = do
  sys (print "client is ready: " [])
  connected ← sys (connect sock (host ip (parsed port)))
  if connected
      then converse fuel sock (length (port ∷ rest) + 3)
      else (do sys (perror "connect"); ret 1)

unfoldable pub chat_server : ℕ → ℕ → Text → List Text → Prog ℕ
unfolding converse
chat_server fuel sock port rest = do
  sys (print "server is ready: " [])
  bound ← sys (bind sock (any_host (parsed port)))
  if bound
      then (do
        listening ← sys (listen sock 1)
        if listening
            then (do
              client ← sys (accept sock)
              sys (print "please enter exit to get out from the chat!" [])
              converse fuel (accepted client) (length rest + 3))
            else (do sys (perror "listen"); ret 1))
      else (do sys (perror "bind"); ret 1)

unfoldable pub chat_main : ℕ → List Text → Prog ℕ
unfolding chat_client chat_server
chat_main fuel (name ∷ mode ∷ third ∷ rest) = do
  opened ← sys (socket Domain.inet Kind.stream)
  elim opened [
    | none ↦ do sys (perror "socket"); ret 1
    | some sock ↦
        if bytes_eq mode (codes "-c")
        then chat_client fuel sock third rest
        else chat_server fuel sock third rest
  ]
chat_main fuel argv = do sys (print "Usage:" []); ret 1

-- `main` of task3_making-chat-on-c/main.c; `main_chat` is defined in no file.
unfoldable pub main : ℕ → List ℕ → (List Text → Prog (Unit {0})) → List Text → Prog ℕ
main fuel garbage main_chat (name ∷ mode ∷ third ∷ fourth ∷ fifth ∷ rest) =
    if bytes_eq mode (codes "-c")
    then (do client_main fuel (name ∷ mode ∷ third ∷ fourth ∷ fifth ∷ rest); ret 0)
    else if bytes_eq mode (codes "-s")
    then (do server_main fuel garbage (name ∷ mode ∷ third ∷ fourth ∷ fifth ∷ rest); ret 0)
    else ret 0
main fuel garbage main_chat argv = do main_chat argv; ret 0
