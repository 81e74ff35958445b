-- ===== src/Early/Chat.antt =====
-- `handle_client`, `ipv4_tcp`, `ipv4_udp` and the empty functions of task3_making-chat-on-c/partb.c.
use making_chat_on_c.Base.{
  ℕ, zero, suc, ◌∷◌, [], List, Option, none, some, get_elem?, bytes_eq, codes, reads_as,
  if◌then◌else◌,
}
use making_chat_on_c.Os.{
  Text, Prog, ret, exit, fault, spin, ◌>>=◌, ◌>>◌, sys, perror, print, read, send, sendto, shutdown,
  socket, connect, bind, listen, accept, fork, clock, Domain, Kind, any_host, host, parsed,
}
use making_chat_on_c.Chat.{terminated, handle_client, accepted}

-- The text of `handle_client` is that of stnc.c.
unfoldable pub early_handle_client : ℕ → ℕ → ℕ → Prog (Unit {0})
early_handle_client fuel client_sock argc = handle_client fuel client_sock argc

-- The loop over standard input of both functions, with the call that passes a chunk on and what
-- follows the loop.
unfoldable pub typed_loop : ℕ → (List ℕ → Prog (Unit {0})) → Prog (Unit {0}) → Prog (Unit {0})
unfolding terminated
typed_loop zero pass_on finish = spin
typed_loop (suc fuel) pass_on finish = do
  got ← sys (read 0 1024)
  elim got [
    | none ↦ finish
    | some [] ↦ finish
    | some (b ∷ bytes) ↦ terminated (b ∷ bytes) λ buffer.
        if reads_as buffer "exit\n"
        then (do sys (print "client leaves the chat..." []); exit 0)
        else (do pass_on (b ∷ bytes); typed_loop fuel pass_on finish)
  ]

-- `argv` is declared as one string, so that `argv[i]` is a character, which is given to `strcmp`,
-- `atoi` and `inet_addr` as an address. `memory` is what stands there, `none` where a process must
-- not read.
module _ (memory : ℕ → Option Text) (argv : List ℕ) where
  unfoldable pub at_character : {A : Type 0} → ℕ → (Text → Prog A) → Prog A
  at_character i k = elim (get_elem? argv i) [
    | none ↦ fault
    | some c ↦ elim (memory c) [ none ↦ fault | some text ↦ k text ]
  ]

  unfoldable pub talk : ℕ → ℕ → ℕ → Prog (Unit {0})
  unfolding early_handle_client typed_loop
  talk fuel sock argc = do
    child ← sys fork
    if child
        then early_handle_client fuel sock argc
        else typed_loop fuel (λ bytes. do sys (send sock bytes); ret tt)
            (do sys clock; sys (shutdown sock); sys clock; ret tt)

  unfoldable pub early_ipv4_tcp : ℕ → ℕ → Prog (Unit {0})
  unfolding at_character talk
  early_ipv4_tcp fuel argc = at_character 1 λ mode. do
    opened ← sys (socket Domain.inet Kind.stream)
    elim opened [
      | none ↦ do sys (perror "socket"); ret tt
      | some sock ↦
          if bytes_eq mode (codes "-c")
          then at_character 3 (λ port. at_character 2 λ ip. do
            sys (print "client is ready: " [])
            reached ← sys (connect sock (host ip (parsed port)))
            if reached then talk fuel sock argc else (do sys (perror "connect"); ret tt))
          else at_character 2 (λ port. do
            sys (print "server is ready: " [])
            bound ← sys (bind sock (any_host (parsed port)))
            if bound
                then (do
                  listening ← sys (listen sock 1)
                  if listening
                      then (do
                        client ← sys (accept sock)
                        sys (print "please enter exit to get out from the chat!" [])
                        talk fuel (accepted client) argc)
                      else (do sys (perror "listen"); ret tt))
                else (do sys (perror "bind"); ret tt))
    ]

  -- The server, too, sends to the address that it is bound to.
  unfoldable pub early_ipv4_udp : ℕ → Prog (Unit {0})
  unfolding at_character typed_loop
  early_ipv4_udp fuel = at_character 1 λ mode. do
    opened ← sys (socket Domain.inet Kind.dgram)
    elim opened [
      | none ↦ do sys (perror "socket"); ret tt
      | some sock ↦
          if bytes_eq mode (codes "-c")
          then at_character 3 (λ port. at_character 2 λ ip. do
            sys (print "client is ready: " [])
            typed_loop fuel (λ bytes. do sys (sendto sock bytes (host ip (parsed port))); ret tt)
                (ret tt))
          else at_character 2 (λ port. do
            sys (print "server is ready: " [])
            bound ← sys (bind sock (any_host (parsed port)))
            if bound
                then (do
                  sys (print "please enter exit to get out from the chat!" [])
                  typed_loop fuel
                      (λ bytes. do sys (sendto sock bytes (any_host (parsed port))); ret tt)
                      (ret tt))
                else (do sys (perror "bind"); ret tt))
    ]

-- `uds_dgram`, `uds_stream`, `mmapfileName`, `pipe_r` and `pipe_w` have no body.
unfoldable pub empty_test : Prog (Unit {0})
empty_test = ret tt
