-- ===== src/Reactor/Loop.antt =====
-- `startReactor` of task4_DesignPattern_Reactor/react_server.c.
use making_chat_on_c.Base.{
  ℕ, zero, suc, ◌+◌, ◌-◌, ◌/◌, ◌%◌, ◌==◌, Bool, true, false, List, [], ◌∷◌, ◌++◌, Option, none,
  some, length, get_elem?, ltb, if◌then◌else◌, map, bit_and, c_string, codes, not, replicate, ◌&&◌,
  take,
}
use making_chat_on_c.Os.{
  Prog, ret, fault, spin, ◌>>=◌, ◌>>◌, sys, die, defined, unwrap, accept, recv, send, close, poll,
  fcntl, perror, print, would_block,
}
use making_chat_on_c.Reactor.{Reactor, PollFd, handle_event, add_fd, del_from_pfds}

-- `sprintf(num_c, "%d", fd)` for `char num_c[5]`, which has room for four digits.
unfoldable pub decimal : ℕ → ℕ → List ℕ
decimal zero n = []
decimal (suc fuel) n =
    let rest = decimal fuel (n / 10) in
    if n / 10 == 0 then (48 + n % 10) ∷ [] else rest ++ (48 + n % 10) ∷ []

-- The text that the three `strcat` put together.
unfoldable pub client_message : ℕ → List ℕ → List ℕ
unfolding decimal
client_message fd received =
    codes "Client socket " ++ decimal 4 fd ++ codes ": " ++ c_string received

-- `msg`, 256 bytes with zeros behind the text.
unfoldable pub padded : ℕ → List ℕ → List ℕ
padded room text = text ++ replicate (room - length text) 0

-- The loop over `j`: to everyone but the listener and the sender.
unfoldable pub broadcast : List PollFd → ℕ → ℕ → List ℕ → Prog (Unit {0})
broadcast [] listener sender msg = ret tt
broadcast (e ∷ entries) listener sender msg = do
  (if not (e.fd == listener) && not (e.fd == sender)
      then (do
        sent ← sys (send e.fd msg)
        elim sent [
          | none ↦ do blocked ← sys would_block; elim blocked [ true ↦ ret tt | false ↦ die "send" ]
          | some n ↦ ret tt
        ])
      else ret tt)
  broadcast entries listener sender msg

-- `buf[nbytes] = '\0'` and the building of `msg` stay inside their arrays.
unfoldable pub fits_buffers : ℕ → List ℕ → Bool
unfolding client_message
fits_buffers fd received =
    ltb (length received) 256 && ltb fd 10000 && ltb (length (client_message fd received)) 256

-- The data of a client: `true` when the connection is to be removed.
unfoldable pub read_client : Reactor → ℕ → ℕ → Prog Bool
unfolding fits_buffers padded
read_client r listener fd = do
  got ← sys (recv fd 256)
  elim got [
    | none ↦ do sys (perror "recv"); ret true
    | some [] ↦ do sys (print "socket hung up" []); ret true
    | some (b ∷ bs) ↦
        if fits_buffers fd (b ∷ bs)
        then (do
          sys (print "Client socket" (b ∷ bs))
          broadcast (take r.fd_count r.pfds) listener fd (padded 256 (client_message fd (b ∷ bs)))
          ret false)
        else fault
  ]

-- A new connection.
unfoldable pub accept_client : Reactor → ℕ → Prog Reactor
accept_client r listener = do
  accepted ← sys (accept listener)
  elim accepted [
    | none ↦ do sys (perror "accept"); ret r
    | some newfd ↦ do sys (print "new connection" []); handle_event r newfd; add_fd r newfd none
  ]

-- `descriptorsToRemove[descriptorsToRemoveCount++] = i`, in an array of `size` places.
unfoldable pub note_removal : ℕ → List ℕ → ℕ → Prog (List ℕ)
note_removal size removed i = if ltb (length removed) size then ret (removed ++ i ∷ []) else fault

-- `if (revents & (POLLERR | POLLHUP | POLLNVAL))`
unfoldable pub hang_up : Reactor → ℕ → PollFd → ℕ → List ℕ → Prog (Reactor × List ℕ)
unfolding note_removal
hang_up r i entry size removed = if bit_and entry.revents 56 == 0 then ret (r, removed) else do
  sys (print "socket error or hang up" [])
  sys (close entry.fd)
  handle_event r entry.fd
  noted ← note_removal size removed i
  ret (r, noted)

-- The body of the loop over `i`.
unfoldable pub visit : Reactor → ℕ → PollFd → ℕ → ℕ → List ℕ → Prog (Reactor × List ℕ)
unfolding read_client accept_client hang_up
visit r i entry listener size removed =
    if entry.revents == 0
    then ret (r, removed)
    else if bit_and entry.revents 1 == 0
    then hang_up r i entry size removed
    else if entry.fd == listener
    then (do r ← accept_client r listener; hang_up r i entry size removed)
    else do
      gone ← read_client r listener entry.fd
      elim gone [
        | true ↦ do noted ← note_removal size removed i; ret (r, noted)
        | false ↦ hang_up r i entry size removed
      ]

-- `for (int i = 0; i < reactor->fd_count; i++)`, on fuel since the count can grow.
unfoldable pub scan : ℕ → ℕ → ℕ → List ℕ → Reactor → Prog (Reactor × List ℕ)
unfolding visit
scan zero i size removed r = spin
scan (suc fuel) i size removed r =
    if ltb i r.fd_count
    then (do
      entry ← defined (get_elem? r.pfds i) (λ e. ret e)
      listener ← defined (get_elem? r.pfds 0) (λ e. ret e)
      (r, removed) ← visit r i entry listener.fd size removed
      scan fuel (i + 1) size removed r)
    else ret (r, removed)

-- The indices are removed in the order in which they were noted.
unfoldable pub remove_all : List ℕ → Reactor → Option Reactor
remove_all [] r = some r
remove_all (i ∷ rest) r = elim (del_from_pfds r i) [ none ↦ none | some r' ↦ remove_all rest r' ]

-- What `poll` writes.
unfoldable pub put_revents : List PollFd → ℕ → List ℕ → List PollFd
put_revents entries zero revents = entries
put_revents [] (suc n) revents = []
put_revents (e ∷ entries) (suc n) [] = record e { revents = 0 } ∷ put_revents entries n []
put_revents (e ∷ entries) (suc n) (v ∷ revents) =
    record e { revents = v } ∷ put_revents entries n revents

-- `while (reactor->running)`
unfoldable pub reactor_loop : ℕ → Reactor → Prog Reactor
unfolding scan remove_all put_revents
reactor_loop zero r = spin
reactor_loop (suc fuel) r =
    if r.running
    then (do
      polled ← sys (poll (map (λ (e : PollFd). e.fd) (take r.fd_count r.pfds)) (some 25000))
      revents ← unwrap polled (die "poll")
      (r, removed) ←
          scan fuel 0 r.fd_count [] (record r { pfds = put_revents r.pfds r.fd_count revents })
      r ← defined (remove_all removed r) (λ s. ret s)
      reactor_loop fuel r)
    else ret r

-- `set_nonblocking`: `false` is its -1.
unfoldable pub set_nonblocking : ℕ → Prog Bool
set_nonblocking fd = do
  flags ← sys (fcntl fd)
  elim flags [
    | false ↦ do sys (perror "fcntl"); ret false
    | true ↦ do
      changed ← sys (fcntl fd)
      elim changed [ false ↦ do sys (perror "fcntl"); ret false | true ↦ ret true ]
  ]

unfoldable pub start_reactor : ℕ → Reactor → Prog Reactor
unfolding set_nonblocking reactor_loop
start_reactor fuel r = if r.running then ret r else do
  listener ← defined (get_elem? r.pfds 0) (λ e. ret e)
  set_nonblocking listener.fd
  reactor_loop fuel (record r { running = true; fd_count = 1 })
