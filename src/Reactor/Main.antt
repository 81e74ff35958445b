-- ===== src/Reactor/Main.antt =====
-- `destroyReactor`, `main`, `get_in_addr` and `waitForReactor` of
-- task4_DesignPattern_Reactor/react_server.c.
use making_chat_on_c.Base.{ℕ, Bool, true, false, List, [], ◌∷◌, Option, none, some, if◌then◌else◌}
use making_chat_on_c.Os.{
  Prog, ret, exit, fault, Domain, inet, inet6, unix_local, ◌>>=◌, ◌>>◌, sys, close, print, malloc,
  free_part, event_table, poll_array, reactor_record,
}
use making_chat_on_c.Reactor.{Reactor, PollFd, Event, create_reactor}
use making_chat_on_c.Reactor.Loop.{start_reactor}
use making_chat_on_c.Reactor.Listener.{get_listener_socket}
use making_chat_on_c.Reactor.Serves.{first_entries}

-- `if (reactor->events)`: the table is `NULL` exactly when it is empty.
unfoldable pub free_table : List Event → Prog (Unit {0})
free_table [] = ret tt
free_table (e ∷ events) = sys (free_part event_table)

unfoldable pub free_array : List PollFd → Prog (Unit {0})
free_array [] = ret tt
free_array (e ∷ entries) = sys (free_part poll_array)

unfoldable pub destroy_reactor : Option Reactor → Prog (Unit {0})
unfolding free_table free_array
destroy_reactor none = ret tt
destroy_reactor (some r) = do free_table r.events; free_array r.pfds; sys (free_part reactor_record)

-- From `createReactor` on, with what its `malloc` answers.
unfoldable pub run_reactor : ℕ → ℕ → Bool → Prog ℕ
unfolding create_reactor first_entries destroy_reactor
run_reactor fuel listener allocated = elim (create_reactor allocated) [
  | none ↦ do sys (print "error creating reactor" []); exit 1
  | some r ↦ do
    stopped ← start_reactor fuel (record r { pfds = first_entries listener })
    destroy_reactor (some stopped)
    sys (close listener)
    ret 0
]

-- 40 and 48 are the sizes of five `struct pollfd` and of a `Reactor`.
unfoldable pub reactor_main : ℕ → Prog ℕ
unfolding run_reactor
reactor_main fuel = do
  opened ← get_listener_socket
  elim opened [
    | none ↦ do sys (print "error getting listening socket" []); exit 1
    | some listener ↦ do
      pfds ← sys (malloc 40)
      elim pfds [
        | none ↦ do sys (print "Failed to allocate memory for pfds" []); exit 1
        | some array ↦ do
          memory ← sys (malloc 48)
          elim memory [
            | none ↦ run_reactor fuel listener false
            | some reactor ↦ run_reactor fuel listener true
          ]
      ]
  ]

-- The field of a `struct sockaddr` that `get_in_addr` points to.
pub data AddressField : Type 0 where
  sin_addr sin6_addr : AddressField

unfoldable pub get_in_addr : Domain → AddressField
get_in_addr inet = sin_addr
get_in_addr inet6 = sin6_addr
get_in_addr unix_local = sin6_addr

-- The thread runs `routine` while `waitForReactor` waits in `pthread_join`; what follows is the
-- `pthread_detach` of a thread that is joined, which is undefined as is the join of one that
-- `pthread_create` has not set.
unfoldable pub wait_for_reactor : Bool → Prog (Unit {0}) → Prog (Unit {0})
wait_for_reactor created routine = if created then (do routine; fault) else fault
