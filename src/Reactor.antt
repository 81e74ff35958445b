-- ===== src/Reactor.antt =====
-- The reactor of task4_DesignPattern_Reactor/react_server.c: its state, the table of events and
-- the array of poll entries. A handler is a function pointer, `none` when it is `NULL`. A read or
-- write outside an array is a fault.
pub mod Loop
pub mod Entries
pub mod Handlers
pub mod AddFd
pub mod Broadcast
pub mod Listener
pub mod Calm
pub mod Serving
pub mod Room
pub mod Accepting
pub mod Rounds
pub mod Scan
pub mod Polls
pub mod Serves
pub mod Main
pub mod Finishes
mod Tests
use making_chat_on_c.Base.{
  ℕ, zero, suc, ◌+◌, ◌-◌, ◌*◌, ◌==◌, ◌<◌, Bool, true, false, List, [], ◌∷◌, ◌++◌, Option, none,
  some, length, get_elem?, set, ltb, if◌then◌else◌, map, replicate,
}
use making_chat_on_c.Os.{Prog, ret, exit, fault, spin, ◌>>=◌, ◌>>◌, sys, defined, realloc, invoke}

pub record Event : Type 0 where
  pub id : ℕ
  pub handler : Option ℕ

-- `events` of a poll entry is always `POLLIN` and is left out.
pub record PollFd : Type 0 where
  pub fd : ℕ
  pub revents : ℕ

-- `pfds` has as many entries as memory is allocated for, and `fd_count` of them are in use.
pub record Reactor : Type 0 where
  pub events : List Event
  pub event_count : ℕ
  pub running : Bool
  pub pfds : List PollFd
  pub fd_count : ℕ
  pub fd_size : ℕ

-- `none` when `malloc` fails.
unfoldable pub create_reactor : Bool → Option Reactor
create_reactor false = none
create_reactor true =
    some (record {
      events = [];
      event_count = 0;
      running = false;
      pfds = [];
      fd_count = 0;
      fd_size = 5;
    })

-- A pointer that memory holds.
unfoldable pub pointer : ℕ → Option ℕ
pointer zero = none
pointer (suc h) = some (suc h)

-- The entries of a grown table before the new one: those of the table, or, where the table was
-- lost, what the memory was.
unfoldable pub kept_events : ℕ → List Event → List ℕ → List Event
unfolding pointer
kept_events zero events memory = []
kept_events (suc n) (e ∷ events) memory = e ∷ kept_events n events memory
kept_events (suc n) [] (id ∷ h ∷ memory) =
    record { id = id; handler = pointer h } ∷ kept_events n [] memory
kept_events (suc n) [] (id ∷ []) = record { id = id; handler = none } ∷ kept_events n [] []
kept_events (suc n) [] [] = record { id = 0; handler = none } ∷ kept_events n [] []

-- `grown` is what `realloc` answers. When it fails the table is lost, and the count stays.
unfoldable pub add_event : Reactor → ℕ → Option ℕ → Option (List ℕ) → Reactor
unfolding kept_events
add_event r id handler none = record r { events = [] }
add_event r id handler (some memory) = record r {
  events = kept_events r.event_count r.events memory ++ record { id = id; handler = handler } ∷ [];
  event_count = r.event_count + 1;
}

unfoldable pub stop_reactor : Reactor → Reactor
stop_reactor r = record r { running = false }

-- A call through the function pointer.
unfoldable pub call_handler : Option ℕ → Prog (Unit {0})
call_handler none = fault
call_handler (some h) = sys (invoke h)

-- The loop of `handleEvent` with `left` rounds to go: the first event with the id is called.
unfoldable pub find_event : ℕ → List Event → ℕ → Prog (Unit {0})
unfolding call_handler
find_event zero events id = ret tt
find_event (suc left) [] id = fault
find_event (suc left) (e ∷ events) id =
    if e.id == id then call_handler e.handler else find_event left events id

unfoldable pub handle_event : Reactor → ℕ → Prog (Unit {0})
handle_event r id = find_event r.event_count r.events id

-- The entries that a grown array holds behind the old ones: what the memory was.
unfoldable pub stale_entries : ℕ → List ℕ → List PollFd
stale_entries zero memory = []
stale_entries (suc n) [] = record { fd = 0; revents = 0 } ∷ stale_entries n []
stale_entries (suc n) (m ∷ memory) = record { fd = 0; revents = m } ∷ stale_entries n memory

-- `if (reactor->fd_count == reactor->fd_size)`: the array is doubled.
unfoldable pub make_room : Reactor → Prog Reactor
make_room r =
    if r.fd_count == r.fd_size
    then (do
      grown ← sys (realloc (r.fd_size * 2))
      elim grown [
        | none ↦ exit 1
        | some memory ↦ ret (record r {
          fd_size = r.fd_size * 2;
          pfds = r.pfds ++ stale_entries (r.fd_size * 2 - r.fd_size) memory;
        })
      ])
    else ret r

-- `pfds[i].fd = newfd`, with the `revents` left as they are.
unfoldable pub put_fd : List PollFd → ℕ → ℕ → Prog (List PollFd)
put_fd pfds i newfd = do
  entry ← defined (get_elem? pfds i) (λ e. ret e)
  ret (set pfds i (record entry { fd = newfd }))

unfoldable pub add_fd : Reactor → ℕ → Option ℕ → Prog Reactor
unfolding make_room put_fd
add_fd r newfd handler = do
  r ← make_room r
  pfds ← put_fd r.pfds r.fd_count newfd
  table ← sys (realloc (r.event_count + 1))
  ret (add_event (record r { pfds = pfds; fd_count = r.fd_count + 1 }) newfd handler table)

-- The array and the count after `del_from_pfds`; `none` is an index outside the array.
unfoldable pub remove_entry : List PollFd → ℕ → ℕ → Option (List PollFd)
remove_entry pfds count i = elim (get_elem? pfds (count - 1)) [
  | none ↦ none
  | some last ↦ if ltb i (length pfds) then some (set pfds i last) else none
]

unfoldable pub del_from_pfds : Reactor → ℕ → Option Reactor
del_from_pfds r i = elim (remove_entry r.pfds r.fd_count i) [
  | none ↦ none
  | some pfds ↦ some (
      if r.fd_count - 1 == 1
      then stop_reactor (record r { pfds = pfds; fd_count = r.fd_count - 1 })
      else record r { pfds = pfds; fd_count = r.fd_count - 1 })
]
