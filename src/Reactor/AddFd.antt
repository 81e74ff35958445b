-- ===== src/Reactor/AddFd.antt =====
-- `addFd` of task4_DesignPattern_Reactor/react_server.c: the poll array with one more entry.
use making_chat_on_c.Base.{
  ℕ, zero, suc, ◌+◌, ◌-◌, ◌*◌, ◌==◌, ◌<◌, ◌≤◌, ◌≡◌, ◌∙◌, ap, refl, true, false, List, [], ◌∷◌, ◌++◌,
  none, length, set, if◌then◌else◌, take, arith, length-append, Bool-cases, inl, inr, length-set,
  get_elem?_of_lt,
}
use making_chat_on_c.Os.{ret, fault, ◌>>=◌, sys, realloc}
use making_chat_on_c.Os.Guarantee.{Ensures, Checks, Ensures-of_Checks, Checks-bind}
use making_chat_on_c.Os.Ledger.{Ledger, ledger_step, OnlyExitsWithOne}
use making_chat_on_c.Reactor.{
  Reactor, PollFd, Event, add_fd, add_event, make_room, put_fd, kept_events, stale_entries,
  find_event, handle_event,
}
use making_chat_on_c.Reactor.Entries.{IsReactor, used, hit, tally}
use making_chat_on_c.Reactor.Handlers.{AllNull, find_event_added, kept_events-all}

pub length-stale_entries : (n : ℕ) (memory : List ℕ) → length (stale_entries n memory) ≡ n
unfolding stale_entries
length-stale_entries zero memory = refl
length-stale_entries (suc n) [] = ap suc (length-stale_entries n [])
length-stale_entries (suc n) (m ∷ memory) = ap suc (length-stale_entries n memory)

tally-take_append :
    (x : ℕ) (es fs : List PollFd) (n : ℕ)
    → n ≤ length es
    → tally x (take n (es ++ fs)) ≡ tally x (take n es)
tally-take_append x es fs zero h = refl
tally-take_append x [] fs (suc n) h = absurd (omega arith)
tally-take_append x (d ∷ es) fs (suc n) h =
    ap (λ k. hit x d + k) (tally-take_append x es fs n (omega arith))

tally-take-set :
    (x : ℕ) (es : List PollFd) (n : ℕ) (v : PollFd)
    → n < length es
    → tally x (take (suc n) (set es n v)) ≡ tally x (take n es) + hit x v
tally-take-set x [] n v h = absurd (omega arith)
tally-take-set x (d ∷ es) zero v h = omega arith
tally-take-set x (d ∷ es) (suc n) v h = omega (arith, tally-take-set x es n v (omega arith))

-- `r'` is `r` with room for one more entry.
record HasRoom (r r' : Reactor) : Type 0 where
  is : IsReactor r'
  same_count : r'.fd_count ≡ r.fd_count
  below : r'.fd_count < r'.fd_size
  same_events : r'.events ≡ r.events
  same_event_count : r'.event_count ≡ r.event_count
  same_tally : (x : ℕ) → tally x (used r') ≡ tally x (used r)

grown_HasRoom :
    (r : Reactor) (memory : List ℕ)
    → IsReactor r
    → r.fd_count ≡ r.fd_size
    → HasRoom r (record r {
      fd_size = r.fd_size * 2;
      pfds = r.pfds ++ stale_entries (r.fd_size * 2 - r.fd_size) memory;
    })
grown_HasRoom r memory is full =
    let stale = stale_entries (r.fd_size * 2 - r.fd_size) memory in
    record {
      is = record {
        allocated = omega (
          arith,
          length-append r.pfds stale,
          length-stale_entries (r.fd_size * 2 - r.fd_size) memory,
          is.allocated,
        );
        within = omega (arith, is.within);
        room = omega (arith, is.room);
      };
      same_count = refl;
      below = omega (arith, is.room);
      same_events = refl;
      same_event_count = refl;
      same_tally =
          λ x. tally-take_append x r.pfds stale r.fd_count (omega (arith, is.within, is.allocated));
    }

pub size_reached : (n m : ℕ) → (n == m) ≡ true → n ≡ m
size_reached n m h = ground arith

pub size_ahead : (n m : ℕ) → (n == m) ≡ false → n ≤ m → n < m
size_ahead n m h le = ground arith

make_room-Checks :
    (r : Reactor) (s : Ledger)
    → IsReactor r
    → Checks ledger_step (λ r' t. HasRoom r r') OnlyExitsWithOne s (make_room r)
unfolding make_room
make_room-Checks r s is = elim (Bool-cases (r.fd_count == r.fd_size)) [
  | inl p ↦ rw p (
    refl,
    grown_HasRoom r [] is (size_reached r.fd_count r.fd_size p),
    λ b bs. grown_HasRoom r (b ∷ bs) is (size_reached r.fd_count r.fd_size p),
  )
  | inr p ↦ rw p record {
    is = is;
    same_count = refl;
    below = size_ahead r.fd_count r.fd_size p is.within;
    same_events = refl;
    same_event_count = refl;
    same_tally = λ x. refl;
  }
]

-- What `addFd` leaves of `r` after adding `newfd`.
abbrev pub Added : Reactor → ℕ → Reactor → Type 0
Added r newfd r' =
    IsReactor r'
    × (r'.fd_count ≡ suc r.fd_count)
    × ((x : ℕ) → tally x (used r') ≡ tally x (used r) + (if x == newfd then 1 else 0))
    × (0 < r.event_count → handle_event r' newfd ≡ fault)

pub next_count : (n : ℕ) → n + 1 ≡ suc n
next_count n = omega arith

emptied : (n id : ℕ) → 0 < n → find_event n [] id ≡ fault
unfolding find_event
emptied zero id h = absurd (omega arith)
emptied (suc n) id h = refl

added :
    (r r1 : Reactor) (newfd revents : ℕ) (events : List Event) (event_count : ℕ)
    → HasRoom r r1
    → (0 < r.event_count → find_event event_count events newfd ≡ fault)
    → Added r newfd (record r1 {
      events = events;
      event_count = event_count;
      pfds = set r1.pfds r1.fd_count (record { fd = newfd; revents = revents });
      fd_count = r1.fd_count + 1;
    })
unfolding handle_event
added r r1 newfd revents events event_count has found =
    let new : PollFd = record { fd = newfd; revents = revents } in
    (
      record {
        allocated = length-set r1.pfds r1.fd_count new ∙ has.is.allocated;
        within = omega (arith, has.below);
        room = has.is.room;
      },
      omega (arith, has.same_count),
      λ x.
          ap (λ k. tally x (take k (set r1.pfds r1.fd_count new))) (next_count r1.fd_count)
          ∙ tally-take-set x r1.pfds r1.fd_count new (omega (arith, has.below, has.is.allocated))
          ∙ ap (λ k. k + hit x new) (has.same_tally x),
      found,
    )

add_fd-Checks :
    (r : Reactor) (newfd : ℕ) (s : Ledger)
    → IsReactor r
    → AllNull r.events
    → r.event_count ≡ length r.events
    → Checks ledger_step (λ r' t. Added r newfd r') OnlyExitsWithOne s (add_fd r newfd none)
unfolding add_fd put_fd add_event
add_fd-Checks r newfd s is null count =
    Checks-bind ledger_step _ OnlyExitsWithOne _ _ next s (make_room r) (make_room-Checks r s is)
  where
    next :
        (r1 : Reactor) (t : Ledger)
        → HasRoom r r1
        → Checks ledger_step
            (λ r' t. Added r newfd r')
            OnlyExitsWithOne
            t
            (do
              pfds ← put_fd r1.pfds r1.fd_count newfd
              table ← sys (realloc (r1.event_count + 1))
              ret (
                  add_event
                    (record r1 { pfds = pfds; fd_count = r1.fd_count + 1 })
                    newfd
                    none
                    table))
    next r1 t has =
        let (old, at_count) =
          get_elem?_of_lt r1.pfds r1.fd_count (omega (arith, has.below, has.is.allocated)) in
        let new : List Event = record { id = newfd; handler = none } ∷ [] in
        let same : r1.event_count ≡ length r1.events =
          omega (arith, has.same_event_count, count, ap length has.same_events) in
        let doubled : find_event (r1.event_count + 1) (r1.events ++ new) newfd ≡ fault =
          rw (has.same_events, has.same_event_count, count, next_count (length r.events))
            (find_event_added r.events newfd null) in
        let lost : (memory : List ℕ)
            → find_event (r1.event_count + 1) (kept_events r1.event_count r1.events memory ++ new)
                newfd
              ≡ fault =
          λ memory. rw (kept_events-all r1.event_count r1.events memory same) doubled in
        rw at_count (
          added r r1 newfd old.revents [] r1.event_count has
              (λ h. emptied r1.event_count newfd (omega (arith, has.same_event_count))),
          added r r1 newfd old.revents (kept_events r1.event_count r1.events [] ++ new)
              (r1.event_count + 1) has (λ h. lost []),
          λ b bs.
              added r r1 newfd old.revents (kept_events r1.event_count r1.events (b ∷ bs) ++ new)
                (r1.event_count + 1) has (λ h. lost (b ∷ bs)),
        )

-- `addFd` on a well-formed reactor whose handlers are `NULL` meets no fault whether or not memory
-- runs out, and exits with no status but 1. When it returns the array is well-formed, the new
-- descriptor is in use once more and every other one as often as before, and if the table was not
-- empty, a `handleEvent` of the new descriptor right after it is a fault: it calls `NULL`, or reads
-- through the table, which is `NULL` if the memory for it ran out.
pub add_fd-Added :
    (r : Reactor) (newfd : ℕ) (s : Ledger)
    → IsReactor r
    → AllNull r.events
    → r.event_count ≡ length r.events
    → Ensures ledger_step (λ r' t. Added r newfd r') OnlyExitsWithOne s (add_fd r newfd none)
add_fd-Added r newfd s is null count =
    Ensures-of_Checks ledger_step (λ r' t. Added r newfd r') OnlyExitsWithOne s
      (add_fd r newfd none) (add_fd-Checks r newfd s is null count)
