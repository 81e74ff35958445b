-- ===== src/Reactor/Handlers.antt =====
-- The table of handlers of task4_DesignPattern_Reactor/react_server.c, in which `startReactor`
-- puts `NULL` only, and what `handleEvent` does with it.
use making_chat_on_c.Base.{
  ℕ, zero, suc, ap, ◌==◌, ◌≡◌, refl, Bool, true, false, List, [], ◌∷◌, ◌++◌, none, length,
  if◌then◌else◌, arith, ==_refl,
}
use making_chat_on_c.Os.{ret, fault}
use making_chat_on_c.Reactor.{Reactor, Event, kept_events, call_handler, find_event, handle_event}

abbrev pub is_registered : List Event → ℕ → Bool
is_registered [] id = false
is_registered (e ∷ events) id = if e.id == id then true else is_registered events id

-- Every handler of the table is `NULL`.
abbrev pub AllNull : List Event → Type 0
AllNull [] = Unit {0}
AllNull (e ∷ events) = (e.handler ≡ none) × AllNull events

find_event_null :
    (events : List Event) (id : ℕ)
    → AllNull events
    → find_event (length events) events id ≡ (if is_registered events id then fault else ret tt)
unfolding find_event call_handler
find_event_null [] id null = refl
find_event_null (e ∷ events) id (n, null) = rw n (ground (arith, find_event_null events id null))

-- In a table of which every handler is `NULL`, `handleEvent` calls `NULL` exactly when the id is
-- registered, and does nothing for any other id.
handle_event_null :
    (r : Reactor) (id : ℕ)
    → AllNull r.events
    → r.event_count ≡ length r.events
    → handle_event r id ≡ (if is_registered r.events id then fault else ret tt)
unfolding handle_event
handle_event_null r id null count = rw count (find_event_null r.events id null)

pub find_event_added :
    (events : List Event) (id : ℕ)
    → AllNull events
    → find_event (suc (length events)) (events ++ record { id = id; handler = none } ∷ []) id
      ≡ fault
unfolding find_event call_handler
find_event_added [] id null = simp ==_refl
find_event_added (e ∷ events) id (n, null) = rw n (ground (arith, find_event_added events id null))

-- A table that is there is kept.
pub kept_events-all :
    (n : ℕ) (events : List Event) (memory : List ℕ)
    → n ≡ length events
    → kept_events n events memory ≡ events
unfolding kept_events
kept_events-all zero [] memory count = refl
kept_events-all zero (e ∷ events) memory count = absurd (omega arith)
kept_events-all (suc n) [] memory count = absurd (omega arith)
kept_events-all (suc n) (e ∷ events) memory count =
    ap (λ l. e ∷ l) (kept_events-all n events memory (omega arith))
