-- ===== src/Reactor/Finishes.antt =====
-- A whole run of task4_DesignPattern_Reactor/react_server.c while no connection hangs up.
use making_chat_on_c.Base.{
  ℕ, ◌==◌, ◌≡◌, ◌∙◌, ap, refl, map, arith, Bool, true, false, List, [], ◌∷◌, Option, none, some,
}
use making_chat_on_c.Os.{
  Prog, ret, exit, ◌>>=◌, ◌>>◌, sys, Domain, Kind, any_host, literal, socket, setsockopt, bind,
  close, print, malloc, free_part, Part, event_table, poll_array, reactor_record,
}
use making_chat_on_c.Os.Assume.{EnsuresIf-bind, Outcome, EndsAs, Run, Run-EndsAs}
use making_chat_on_c.Reactor.{Reactor, PollFd, Event, create_reactor}
use making_chat_on_c.Reactor.Loop.{start_reactor}
use making_chat_on_c.Reactor.Listener.{bind_first, listen_bound, get_listener_socket}
use making_chat_on_c.Reactor.Serving.{Watch, watch_step, IsQuiet, Ends, Keeps, AllListener}
use making_chat_on_c.Reactor.Polls.{Stopped}
use making_chat_on_c.Reactor.Serves.{fresh_reactor, unwatched, start_reactor-Keeps}
use making_chat_on_c.Reactor.Main.{
  destroy_reactor, free_table, free_array, run_reactor, reactor_main,
}

-- The table of the events is one piece if any descriptor was registered.
abbrev pub table_parts : List ℕ → List Part
table_parts [] = []
table_parts (id ∷ ids) = event_table ∷ []

-- The end of `main`: everything of the reactor is freed, and nothing but the listener was closed.
pub record Finished (listener status : ℕ) (t : Watch) : Type 0 where
  pub succeeds : status ≡ 0
  pub all_freed : t.freed ≡ reactor_record ∷ poll_array ∷ table_parts t.ids
  pub earlier : List ℕ
  pub listener_last : t.closed ≡ listener ∷ earlier
  pub only_listener : AllListener listener earlier

-- What `get_listener_socket` has found, and has closed on the way.
abbrev Opened : ℕ → Option ℕ → Watch → Type 0
Opened listener none t = (closed : List ℕ) × AllListener listener closed × (t ≡ unwatched closed)
Opened listener (some fd) t =
    (fd ≡ listener) × (closed : List ℕ) × AllListener listener closed × (t ≡ unwatched closed)

module _ (fuel listener : ℕ) where
  -- What the loop over the addresses makes of the rest of them.
  abbrev RestKeeps : Prog (Option ℕ) → Type 0
  RestKeeps rest =
      (closed : List ℕ)
      → AllListener listener closed
      → Keeps fuel listener (Opened listener) (unwatched closed) rest

  bound-Keeps :
      (rest : Prog (Option ℕ)) (closed : List ℕ) (fd : ℕ)
      → RestKeeps rest
      → AllListener listener closed
      → fd ≡ listener
      → (b : Bool)
      → Keeps fuel listener
          (Opened listener)
          (unwatched closed)
          (elim b [ true ↦ ret (some fd) | false ↦ do sys (close fd); rest ])
  bound-Keeps rest closed fd next same is true = (is, closed, same, refl)
  bound-Keeps rest closed fd next same is false = λ done legal quiet. next (fd ∷ closed) (is, same)

  socket-Keeps :
      (rest : Prog (Option ℕ)) (closed : List ℕ) (family : Domain)
      → RestKeeps rest
      → AllListener listener closed
      → (fd : Option ℕ) → Unit {0}
      → IsQuiet listener (unwatched closed) (socket family Kind.stream) fd
      → Keeps fuel listener (Opened listener) (unwatched closed) (elim fd [
        | none ↦ rest
        | some fd ↦ do
          sys (setsockopt fd)
          bound ← sys (bind fd (any_host (literal 9035)))
          elim bound [ true ↦ ret (some fd) | false ↦ do sys (close fd); rest ]
      ])
  socket-Keeps rest closed family next same none legal quiet = next closed same
  socket-Keeps rest closed family next same (some fd) legal is =
      λ done legal1 quiet1 b legal2 quiet2. bound-Keeps rest closed fd next same is b

  bind_first-Keeps : (families : List Domain) → RestKeeps (bind_first families)
  unfolding bind_first
  bind_first-Keeps [] closed same = (closed, same, refl)
  bind_first-Keeps (family ∷ families) closed same =
      socket-Keeps (bind_first families) closed family (bind_first-Keeps families) same

  listen_bound-Keeps :
      (found : Option ℕ) (t : Watch)
      → Opened listener found t
      → Keeps fuel listener (Opened listener) t (listen_bound found)
  unfolding listen_bound
  listen_bound-Keeps none t h = λ done legal quiet. h
  listen_bound-Keeps (some fd) t (is, closed, same, at_start) =
      λ done legal1 quiet1 b legal2 quiet2. listened b
    where
      listened :
          (b : Bool)
          → Keeps fuel listener
              (Opened listener)
              t
              (elim b [ true ↦ ret (some fd) | false ↦ ret none ])
      listened true = (is, closed, same, at_start)
      listened false = (closed, same, at_start)

  get_listener_socket-Keeps :
      Keeps fuel listener (Opened listener) (unwatched []) get_listener_socket
  unfolding get_listener_socket
  get_listener_socket-Keeps = λ found legal quiet. go found
    where
      go :
          (found : Option (List Domain))
          → Keeps fuel listener (Opened listener) (unwatched []) (elim found [
            | none ↦ do sys (print "selectserver: " []); exit 1
            | some families ↦ do bound ← bind_first families; listen_bound bound
          ])
      go none = λ done legal quiet. refl
      go (some families) =
          EnsuresIf-bind watch_step (IsQuiet listener) (Opened listener) (Ends fuel)
            (Opened listener) listen_bound listen_bound-Keeps (unwatched []) (bind_first families)
            (bind_first-Keeps families [] tt)

  -- Behind the loop of the reactor.
  closing-Keeps :
      (r : Reactor) (t : Watch)
      → Stopped listener r t
      → Keeps fuel listener
          (Finished listener)
          t
          (do destroy_reactor (some r); sys (close listener); ret 0)
  unfolding destroy_reactor free_table free_array
  closing-Keeps r t (h, stopped) = ends r.events r.pfds h.registered h.entries
    where
      finished :
          (parts : List Part)
          → parts ≡ table_parts t.ids
          → Finished listener 0 (record t {
            closed = listener ∷ t.closed;
            freed = reactor_record ∷ poll_array ∷ parts;
          })
      finished parts e = record {
        succeeds = refl;
        all_freed = ap (λ l. reactor_record ∷ poll_array ∷ l) e;
        earlier = t.closed;
        listener_last = refl;
        only_listener = h.none_closed;
      }

      ends :
          (events : List Event) (pfds : List PollFd)
          → map (λ (e : Event). e.id) events ≡ t.ids
          → pfds ≡ h.first ∷ h.rest
          → Keeps fuel listener (Finished listener) t (do
            (do free_table events; free_array pfds; sys (free_part reactor_record))
            sys (close listener)
            ret 0)
      ends events [] registered e = absurd (ground arith)
      ends [] (entry ∷ rest) registered e =
          λ d1 l1 q1 d2 l2 q2 d3 l3 q3. finished t.freed (h.none_freed ∙ ap table_parts registered)
      ends (event ∷ events) (entry ∷ rest) registered e = λ d1 l1 q1 d2 l2 q2 d3 l3 q3 d4 l4 q4.
          finished (event_table ∷ t.freed)
            (ap (λ l. event_table ∷ l) h.none_freed ∙ ap table_parts registered)

module _ (fuel listener : ℕ) (real : (0 == listener) ≡ false) where
  run_reactor-Keeps :
      (allocated : Bool) (closed : List ℕ)
      → AllListener listener closed
      → Keeps fuel listener
          (Finished listener)
          (unwatched closed)
          (run_reactor fuel listener allocated)
  unfolding run_reactor create_reactor
  run_reactor-Keeps false closed same = λ done legal quiet. refl
  run_reactor-Keeps true closed same =
      EnsuresIf-bind watch_step (IsQuiet listener) (Stopped listener) (Ends fuel)
        (Finished listener) _ (closing-Keeps fuel listener) (unwatched closed)
        (start_reactor fuel (fresh_reactor listener))
        (start_reactor-Keeps fuel listener closed real same)

  allocated-Keeps :
      (found : Option ℕ) (t : Watch)
      → Opened listener found t
      → Keeps fuel listener (Finished listener) t (elim found [
        | none ↦ do sys (print "error getting listening socket" []); exit 1
        | some listener ↦ do
          pfds ← sys (malloc 40)
          elim pfds [
            | none ↦ do sys (print "Failed to allocate memory for pfds" []); exit 1
            | some array ↦ do
              memory ← sys (malloc 48)
              elim memory [
                | none ↦ run_reactor fuel listener false
                | some reactor ↦ run_reactor fuel listener true
              ]
          ]
      ])
  allocated-Keeps none t h = λ done legal quiet. refl
  allocated-Keeps (some fd) t (is, closed, same, at_start) = λ pfds legal quiet. array pfds
    where
      record_of :
          (memory : Option ℕ)
          → Keeps fuel listener (Finished listener) t (elim memory [
            | none ↦ run_reactor fuel fd false
            | some reactor ↦ run_reactor fuel fd true
          ])
      record_of none = rw (is, at_start) (run_reactor-Keeps false closed same)
      record_of (some reactor) = rw (is, at_start) (run_reactor-Keeps true closed same)

      array :
          (pfds : Option ℕ)
          → Keeps fuel listener (Finished listener) t (elim pfds [
            | none ↦ do sys (print "Failed to allocate memory for pfds" []); exit 1
            | some array ↦ do
              memory ← sys (malloc 48)
              elim memory [
                | none ↦ run_reactor fuel fd false
                | some reactor ↦ run_reactor fuel fd true
              ]
          ])
      array none = λ done legal quiet. refl
      array (some address) = λ memory legal quiet. record_of memory

-- The whole program runs to an end on answers where `socket` gives the same descriptor each time,
-- which is not 0, `poll` reports no error and no hang-up of a descriptor, each message fits the
-- buffers, `realloc` gives memory in which no such report stands either, and `accept` gives
-- descriptors that are new and not the listener. Then it met no undefined behaviour. When `main`
-- returned it returned 0, has freed the reactor, the array and, if a connection was accepted, the
-- table, each once, and has closed the listener last and no other descriptor, so that each accepted
-- one is still open. When the process exited it was with status 1. When the fuel was used up, the
-- rounds and the accepted descriptors are together one less than it at least.
pub reactor_main_finishes :
    (fuel listener : ℕ) (o : Outcome ℕ) (t : Watch)
    → (0 == listener) ≡ false
    → Run watch_step (IsQuiet listener) (reactor_main fuel) (unwatched []) o t
    → EndsAs (Finished listener) (Ends fuel) o t
unfolding reactor_main
reactor_main_finishes fuel listener o t real =
    Run-EndsAs watch_step (IsQuiet listener) (Finished listener) (Ends fuel) (reactor_main fuel)
      (unwatched []) o t
      (EnsuresIf-bind watch_step (IsQuiet listener) (Opened listener) (Ends fuel)
        (Finished listener) _ (allocated-Keeps fuel listener real) (unwatched [])
        get_listener_socket (get_listener_socket-Keeps fuel listener))
