-- ===== src/Reactor/Accepting.antt =====
-- A new connection of task4_DesignPattern_Reactor/react_server.c while no connection hangs up: the
-- entry and the registration.
use making_chat_on_c.Base.{
  ℕ, suc, ◌+◌, ◌-◌, ◌==◌, ◌≤◌, ◌≡◌, ◌∙◌, ap, sym, refl, false, List, [], ◌∷◌, ◌++◌, Option, none,
  some, length, length-append, set, map, arith, length-set, get_elem?_of_lt,
}
use mathlib.Core.Path.{subst}
use making_chat_on_c.Os.{ret, ◌>>=◌, sys, perror, print, ◌>>◌, accept, realloc}
use making_chat_on_c.Os.Assume.{EnsuresIf-bind}
use making_chat_on_c.Reactor.{
  Reactor, PollFd, Event, find_event, make_room, put_fd, add_event, kept_events, add_fd,
  handle_event,
}
use making_chat_on_c.Reactor.Handlers.{kept_events-all}
use making_chat_on_c.Reactor.Loop.{accept_client}
use making_chat_on_c.Reactor.Calm.{IsCalm, IsFresh, AllOthers-get, AllOthers-set, find_event_fresh}
use making_chat_on_c.Reactor.Serving.{
  Watch, watch_step, IsQuiet, Serving, Ends, Keeps, set_behind, get_behind,
}
use making_chat_on_c.Reactor.Room.{Roomy, make_room-Keeps}

map-append :
    (events : List Event) (e : Event)
    → map (λ (e : Event). e.id) (events ++ e ∷ []) ≡ map (λ (e : Event). e.id) events ++ e.id ∷ []
map-append [] e = refl
map-append (d ∷ events) e = ap (λ l. d.id ∷ l) (map-append events e)

module _ (fuel listener : ℕ) (real : (0 == listener) ≡ false) where
  -- The new entry and the new registration.
  added :
      (r r1 : Reactor) (old : Watch) (newfd : ℕ) (entry : PollFd) (memory : List ℕ)
      → Roomy listener r r1 old
      → IsCalm entry.revents
      → (newfd == listener) ≡ false
      → Serving listener
          (add_event
            (record r1 {
              pfds = set r1.pfds r1.fd_count (record entry { fd = newfd });
              fd_count = r1.fd_count + 1;
            })
            newfd
            none
            (some memory))
          (record old { ids = old.ids ++ newfd ∷ [] })
  unfolding add_event
  added r r1 old newfd entry memory roomy calm other =
      let h = roomy.serving in
      let kept = kept_events-all r1.event_count r1.events memory h.counted in
      record {
        first = h.first;
        rest = set h.rest (r1.fd_count - 1) (record entry { fd = newfd });
        entries = set_behind r1.pfds h.first h.rest r1.fd_count _ h.entries h.in_use;
        is_listener = h.is_listener;
        calm = h.calm;
        others = AllOthers-set listener h.rest _ _ calm other h.others;
        allocated = length-set r1.pfds r1.fd_count _ ∙ h.allocated;
        within = omega (arith, roomy.below);
        in_use = omega arith;
        registered = rw kept (map-append r1.events _) ∙ ap (λ l. l ++ newfd ∷ []) h.registered;
        counted = omega (
          arith,
          h.counted,
          ap length kept,
          length-append (kept_events r1.event_count r1.events memory)
              (record { id = newfd; handler = none } ∷ []),
        );
        few = omega (arith, h.few, length-append old.ids (newfd ∷ []));
        none_closed = h.none_closed;
        none_freed = h.none_freed;
      }

  -- `r` after a visit, with at most one more entry.
  pub record Grown (r : Reactor) (w : Watch) (r' : Reactor) (t : Watch) : Type 0 where
    pub serving : Serving listener r' t
    pub at_least : r.fd_count ≤ r'.fd_count
    pub at_most : r'.fd_count ≤ suc r.fd_count
    pub same_polls : t.polls ≡ w.polls
    pub same_size : length r.pfds ≤ length r'.pfds

  -- From the second `realloc` on.
  register-Keeps :
      (r r1 : Reactor) (old : Watch) (newfd : ℕ) (entry : PollFd)
      → Roomy listener r r1 old
      → IsCalm entry.revents
      → (newfd == listener) ≡ false
      → (table : Option (List ℕ)) → Unit {0}
      → IsQuiet listener
          (record old { ids = old.ids ++ newfd ∷ [] })
          (realloc (r1.event_count + 1))
          table
      → Keeps fuel listener
          (Grown r old)
          (record old { ids = old.ids ++ newfd ∷ [] })
          (ret (
            add_event
              (record r1 {
                pfds = set r1.pfds r1.fd_count (record entry { fd = newfd });
                fd_count = r1.fd_count + 1;
              })
              newfd
              none
              table))
  unfolding add_event
  register-Keeps r r1 old newfd entry roomy calm other none legal quiet = absurd quiet
  register-Keeps r r1 old newfd entry roomy calm other (some memory) legal quiet = record {
    serving = added r r1 old newfd entry memory roomy calm other;
    at_least = omega (arith, roomy.same_count);
    at_most = omega (arith, roomy.same_count);
    same_polls = refl;
    same_size =
        omega (arith, roomy.longer, length-set r1.pfds r1.fd_count (record entry { fd = newfd }));
  }

  place_new :
      (r r1 : Reactor) (old : Watch) (newfd : ℕ)
      → Roomy listener r r1 old
      → (newfd == listener) ≡ false
      → Keeps fuel listener
          (Grown r old)
          (record old { ids = old.ids ++ newfd ∷ [] })
          (do
            pfds ← put_fd r1.pfds r1.fd_count newfd
            table ← sys (realloc (r1.event_count + 1))
            ret (
                add_event (record r1 { pfds = pfds; fd_count = r1.fd_count + 1 }) newfd none table))
  unfolding put_fd
  place_new r r1 old newfd roomy other =
      let h = roomy.serving in
      let (entry, at_count) =
        get_elem?_of_lt r1.pfds r1.fd_count (omega (arith, roomy.below, h.allocated)) in
      let (calm, was_other) =
        AllOthers-get listener h.rest (r1.fd_count - 1) entry h.others
          (sym (get_behind r1.pfds h.first h.rest r1.fd_count h.entries h.in_use) ∙ at_count) in
      rw at_count (register-Keeps r r1 old newfd entry roomy calm other)

  add_fd-Keeps :
      (r : Reactor) (old : Watch) (newfd : ℕ)
      → Serving listener r old
      → (newfd == listener) ≡ false
      → Keeps fuel listener
          (Grown r old)
          (record old { ids = old.ids ++ newfd ∷ [] })
          (add_fd r newfd none)
  unfolding add_fd
  add_fd-Keeps r old newfd h other =
      let w : Watch = record old { ids = old.ids ++ newfd ∷ [] } in
      EnsuresIf-bind watch_step (IsQuiet listener) (λ r' t. Roomy listener r r' old × (t ≡ w))
        (Ends fuel) (Grown r old) _
        (λ r1 t (roomy, same). rw same (place_new r r1 old newfd roomy other)) w (make_room r)
        (make_room-Keeps fuel listener real r old w h)

  handle_event_fresh :
      (r : Reactor) (w : Watch) (newfd : ℕ)
      → Serving listener r w
      → IsFresh newfd w.ids
      → handle_event r newfd ≡ ret tt
  unfolding handle_event
  handle_event_fresh r w newfd h fresh =
      ap (λ n. find_event n r.events newfd) h.counted
      ∙ find_event_fresh r.events newfd (subst (IsFresh newfd) (sym h.registered) fresh)

  -- An answer of `accept`.
  accepted-Keeps :
      (r : Reactor) (w : Watch)
      → Serving listener r w
      → (newfd : Option ℕ) → Unit {0}
      → IsQuiet listener w (accept listener) newfd
      → Keeps fuel listener (Grown r w) (watch_step (accept listener) newfd w) (elim newfd [
        | none ↦ do sys (perror "accept"); ret r
        | some newfd ↦ do sys (print "new connection" []); handle_event r newfd; add_fd r newfd none
      ])
  accepted-Keeps r w h none legal quiet = λ done legal quiet. record {
    serving = h;
    at_least = omega arith;
    at_most = omega arith;
    same_polls = refl;
    same_size = omega arith;
  }
  accepted-Keeps r w h (some newfd) legal (fresh, other) =
      λ done legal quiet. rw (handle_event_fresh r w newfd h fresh) (add_fd-Keeps r w newfd h other)

  pub accept_client-Keeps :
      (r : Reactor) (w : Watch)
      → Serving listener r w
      → Keeps fuel listener (Grown r w) w (accept_client r listener)
  unfolding accept_client
  accept_client-Keeps r w h = accepted-Keeps r w h
