-- ===== src/Reactor/Polls.antt =====
-- The loop of `startReactor` of task4_DesignPattern_Reactor/react_server.c while no connection
-- hangs up.
use making_chat_on_c.Base.{
  ℕ, zero, suc, ◌+◌, ◌-◌, ◌==◌, ◌<◌, ◌≤◌, ◌≡◌, ◌∙◌, ap, refl, Bool, true, false, List, [], ◌∷◌,
  Option, none, some, take, map, arith,
}
use making_chat_on_c.Os.{ret, defined, unwrap, die, ◌>>=◌, ◌>>◌, sys, poll, fcntl, perror}
use making_chat_on_c.Os.Assume.{EnsuresIf-bind, EnsuresIf-if}
use making_chat_on_c.Reactor.{Reactor, PollFd}
use making_chat_on_c.Reactor.Loop.{scan, remove_all, put_revents, reactor_loop, set_nonblocking}
use making_chat_on_c.Reactor.Calm.{IsCalm, AllCalm, put_revents-AllOthers, length-put_revents}
use making_chat_on_c.Reactor.Serving.{Watch, watch_step, IsQuiet, Serving, Ends, Keeps}
use making_chat_on_c.Reactor.Scan.{Scanned, scan-Keeps, remove_all-Serving}

-- The reactor was stopped.
abbrev pub Stopped : ℕ → Reactor → Watch → Type 0
Stopped listener r w = Serving listener r w × (r.running ≡ false)

module _ (fuel listener : ℕ) (real : (0 == listener) ≡ false) where
  put_first :
      (es : List PollFd) (first : PollFd) (rest : List PollFd) (n : ℕ) (revents : List ℕ)
      → es ≡ first ∷ rest
      → 0 < n
      → AllCalm revents
      → (v : ℕ) × (others : List ℕ) × IsCalm v
        × AllCalm others
        × (put_revents es n revents
            ≡ record first { revents = v } ∷ put_revents rest (n - 1) others)
  unfolding put_revents
  put_first es first rest zero revents e some_use calm = absurd (omega arith)
  put_first es first rest (suc n) [] e some_use calm =
      let same : n ≡ suc n - 1 = omega arith in
      (
        0,
        [],
        refl,
        tt,
        ap (λ l. put_revents l (suc n) []) e
            ∙ ap (λ k. record first { revents = 0 } ∷ put_revents rest k []) same,
      )
  put_first es first rest (suc n) (v ∷ revents) e some_use (calm, more) =
      let same : n ≡ suc n - 1 = omega arith in
      (
        v,
        revents,
        calm,
        more,
        ap (λ l. put_revents l (suc n) (v ∷ revents)) e
            ∙ ap (λ k. record first { revents = v } ∷ put_revents rest k revents) same,
      )

  -- `poll` has written its events.
  polled-Serving :
      (r : Reactor) (w : Watch) (revents : List ℕ)
      → Serving listener r w
      → AllCalm revents
      → Serving listener
          (record r { pfds = put_revents r.pfds r.fd_count revents })
          (record w { polls = suc w.polls })
  polled-Serving r w revents h calm =
      let (v, more, calm_first, calm_rest, e) =
        put_first r.pfds h.first h.rest r.fd_count revents h.entries h.in_use calm in
      record {
        first = record (h.first) { revents = v };
        rest = put_revents h.rest (r.fd_count - 1) more;
        entries = e;
        is_listener = h.is_listener;
        calm = calm_first;
        others = put_revents-AllOthers listener h.rest (r.fd_count - 1) more calm_rest h.others;
        allocated = length-put_revents r.pfds r.fd_count revents ∙ h.allocated;
        within = h.within;
        in_use = h.in_use;
        registered = h.registered;
        counted = h.counted;
        few = h.few;
        none_closed = h.none_closed;
        none_freed = h.none_freed;
      }

  unfoldable pub LoopKeeps : ℕ → Type 0
  LoopKeeps rounds =
      (r : Reactor) (w : Watch)
      → Serving listener r w
      → fuel ≤ w.polls + rounds
      → Keeps fuel listener (Stopped listener) w (reactor_loop rounds r)

  -- The removals and the rounds behind the loop over the entries.
  removals-Keeps :
      (rounds : ℕ) (w : Watch)
      → LoopKeeps rounds
      → fuel ≤ w.polls + rounds
      → (a : Reactor × List ℕ) (t : Watch) → Scanned fuel listener real w.polls a t
      → Keeps fuel listener
          (Stopped listener)
          t
          (defined (remove_all a.1 a.0) (λ r. ret r) >>= reactor_loop rounds)
  unfolding LoopKeeps
  removals-Keeps rounds w again enough (r, removed) t (h, inside, fewer, same) =
      let (r', e, h') = remove_all-Serving removed r h inside fewer in
      rw e (again r' t h' (omega (arith, same)))

  polled-Keeps :
      (rounds : ℕ) (r : Reactor) (w : Watch)
      → LoopKeeps rounds
      → Serving listener r w
      → fuel ≤ w.polls + suc rounds
      → (polled : Option (List ℕ)) → Unit {0}
      → IsQuiet listener w
          (poll (map (λ (e : PollFd). e.fd) (take r.fd_count r.pfds)) (some 25000))
          polled
      → Keeps fuel listener {A = Reactor}
          (Stopped listener)
          (record w { polls = suc w.polls })
          (do
            revents ← unwrap polled (die "poll")
            (r, removed) ←
                scan rounds 0 r.fd_count []
                  (record r { pfds = put_revents r.pfds r.fd_count revents })
            r ← defined (remove_all removed r) (λ s. ret s)
            reactor_loop rounds r)
  polled-Keeps rounds r w again h enough none legal quiet = λ done legal quiet. refl
  polled-Keeps rounds r w again h enough (some revents) legal calm =
      let w' : Watch = record w { polls = suc w.polls } in
      let r' : Reactor = record r { pfds = put_revents r.pfds r.fd_count revents } in
      EnsuresIf-bind watch_step (IsQuiet listener) (Scanned fuel listener real (suc w.polls))
        (Ends fuel) (Stopped listener) _ (removals-Keeps rounds w' again (omega arith)) w'
        (scan rounds 0 r.fd_count [] r')
        (scan-Keeps fuel listener real rounds r' w' (polled-Serving r w revents h calm)
          (omega arith))

  pub loop-Keeps : (rounds : ℕ) → LoopKeeps rounds
  unfolding LoopKeeps reactor_loop
  loop-Keeps zero r w h enough = omega arith
  loop-Keeps (suc rounds) r w h enough =
      EnsuresIf-if watch_step (IsQuiet listener) (Stopped listener) (Ends fuel) w _ _ r.running
        (λ going. polled-Keeps rounds r w (loop-Keeps rounds) h enough) (λ stopped. (h, stopped))

  -- What does not change the state of the watch.
  pub set_nonblocking-Keeps :
      (fd : ℕ) (w : Watch) → Keeps fuel listener (λ done t. t ≡ w) w (set_nonblocking fd)
  unfolding set_nonblocking
  set_nonblocking-Keeps fd w = λ flags legal quiet. read flags
    where
      changed :
          (b : Bool)
          → Keeps fuel listener
              (λ (done : Bool) t. t ≡ w)
              w
              (elim b [ false ↦ do sys (perror "fcntl"); ret false | true ↦ ret true ])
      changed false = λ done legal quiet. refl
      changed true = refl

      read :
          (b : Bool)
          → Keeps fuel listener
              (λ (done : Bool) t. t ≡ w)
              w
              (elim b [
                | false ↦ do sys (perror "fcntl"); ret false
                | true ↦ do
                  changed ← sys (fcntl fd)
                  elim changed [ false ↦ do sys (perror "fcntl"); ret false | true ↦ ret true ]
              ])
      read false = λ done legal quiet. refl
      read true = λ b legal quiet. changed b
