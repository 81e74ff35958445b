-- ===== src/Reactor/Room.antt =====
-- The room that `addFd` of task4_DesignPattern_Reactor/react_server.c makes in the array.
use making_chat_on_c.Base.{
  ℕ, ◌-◌, ◌*◌, ◌==◌, ◌<◌, ◌≤◌, ◌≡◌, inl, inr, ap, refl, false, List, ◌++◌, Option, none, some,
  length, length-append, arith, Bool-cases,
}
use making_chat_on_c.Os.{ret, exit, realloc}
use making_chat_on_c.Reactor.{Reactor, stale_entries, make_room}
use making_chat_on_c.Reactor.AddFd.{length-stale_entries, size_reached, size_ahead}
use making_chat_on_c.Reactor.Calm.{AllCalm, AllOthers-append, stale_entries-AllOthers}
use making_chat_on_c.Reactor.Serving.{Watch, IsQuiet, Serving, Keeps}

-- `r'` is `r` with room for one more entry.
pub record Roomy (listener : ℕ) (r r' : Reactor) (w : Watch) : Type 0 where
  pub serving : Serving listener r' w
  pub same_count : r'.fd_count ≡ r.fd_count
  pub below : r'.fd_count < r'.fd_size
  pub longer : length r.pfds ≤ length r'.pfds

module _ (fuel listener : ℕ) (real : (0 == listener) ≡ false) where
  grown-Roomy :
      (r : Reactor) (w : Watch) (memory : List ℕ)
      → Serving listener r w
      → AllCalm memory
      → r.fd_count ≡ r.fd_size
      → Roomy listener r
          (record r {
            fd_size = r.fd_size * 2;
            pfds = r.pfds ++ stale_entries (r.fd_size * 2 - r.fd_size) memory;
          })
          w
  grown-Roomy r w memory h calm full =
      let stale = stale_entries (r.fd_size * 2 - r.fd_size) memory in
      record {
        serving = record {
          first = h.first;
          rest = h.rest ++ stale;
          entries = ap (λ l. l ++ stale) h.entries;
          is_listener = h.is_listener;
          calm = h.calm;
          others =
              AllOthers-append listener h.rest stale h.others
                (stale_entries-AllOthers listener _ memory real calm);
          allocated = omega (
            arith,
            length-append r.pfds stale,
            length-stale_entries (r.fd_size * 2 - r.fd_size) memory,
            h.allocated,
          );
          within = omega (arith, h.within);
          in_use = h.in_use;
          registered = h.registered;
          counted = h.counted;
          few = h.few;
          none_closed = h.none_closed;
          none_freed = h.none_freed;
        };
        same_count = refl;
        below = omega (arith, h.in_use);
        longer = omega (arith, length-append r.pfds stale);
      }

  -- The table is that of before `accept`, whose answer the watch `w` already has.
  pub make_room-Keeps :
      (r : Reactor) (old w : Watch)
      → Serving listener r old
      → Keeps fuel listener (λ r' t. Roomy listener r r' old × (t ≡ w)) w (make_room r)
  unfolding make_room
  make_room-Keeps r old w h = elim (Bool-cases (r.fd_count == r.fd_size)) [
    | inl p ↦ rw p (grow (size_reached r.fd_count r.fd_size p))
    | inr p ↦ rw p (
      record {
        serving = h;
        same_count = refl;
        below = size_ahead r.fd_count r.fd_size p h.within;
        longer = omega arith;
      },
      refl,
    )
  ]
    where
      grow :
          r.fd_count ≡ r.fd_size
          → (memory : Option (List ℕ)) → Unit {0}
          → IsQuiet listener w (realloc (r.fd_size * 2)) memory
          → Keeps fuel listener
              (λ r' t. Roomy listener r r' old × (t ≡ w))
              w
              (elim memory [
                | none ↦ exit 1
                | some memory ↦ ret (record r {
                  fd_size = r.fd_size * 2;
                  pfds = r.pfds ++ stale_entries (r.fd_size * 2 - r.fd_size) memory;
                })
              ])
      grow full none legal quiet = absurd quiet
      grow full (some memory) legal quiet = (grown-Roomy r old memory h quiet full, refl)
