-- ===== src/Reactor/Scan.antt =====
-- The loop of task4_DesignPattern_Reactor/react_server.c over the entries and the removals behind
-- it, while no connection hangs up.
use making_chat_on_c.Base.{
  ℕ, zero, suc, ◌+◌, ◌-◌, ◌==◌, ◌<◌, ◌≤◌, ◌≡◌, inl, inr, ◌∙◌, ap, sym, refl, true, false, List, [],
  ◌∷◌, ◌++◌, some, length, length-append, get_elem?, set, ltb, arith, ==_refl, length-set,
  get_elem?_of_lt,
}
use native.Mathlib.Decide.{dec_lt}
use making_chat_on_c.Os.{ret, spin, ◌>>=◌}
use making_chat_on_c.Os.Assume.{EnsuresIf-bind}
use making_chat_on_c.Reactor.{Reactor, PollFd, del_from_pfds}
use making_chat_on_c.Reactor.Loop.{visit, scan, remove_all}
use making_chat_on_c.Reactor.Entries.{del_from_pfds-some}
use making_chat_on_c.Reactor.Calm.{AllOthers-get, AllOthers-set}
use making_chat_on_c.Reactor.Serving.{
  Watch, watch_step, IsQuiet, Serving, Ends, Keeps, set_behind, get_behind,
}
use making_chat_on_c.Reactor.Rounds.{Accepted, Noted, visit_listener-Keeps, visit_client-Keeps}

-- The noted indices are behind the listener and inside the array.
abbrev pub AllInside : ℕ → List ℕ → Type 0
AllInside size [] = Unit {0}
AllInside size (i ∷ removed) = (0 < i) × (i < size) × AllInside size removed

AllInside-append :
    (size : ℕ) (removed : List ℕ) (i : ℕ)
    → AllInside size removed
    → 0 < i
    → i < size
    → AllInside size (removed ++ i ∷ [])
AllInside-append size [] i h behind below = (behind, below, tt)
AllInside-append size (j ∷ removed) i (b, l, h) behind below =
    (b, l, AllInside-append size removed i h behind below)

remove_all_step :
    (i : ℕ) (removed : List ℕ) (r r1 : Reactor)
    → del_from_pfds r i ≡ some r1
    → remove_all (i ∷ removed) r ≡ remove_all removed r1
unfolding remove_all
remove_all_step i removed r r1 e = rw (remove_all, e) refl

remove_none : (r : Reactor) → remove_all [] r ≡ some r
unfolding remove_all
remove_none r = refl

module _ {listener : ℕ} {w : Watch} where
  -- One removal keeps the listener first.
  removed_one :
      (r : Reactor) (i : ℕ)
      → Serving listener r w
      → 0 < i
      → i < length r.pfds
      → 1 < r.fd_count
      → (r' : Reactor) × (del_from_pfds r i ≡ some r')
        × Serving listener r' w
        × (r'.fd_count + 1 ≡ r.fd_count)
        × (length r'.pfds ≡ length r.pfds)
  removed_one r i h behind inside more =
      let (entry, at_i) = get_elem?_of_lt r.pfds i inside in
      let (last, at_last) =
        get_elem?_of_lt r.pfds (r.fd_count - 1) (omega (arith, h.within, h.allocated)) in
      let (calm, other) = AllOthers-get listener h.rest (r.fd_count - 1 - 1) last h.others (
        sym (get_behind r.pfds h.first h.rest (r.fd_count - 1) h.entries (omega arith))
        ∙ at_last) in
      (
        _,
        del_from_pfds-some r (r.fd_count - 1) i entry last (omega arith) at_last at_i,
        record {
          first = h.first;
          rest = set h.rest (i - 1) last;
          entries = set_behind r.pfds h.first h.rest i last h.entries behind;
          is_listener = h.is_listener;
          calm = h.calm;
          others = AllOthers-set listener h.rest (i - 1) last calm other h.others;
          allocated = length-set r.pfds i last ∙ h.allocated;
          within = omega (arith, h.within);
          in_use = omega arith;
          registered = h.registered;
          counted = h.counted;
          few = omega (arith, h.few);
          none_closed = h.none_closed;
          none_freed = h.none_freed;
        },
        omega arith,
        length-set r.pfds i last,
      )

  pub remove_all-Serving :
      (removed : List ℕ) (r : Reactor)
      → Serving listener r w
      → AllInside (length r.pfds) removed
      → length removed < r.fd_count
      → (r' : Reactor) × (remove_all removed r ≡ some r') × Serving listener r' w
  remove_all-Serving [] r h inside fewer = (r, remove_none r, h)
  remove_all-Serving (i ∷ removed) r h (behind, below, inside) fewer =
      let (r1, e, h1, less, same) = removed_one r i h behind below (omega arith) in
      let (r2, f, h2) = remove_all-Serving removed r1 h1 (rw same inside) (omega (arith, less)) in
      (r2, remove_all_step i removed r r1 e ∙ f, h2)

module _ (fuel listener : ℕ) (real : (0 == listener) ≡ false) where
  -- The end of the loop, with the indices that it has noted.
  abbrev pub Scanned : ℕ → Reactor × List ℕ → Watch → Type 0
  Scanned polls (r, removed) t =
      Serving listener r t
      × AllInside (length r.pfds) removed
      × (length removed < r.fd_count)
      × (t.polls ≡ polls)

  scan_opens :
      (rounds i size : ℕ) (removed : List ℕ) (r : Reactor) (first entry : PollFd)
      → i < r.fd_count
      → get_elem? r.pfds i ≡ some entry
      → get_elem? r.pfds 0 ≡ some first
      → scan (suc rounds) i size removed r
        ≡ (visit r i entry first.fd size removed >>= λ a. scan rounds (i + 1) size a.1 a.0)
  unfolding scan
  scan_opens rounds i size removed r first entry more at_i at_0 =
      let open_round : ltb i r.fd_count ≡ true = ground arith in rw (open_round, at_i, at_0) refl

  scan_open :
      (rounds i size : ℕ) (removed : List ℕ) (r : Reactor) (w : Watch) (h : Serving listener r w)
      (entry : PollFd)
      → i < r.fd_count
      → get_elem? r.pfds i ≡ some entry
      → scan (suc rounds) i size removed r
        ≡ (visit r i entry listener size removed >>= λ a. scan rounds (i + 1) size a.1 a.0)
  scan_open rounds i size removed r w h entry more at_i =
      scan_opens rounds i size removed r h.first entry more at_i (ap (λ l. get_elem? l 0) h.entries)
      ∙ ap (λ fd. visit r i entry fd size removed >>= λ a. scan rounds (i + 1) size a.1 a.0)
          h.is_listener

  scan_end :
      (rounds i size : ℕ) (removed : List ℕ) (r : Reactor)
      → r.fd_count ≤ i
      → scan (suc rounds) i size removed r ≡ ret (r, removed)
  unfolding scan
  scan_end rounds i size removed r end =
      let over : ltb i r.fd_count ≡ false = ground arith in rw over refl

  scan_out : (i size : ℕ) (removed : List ℕ) (r : Reactor) → scan zero i size removed r ≡ spin
  unfolding scan
  scan_out i size removed r = refl

  -- From a client on, with `rounds` as the fuel of the loop.
  abbrev RestKeeps : ℕ → Type 0
  RestKeeps rounds =
      (i size : ℕ) (removed : List ℕ) (r : Reactor) (w : Watch)
      → Serving listener r w
      → r.fd_count ≤ suc size
      → i < r.fd_count
      → length removed ≤ i
      → AllInside (length r.pfds) removed
      → fuel ≤ w.polls + (rounds + suc i)
      → Keeps fuel listener (Scanned w.polls) w (scan rounds (suc i) size removed r)

  scan_next :
      (rounds i size : ℕ) (removed : List ℕ) (r : Reactor) (w : Watch)
      → RestKeeps rounds
      → Serving listener r w
      → r.fd_count ≤ suc size
      → suc i < r.fd_count
      → length removed ≤ i
      → AllInside (length r.pfds) removed
      → fuel ≤ w.polls + (suc rounds + suc i)
      → (a : Reactor × List ℕ) (t : Watch) → Noted fuel listener real r w removed (suc i) a t
      → Keeps fuel listener (Scanned w.polls) t (scan rounds (suc i + 1) size a.1 a.0)
  scan_next rounds i size removed r w again h few below noted inside enough (r', removed') t
        (same_r, same_w, kept) =
      let next : suc i + 1 ≡ suc (suc i) = omega arith in
      rw (next, same_r, same_w)
        (elim kept [
          | inl e ↦
              rw e (again (suc i) size removed r w h few below (omega arith) inside (omega arith))
          | inr e ↦ rw e (
              again (suc i) size (removed ++ suc i ∷ []) r w h few below
                (omega (arith, length-append removed (suc i ∷ [])))
                (AllInside-append (length r.pfds) removed (suc i) inside (omega arith)
                  (omega (arith, h.within, h.allocated)))
                (omega arith))
        ])

  scan_rest : (rounds : ℕ) → RestKeeps rounds
  scan_rest zero i size removed r w h few below noted inside enough =
      rw (scan_out (suc i) size removed r) (omega (arith, h.few))
  scan_rest (suc rounds) i size removed r w h few below noted inside enough =
      elim (dec_lt (suc i) r.fd_count) [
        | no end ↦
            rw (scan_end rounds (suc i) size removed r (omega arith)) (h, inside, omega arith, refl)
        | yes more ↦
            let (entry, at_i) =
              get_elem?_of_lt r.pfds (suc i) (omega (arith, h.within, h.allocated)) in
            let (calm, other) =
              AllOthers-get listener h.rest (suc i - 1) entry h.others
                (sym (get_behind r.pfds h.first h.rest (suc i) h.entries (omega arith)) ∙ at_i) in
            rw (scan_open rounds (suc i) size removed r w h entry more at_i) (
              EnsuresIf-bind watch_step (IsQuiet listener)
                (Noted fuel listener real r w removed (suc i)) (Ends fuel) (Scanned w.polls) _
                (scan_next rounds i size removed r w (scan_rest rounds) h few more noted inside
                  enough)
                w (visit r (suc i) entry listener size removed)
                (visit_client-Keeps fuel listener real r w (suc i) entry size removed calm other
                  (omega arith)))
      ]

  -- The whole loop: only the visit of the listener adds an entry, and the listener is not noted.
  pub scan-Keeps :
      (rounds : ℕ) (r : Reactor) (w : Watch)
      → Serving listener r w
      → fuel ≤ w.polls + rounds
      → Keeps fuel listener (Scanned w.polls) w (scan rounds 0 r.fd_count [] r)
  scan-Keeps zero r w h enough = rw (scan_out 0 r.fd_count [] r) (omega arith)
  scan-Keeps (suc rounds) r w h enough =
      let at_0 : get_elem? r.pfds 0 ≡ some h.first = ap (λ l. get_elem? l 0) h.entries in
      let is : (h.first.fd == listener) ≡ true =
        ap (λ n. n == listener) h.is_listener ∙ simp ==_refl in
      rw (scan_open rounds 0 r.fd_count [] r w h h.first h.in_use at_0) (
        EnsuresIf-bind watch_step (IsQuiet listener) (Accepted fuel listener real r w [])
          (Ends fuel) (Scanned w.polls) _ (scan_clients rounds r w h enough) w
          (visit r 0 h.first listener r.fd_count [])
          (visit_listener-Keeps fuel listener real r w 0 h.first r.fd_count [] h h.calm is))
    where
      scan_clients :
          (rounds : ℕ) (r : Reactor) (w : Watch)
          → Serving listener r w
          → fuel ≤ w.polls + suc rounds
          → (a : Reactor × List ℕ) (t : Watch) → Accepted fuel listener real r w [] a t
          → Keeps fuel listener (Scanned w.polls) t (scan rounds (0 + 1) r.fd_count a.1 a.0)
      scan_clients rounds r w h enough (r', removed') t (grown, same) =
          let next : 0 + 1 ≡ 1 = omega arith in
          rw (next, same, sym grown.same_polls)
            (scan_rest rounds 0 r.fd_count [] r' t grown.serving grown.at_most
              (omega (arith, h.in_use, grown.at_least)) (omega arith) tt
              (omega (arith, grown.same_polls)))
