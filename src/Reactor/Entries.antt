-- ===== src/Reactor/Entries.antt =====
-- The array of poll entries of task4_DesignPattern_Reactor/react_server.c under `addFd` and
-- `del_from_pfds`.
use making_chat_on_c.Base.{
  ℕ, zero, suc, ◌+◌, ◌==◌, ◌<◌, ◌≤◌, ◌≡◌, ◌∙◌, ap, sym, refl, false, List, [], ◌∷◌, some, length,
  get_elem?, set, if◌then◌else◌, take, arith, take-set, get_elem?-take, set-take_ge, length-set,
  lt-length, get_elem?_of_lt, get_elem?-set_ne, get_elem?-set_gt, get_elem?-set_self,
}
use native.Mathlib.Decide.{dec_lt}
use making_chat_on_c.Reactor.{Reactor, PollFd, remove_entry, del_from_pfds, stop_reactor}
use making_chat_on_c.Reactor.Loop.{remove_all}

-- The entries in use.
abbrev pub used : Reactor → List PollFd
used r = take r.fd_count r.pfds

pub record IsReactor (r : Reactor) : Type 0 where
  pub allocated : length r.pfds ≡ r.fd_size
  pub within : r.fd_count ≤ r.fd_size
  pub room : 0 < r.fd_size

abbrev pub hit : ℕ → PollFd → ℕ
hit x e = if x == e.fd then 1 else 0

-- How many of the entries are for the descriptor.
abbrev pub tally : ℕ → List PollFd → ℕ
tally x [] = 0
tally x (e ∷ es) = hit x e + tally x es

tally-set :
    (x : ℕ) (es : List PollFd) (i : ℕ) (e last : PollFd)
    → get_elem? es i ≡ some e
    → tally x (set es i last) + hit x e ≡ tally x es + hit x last
tally-set x [] i e last h = absurd (ground arith)
tally-set x (d ∷ es) zero e last h = ground arith
tally-set x (d ∷ es) (suc i) e last h = omega (arith, tally-set x es i e last h)

pub tally-take_last :
    (x : ℕ) (es : List PollFd) (n : ℕ) (last : PollFd)
    → get_elem? es n ≡ some last
    → tally x (take (suc n) es) ≡ tally x (take n es) + hit x last
tally-take_last x [] n last h = absurd (ground arith)
tally-take_last x (d ∷ es) zero last h = ground arith
tally-take_last x (d ∷ es) (suc n) last h = omega (arith, tally-take_last x es n last h)

-- The last entry moves to the place of the removed one.
module _ (x : ℕ) (es : List PollFd) (n i : ℕ) (e last : PollFd)
    (at_n : get_elem? es n ≡ some last) where
  tally_inside :
      i < n
      → get_elem? es i ≡ some e
      → tally x (take n (set es i last)) + hit x e ≡ tally x (take (suc n) es)
  tally_inside below at_i = rw (take-set es n i last) (
      tally-set x (take n es) i e last (get_elem?-take es n i below ∙ at_i)
      ∙ sym (tally-take_last x es n last at_n))

  tally_outside : n ≤ i → tally x (take n (set es i last)) + hit x last ≡ tally x (take (suc n) es)
  tally_outside above =
      rw (take-set es n i last, set-take_ge es n i last above)
        (sym (tally-take_last x es n last at_n))

-- `del_from_pfds` with both indices inside the array.
pub del_from_pfds-some :
    (r : Reactor) (n i : ℕ) (e last : PollFd)
    → r.fd_count ≡ suc n
    → get_elem? r.pfds n ≡ some last
    → get_elem? r.pfds i ≡ some e
    → del_from_pfds r i
      ≡ some (record r {
        pfds = set r.pfds i last;
        fd_count = n;
        running = (if n == 1 then false else r.running);
      })
unfolding del_from_pfds remove_entry stop_reactor
del_from_pfds-some r n i e last count at_n at_i =
    let inside = lt-length r.pfds i e at_i in ground arith

same_entry :
    (es : List PollFd) (i n : ℕ) (e last : PollFd)
    → get_elem? es i ≡ some e
    → get_elem? es n ≡ some last
    → i ≡ n
    → e ≡ last
same_entry es i n e last at_i at_n same = cc

-- `del_from_pfds` of an index in use takes out that entry and no other: the count falls by one,
-- the array stays well-formed, every descriptor is in use as often as before but for the entry's
-- own, and the reactor is stopped if one entry is left and runs on as before if not.
pub del_from_pfds-tally :
    (r : Reactor) (n i : ℕ) (e : PollFd)
    → IsReactor r
    → r.fd_count ≡ suc n
    → i < r.fd_count
    → get_elem? r.pfds i ≡ some e
    → (r' : Reactor) × (del_from_pfds r i ≡ some r')
      × (r'.fd_count ≡ n)
      × IsReactor r'
      × (r'.running ≡ (if n == 1 then false else r.running))
      × ((x : ℕ) → tally x (used r') + hit x e ≡ tally x (used r))
del_from_pfds-tally r n i e is count below at_i =
    let (last, at_n) = get_elem?_of_lt r.pfds n (omega (arith, is.allocated, is.within)) in
    (
      record r {
        pfds = set r.pfds i last;
        fd_count = n;
        running = (if n == 1 then false else r.running);
      },
      del_from_pfds-some r n i e last count at_n at_i,
      refl,
      record {
        allocated = length-set r.pfds i last ∙ is.allocated;
        within = omega (arith, is.within);
        room = is.room;
      },
      refl,
      λ x. one x last at_n,
    )
  where
    one :
        (x : ℕ) (last : PollFd)
        → get_elem? r.pfds n ≡ some last
        → tally x (take n (set r.pfds i last)) + hit x e ≡ tally x (used r)
    one x last at_n = rw count (elim (dec_lt i n) [
      | yes p ↦ tally_inside x r.pfds n i e last at_n p at_i
      | no p ↦ omega (
        arith,
        ap (hit x) (same_entry r.pfds i n e last at_i at_n (omega arith)),
        tally_outside x r.pfds n i e last at_n (omega arith),
      )
    ])

moved :
    (es : List PollFd) (n i : ℕ) (last live : PollFd)
    → i < n
    → i < length es
    → get_elem? (take n (set (set es i last) (suc n) live)) i ≡ some last
moved es n i last live below inside =
    get_elem?-take _ n i below
    ∙ get_elem?-set_gt (set es i last) (suc n) i live (omega arith)
    ∙ get_elem?-set_self es i last inside

-- What `startReactor` does when it removes two connections of which the second noted is the last
-- entry: the first removal moves that dead entry to the place `i`, where it stays in use, and the
-- second takes out the live entry before it.
pub remove_all_keeps_last :
    (r : Reactor) (n i : ℕ) (e live last : PollFd)
    → r.fd_count ≡ suc (suc n)
    → i < n
    → get_elem? r.pfds i ≡ some e
    → get_elem? r.pfds n ≡ some live
    → get_elem? r.pfds (suc n) ≡ some last
    → (r' : Reactor) × (remove_all (i ∷ suc n ∷ []) r ≡ some r')
      × (r'.fd_count ≡ n)
      × (get_elem? (used r') i ≡ some last)
      × ((x : ℕ) → tally x (used r') + hit x e + hit x live ≡ tally x (used r))
unfolding remove_all
remove_all_keeps_last r n i e live last count below at_i at_n at_last =
    let pfds1 = set r.pfds i last in
    let r1 = record r {
      pfds = pfds1;
      fd_count = suc n;
      running = (if suc n == 1 then false else r.running);
    } in
    let live_at = get_elem?-set_ne r.pfds i n last below ∙ at_n in
    let last_at = get_elem?-set_ne r.pfds i (suc n) last (omega arith) ∙ at_last in
    let first = del_from_pfds-some r (suc n) i e last count at_last at_i in
    let second = del_from_pfds-some r1 n (suc n) last live refl live_at last_at in
    (
      record r1 {
        pfds = set pfds1 (suc n) live;
        fd_count = n;
        running = (if n == 1 then false else r1.running);
      },
      rw (first, second, remove_all) refl,
      refl,
      moved r.pfds n i last live below (lt-length r.pfds i e at_i),
      λ x. omega (
        arith,
        tally_inside x r.pfds (suc n) i e last at_last (omega arith) at_i,
        tally_outside x pfds1 n (suc n) last live live_at (omega arith),
        ap (λ k. tally x (take k r.pfds)) count,
      ),
    )
