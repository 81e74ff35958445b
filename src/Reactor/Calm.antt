-- ===== src/Reactor/Calm.antt =====
-- The poll entries of task4_DesignPattern_Reactor/react_server.c while no connection hangs up.
use making_chat_on_c.Base.{
  ℕ, zero, suc, ◌==◌, ◌≡◌, ap, refl, false, List, [], ◌∷◌, ◌++◌, some, length, get_elem?, set, map,
  arith, bit_and,
}
use making_chat_on_c.Os.{ret}
use making_chat_on_c.Reactor.{PollFd, Event, stale_entries, find_event}
use making_chat_on_c.Reactor.Loop.{put_revents}

-- Neither `POLLERR` nor `POLLHUP` nor `POLLNVAL`.
abbrev pub IsCalm : ℕ → Type 0
IsCalm revents = bit_and revents 56 ≡ 0

abbrev pub AllCalm : List ℕ → Type 0
AllCalm [] = Unit {0}
AllCalm (v ∷ vs) = IsCalm v × AllCalm vs

-- The entries behind that of the listener.
abbrev pub AllOthers : ℕ → List PollFd → Type 0
AllOthers listener [] = Unit {0}
AllOthers listener (e ∷ es) =
    IsCalm e.revents × ((e.fd == listener) ≡ false) × AllOthers listener es

-- A descriptor that was not answered before.
abbrev pub IsFresh : ℕ → List ℕ → Type 0
IsFresh fd [] = Unit {0}
IsFresh fd (id ∷ ids) = ((id == fd) ≡ false) × IsFresh fd ids

module _ (listener : ℕ) where
  pub AllOthers-append :
      (es fs : List PollFd)
      → AllOthers listener es
      → AllOthers listener fs
      → AllOthers listener (es ++ fs)
  AllOthers-append [] fs h g = g
  AllOthers-append (e ∷ es) fs (calm, other, h) g = (calm, other, AllOthers-append es fs h g)

  pub AllOthers-get :
      (es : List PollFd) (i : ℕ) (e : PollFd)
      → AllOthers listener es
      → get_elem? es i ≡ some e
      → IsCalm e.revents × ((e.fd == listener) ≡ false)
  AllOthers-get [] i e h at = absurd (ground arith)
  AllOthers-get (d ∷ es) zero e (calm, other, h) at = ground arith
  AllOthers-get (d ∷ es) (suc i) e (calm, other, h) at = AllOthers-get es i e h at

  pub AllOthers-set :
      (es : List PollFd) (i : ℕ) (v : PollFd)
      → IsCalm v.revents
      → (v.fd == listener) ≡ false
      → AllOthers listener es
      → AllOthers listener (set es i v)
  AllOthers-set [] i v c o h = h
  AllOthers-set (d ∷ es) zero v c o (calm, other, h) = (c, o, h)
  AllOthers-set (d ∷ es) (suc i) v c o (calm, other, h) = (calm, other, AllOthers-set es i v c o h)

  -- The memory behind a grown array.
  pub stale_entries-AllOthers :
      (n : ℕ) (memory : List ℕ)
      → (0 == listener) ≡ false
      → AllCalm memory
      → AllOthers listener (stale_entries n memory)
  unfolding stale_entries
  stale_entries-AllOthers zero memory real calm = tt
  stale_entries-AllOthers (suc n) [] real calm = (refl, real, stale_entries-AllOthers n [] real tt)
  stale_entries-AllOthers (suc n) (m ∷ memory) real (first, calm) =
      (first, real, stale_entries-AllOthers n memory real calm)

  pub put_revents-AllOthers :
      (es : List PollFd) (n : ℕ) (revents : List ℕ)
      → AllCalm revents
      → AllOthers listener es
      → AllOthers listener (put_revents es n revents)
  unfolding put_revents
  put_revents-AllOthers es zero revents calm h = h
  put_revents-AllOthers [] (suc n) revents calm h = tt
  put_revents-AllOthers (e ∷ es) (suc n) [] calm (c, o, h) =
      (refl, o, put_revents-AllOthers es n [] tt h)
  put_revents-AllOthers (e ∷ es) (suc n) (v ∷ revents) (first, calm) (c, o, h) =
      (first, o, put_revents-AllOthers es n revents calm h)

pub length-put_revents :
    (es : List PollFd) (n : ℕ) (revents : List ℕ) → length (put_revents es n revents) ≡ length es
unfolding put_revents
length-put_revents es zero revents = refl
length-put_revents [] (suc n) revents = refl
length-put_revents (e ∷ es) (suc n) [] = ap suc (length-put_revents es n [])
length-put_revents (e ∷ es) (suc n) (v ∷ revents) = ap suc (length-put_revents es n revents)

-- `handleEvent` of a descriptor that was never registered does nothing.
pub find_event_fresh :
    (events : List Event) (fd : ℕ)
    → IsFresh fd (map (λ (e : Event). e.id) events)
    → find_event (length events) events fd ≡ ret tt
unfolding find_event
find_event_fresh [] fd fresh = refl
find_event_fresh (e ∷ events) fd (other, fresh) = rw other (find_event_fresh events fd fresh)
