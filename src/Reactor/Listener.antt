-- ===== src/Reactor/Listener.antt =====
-- `get_listener_socket` of task4_DesignPattern_Reactor/react_server.c.
use making_chat_on_c.Base.{
  ℕ, ◌≡◌, ◌⊎◌, inl, inr, refl, ap, true, false, List, [], ◌∷◌, Option, none, some, ==_refl,
}
use making_chat_on_c.Os.{
  Prog, ret, exit, ◌>>=◌, ◌>>◌, sys, Domain, Kind, any_host, literal, socket, setsockopt, bind,
  listen, close, print, getaddrinfo, freeaddrinfo,
}
use making_chat_on_c.Os.Guarantee.{Ensures, Checks, Ensures-of_Checks, Checks-bind}
use making_chat_on_c.Os.Ledger.{
  Ledger, ledger_step, OnlyExitsWithOne, descriptor, drop_handle, addresses,
}

-- The loop over the addresses; `none` is one that reaches the end of the list.
unfoldable pub bind_first : List Domain → Prog (Option ℕ)
bind_first [] = ret none
bind_first (family ∷ families) =
    let rest = bind_first families in
    do
      opened ← sys (socket family Kind.stream)
      elim opened [
        | none ↦ rest
        | some listener ↦ do
          sys (setsockopt listener)
          bound ← sys (bind listener (any_host (literal 9035)))
          elim bound [ true ↦ ret (some listener) | false ↦ do sys (close listener); rest ]
      ]

-- From `freeaddrinfo` on.
unfoldable pub listen_bound : Option ℕ → Prog (Option ℕ)
listen_bound bound = do
  sys freeaddrinfo
  elim bound [
    | none ↦ ret none
    | some listener ↦ do
      listening ← sys (listen listener 10)
      elim listening [ true ↦ ret (some listener) | false ↦ ret none ]
  ]

-- `none` is -1.
unfoldable pub get_listener_socket : Prog (Option ℕ)
unfolding listen_bound
get_listener_socket = do
  found ← sys (getaddrinfo "9035")
  elim found [
    | none ↦ do sys (print "selectserver: " []); exit 1
    | some families ↦ do bound ← bind_first families; listen_bound bound
  ]

-- Exactly the socket that is returned has been opened.
abbrev OpensReturned : Ledger → Option ℕ → Ledger → Type 0
OpensReturned s none t = t.held ≡ s.held
OpensReturned s (some listener) t = t.held ≡ descriptor listener ∷ s.held

-- The same, but that with -1 one more socket may be open.
abbrev pub OpensAtMostOne : Ledger → Option ℕ → Ledger → Type 0
OpensAtMostOne s none t =
    (t.held ≡ s.held) ⊎ ((listener : ℕ) × (t.held ≡ descriptor listener ∷ s.held))
OpensAtMostOne s (some listener) t = t.held ≡ descriptor listener ∷ s.held

closed :
    (fd : ℕ) (t s : Ledger)
    → t.held ≡ s.held
    → drop_handle (descriptor fd) (descriptor fd ∷ t.held) ≡ s.held
closed fd t s e = simp (==_refl, e)

bind_first-Checks :
    (s : Ledger) (families : List Domain) (t : Ledger)
    → t.held ≡ s.held
    → Checks ledger_step (OpensReturned s) OnlyExitsWithOne t (bind_first families)
unfolding bind_first
bind_first-Checks s [] t e = e
bind_first-Checks s (family ∷ families) t e = (
  bind_first-Checks s families t e,
  λ fd.
      let taken = ap (λ held. descriptor fd ∷ held) e in
      let released = bind_first-Checks s families _ (closed fd t s e) in
      ((taken, released), (taken, released)),
)

abbrev with_addresses : Ledger → Ledger
with_addresses s = record s { held = addresses ∷ s.held }

after_bind :
    (s : Ledger) (bound : Option ℕ) (t : Ledger)
    → OpensReturned (with_addresses s) bound t
    → Checks ledger_step (OpensAtMostOne s) OnlyExitsWithOne t (listen_bound bound)
unfolding listen_bound
after_bind s none t e = inl (ap (drop_handle addresses) e)
after_bind s (some listener) t e =
    let freed = ap (drop_handle addresses) e in (freed, inr (listener, freed))

-- The function meets no fault, ends for every list of addresses, and exits only with 1. If it
-- returns a socket, that one and no other is open in addition, so that every socket that could not
-- be bound is closed; the addresses are freed. If it returns -1, at most one more socket is open.
pub get_listener_socket_opens_one :
    (s : Ledger) → Ensures ledger_step (OpensAtMostOne s) OnlyExitsWithOne s get_listener_socket
unfolding get_listener_socket
get_listener_socket_opens_one s =
    Ensures-of_Checks ledger_step (OpensAtMostOne s) OnlyExitsWithOne s get_listener_socket (
      refl,
      λ families.
          Checks-bind ledger_step (OpensReturned (with_addresses s)) OnlyExitsWithOne
            (OpensAtMostOne s) _ (after_bind s) (with_addresses s) (bind_first families)
            (bind_first-Checks (with_addresses s) families (with_addresses s) refl),
    )
