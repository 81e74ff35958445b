-- ===== src/Reactor/Broadcast.antt =====
-- The messages that task4_DesignPattern_Reactor/react_server.c passes on: to whom, and which fit
-- into its buffers.
use making_chat_on_c.Base.{
  ℕ, ◌==◌, ◌≡◌, ◌∙◌, sym, refl, List, [], ◌∷◌, ◌++◌, if◌then◌else◌, Bool-cases, inl, inr,
}
use mathlib.Core.List.{append-nil, append_assoc}
use making_chat_on_c.Os.{Call, Answer, send}
use making_chat_on_c.Os.Guarantee.{Ensures, Checks, Ensures-of_Checks}
use making_chat_on_c.Os.Ledger.{OnlyExitsWithOne}
use making_chat_on_c.Reactor.{PollFd}
use making_chat_on_c.Reactor.Loop.{broadcast}

-- The sends of a run that were tried, oldest first.
abbrev pub send_step : (c : Call) → Answer c → List (ℕ × List ℕ) → List (ℕ × List ℕ)
send_step (send fd bytes) r sends = sends ++ (fd, bytes) ∷ []
send_step c r sends = sends

-- One send of `msg` for every entry that is neither the listener's nor the sender's.
abbrev pub to_others : List PollFd → ℕ → ℕ → List ℕ → List (ℕ × List ℕ)
to_others [] listener sender msg = []
to_others (e ∷ entries) listener sender msg =
    if (e.fd == listener)
    then to_others entries listener sender msg
    else if (e.fd == sender)
    then to_others entries listener sender msg
    else (e.fd, msg) ∷ to_others entries listener sender msg

regroup :
    {all : List (ℕ × List ℕ)} (xs : List (ℕ × List ℕ)) (x : ℕ × List ℕ) (ys : List (ℕ × List ℕ))
    → all ≡ xs ++ x ∷ ys
    → all ≡ (xs ++ x ∷ []) ++ ys
regroup xs x ys h = h ∙ sym (append_assoc xs (x ∷ []) ys)

broadcast-Checks :
    (listener sender : ℕ) (msg : List ℕ) (all : List (ℕ × List ℕ)) (entries : List PollFd)
    (sends : List (ℕ × List ℕ))
    → all ≡ sends ++ to_others entries listener sender msg
    → Checks send_step
        (λ u t. t ≡ all)
        OnlyExitsWithOne
        sends
        (broadcast entries listener sender msg)
unfolding broadcast
broadcast-Checks listener sender msg all [] sends h = sym (h ∙ append-nil sends)
broadcast-Checks listener sender msg all (e ∷ entries) sends h =
    elim (Bool-cases (e.fd == listener)) [
      | inl p ↦ rw p (broadcast-Checks listener sender msg all entries sends (h ∙ rw p refl))
      | inr p ↦ elim (Bool-cases (e.fd == sender)) [
        | inl q ↦
            rw (p, q) (broadcast-Checks listener sender msg all entries sends (h ∙ rw (p, q) refl))
        | inr q ↦
            let again =
              broadcast-Checks listener sender msg all entries (sends ++ (e.fd, msg) ∷ []) (
                regroup sends (e.fd, msg) (to_others entries listener sender msg)
                  (h ∙ rw (p, q) refl)) in
            rw (p, q) ((again, refl), λ n le least. again)
      ]
    ]

-- The message goes out once for every entry given, in order, but those of the listener and of the
-- sender: a run of `broadcast` that returns has tried exactly these sends, whatever each of them
-- answered, it meets no fault, and a run that ends early exits with 1.
pub broadcast-to_others :
    (entries : List PollFd) (listener sender : ℕ) (msg : List ℕ)
    → Ensures send_step
        (λ u t. t ≡ to_others entries listener sender msg)
        OnlyExitsWithOne
        []
        (broadcast entries listener sender msg)
broadcast-to_others entries listener sender msg =
    Ensures-of_Checks send_step (λ u t. t ≡ to_others entries listener sender msg) OnlyExitsWithOne
      [] (broadcast entries listener sender msg)
      (broadcast-Checks listener sender msg _ entries [] refl)
