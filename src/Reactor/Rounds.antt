-- ===== src/Reactor/Rounds.antt =====
-- A round of the loop of task4_DesignPattern_Reactor/react_server.c over the entries, while no
-- connection hangs up.
use making_chat_on_c.Base.{
  ℕ, ◌==◌, ◌<◌, ◌≡◌, ◌⊎◌, inl, inr, refl, Bool, true, false, not, ◌&&◌, List, [], ◌∷◌, ◌++◌, Option,
  none, some, length, ltb, if◌then◌else◌, take, arith, bit_and, Bool-cases,
}
use making_chat_on_c.Os.{Prog, ret, ◌>>=◌, ◌>>◌, sys, perror, print, recv, would_block, die}
use making_chat_on_c.Os.Assume.{EnsuresIf-bind}
use making_chat_on_c.Reactor.{Reactor, PollFd}
use making_chat_on_c.Reactor.Loop.{
  fits_buffers, client_message, padded, broadcast, read_client, accept_client, note_removal,
  hang_up, visit,
}
use making_chat_on_c.Reactor.Calm.{IsCalm}
use making_chat_on_c.Reactor.Serving.{Watch, watch_step, IsQuiet, Serving, Ends, Keeps}
use making_chat_on_c.Reactor.Accepting.{Grown, accept_client-Keeps}

module _ (fuel listener : ℕ) (real : (0 == listener) ≡ false) where
  abbrev Unchanged : {A : Type 0} → Watch → A → Watch → Type 0
  Unchanged w a t = t ≡ w

  sent-Keeps :
      (w : Watch) (fd : ℕ) (msg : List ℕ) (sent : Option ℕ)
      → Keeps fuel listener {A = Unit {0}} (Unchanged w) w (elim sent [
        | none ↦ do
          blocked ← sys would_block
          elim blocked [ true ↦ ret (tt {0}) | false ↦ die "send" ]
        | some n ↦ ret tt
      ])
  sent-Keeps w fd msg (some n) = refl
  sent-Keeps w fd msg none = after_test
    where
      after_test :
          (blocked : Bool)
          → Unit {0}
          → Unit {0}
          → Keeps fuel listener {A = Unit {0}}
              (Unchanged w)
              w
              (elim blocked [ true ↦ ret (tt {0}) | false ↦ die "send" ])
      after_test true legal quiet = refl
      after_test false legal quiet = λ done legal quiet. refl

  broadcast-Keeps :
      (entries : List PollFd) (sender : ℕ) (msg : List ℕ) (w : Watch)
      → Keeps fuel listener (Unchanged w) w (broadcast entries listener sender msg)
  unfolding broadcast
  broadcast-Keeps [] sender msg w = refl
  broadcast-Keeps (e ∷ entries) sender msg w =
      elim (Bool-cases (not (e.fd == listener) && not (e.fd == sender))) [
        | inl p ↦ rw p λ sent legal quiet.
            EnsuresIf-bind watch_step (IsQuiet listener) (Unchanged w) (Ends fuel) (Unchanged w) _
              (λ u t same. rw same (broadcast-Keeps entries sender msg w)) w _
              (sent-Keeps w e.fd msg sent)
        | inr p ↦ rw p (broadcast-Keeps entries sender msg w)
      ]

  received-Keeps :
      (r : Reactor) (fd : ℕ) (w : Watch) (got : Option (List ℕ))
      → IsQuiet listener w (recv fd 256) got
      → Keeps fuel listener {A = Bool} (Unchanged w) w (elim got [
        | none ↦ do sys (perror "recv"); ret true
        | some [] ↦ do sys (print "socket hung up" []); ret true
        | some (b ∷ bs) ↦
            if fits_buffers fd (b ∷ bs)
            then (do
              sys (print "Client socket" (b ∷ bs))
              broadcast
                  (take r.fd_count r.pfds)
                  listener
                  fd
                  (padded 256 (client_message fd (b ∷ bs)))
              ret false)
            else Prog.fault
      ])
  received-Keeps r fd w none quiet = λ done legal quiet. refl
  received-Keeps r fd w (some []) quiet = λ done legal quiet. refl
  received-Keeps r fd w (some (b ∷ bs)) quiet = rw quiet λ done legal quiet.
      EnsuresIf-bind watch_step (IsQuiet listener) (Unchanged w) (Ends fuel) (Unchanged w) _
        (λ u t same. same) w (broadcast (take r.fd_count r.pfds) listener fd _)
        (broadcast-Keeps (take r.fd_count r.pfds) fd _ w)

  read_client-Keeps :
      (r : Reactor) (fd : ℕ) (w : Watch)
      → Keeps fuel listener (Unchanged w) w (read_client r listener fd)
  unfolding read_client
  read_client-Keeps r fd w = λ got legal quiet. received-Keeps r fd w got quiet

  hang_up_calm :
      (r : Reactor) (i : ℕ) (entry : PollFd) (size : ℕ) (removed : List ℕ)
      → IsCalm entry.revents
      → hang_up r i entry size removed ≡ ret (r, removed)
  unfolding hang_up
  hang_up_calm r i entry size removed calm = rw calm refl

  note-Keeps :
      (P : Reactor × List ℕ → Watch → Type 0) (r : Reactor) (w : Watch) (size : ℕ)
      (removed : List ℕ) (i : ℕ)
      → length removed < size
      → P (r, removed ++ i ∷ []) w
      → Keeps fuel listener P w (do noted ← note_removal size removed i; ret (r, noted))
  unfolding note_removal
  note-Keeps P r w size removed i room h =
      let fits : ltb (length removed) size ≡ true = ground arith in rw fits h

  -- The visit of the listener.
  abbrev pub Accepted : Reactor → Watch → List ℕ → Reactor × List ℕ → Watch → Type 0
  Accepted r w removed (r', removed') t = Grown fuel listener real r w r' t × (removed' ≡ removed)

  unchanged : (r : Reactor) (w : Watch) → Serving listener r w → Grown fuel listener real r w r w
  unchanged r w h = record {
    serving = h;
    at_least = omega arith;
    at_most = omega arith;
    same_polls = refl;
    same_size = omega arith;
  }

  pub visit_listener-Keeps :
      (r : Reactor) (w : Watch) (i : ℕ) (entry : PollFd) (size : ℕ) (removed : List ℕ)
      → Serving listener r w
      → IsCalm entry.revents
      → (entry.fd == listener) ≡ true
      → Keeps fuel listener (Accepted r w removed) w (visit r i entry listener size removed)
  unfolding visit
  visit_listener-Keeps r w i entry size removed h calm is = elim (Bool-cases (entry.revents == 0)) [
    | inl p ↦ rw p (unchanged r w h, refl)
    | inr p ↦ elim (Bool-cases (bit_and entry.revents 1 == 0)) [
      | inl q ↦ rw (p, q, hang_up_calm r i entry size removed calm) (unchanged r w h, refl)
      | inr q ↦
          rw (p, q, is)
            (EnsuresIf-bind watch_step (IsQuiet listener) (Grown fuel listener real r w) (Ends fuel)
              (Accepted r w removed) _
              (λ r' t grown. rw (hang_up_calm r' i entry size removed calm) (grown, refl)) w
              (accept_client r listener) (accept_client-Keeps fuel listener real r w h))
    ]
  ]

  -- The visit of a client.
  abbrev pub Noted : Reactor → Watch → List ℕ → ℕ → Reactor × List ℕ → Watch → Type 0
  Noted r w removed i (r', removed') t =
      (r' ≡ r) × (t ≡ w) × ((removed' ≡ removed) ⊎ (removed' ≡ removed ++ i ∷ []))

  after_read :
      (r : Reactor) (w : Watch) (i : ℕ) (entry : PollFd) (size : ℕ) (removed : List ℕ)
      → IsCalm entry.revents
      → length removed < size
      → (gone : Bool) (t : Watch) → t ≡ w
      → Keeps fuel listener {A = Reactor × List ℕ} (Noted r w removed i) t (elim gone [
        | true ↦ do noted ← note_removal size removed i; ret (r, noted)
        | false ↦ hang_up r i entry size removed
      ])
  after_read r w i entry size removed calm room true t same =
      note-Keeps (Noted r w removed i) r t size removed i room (refl, same, inr refl)
  after_read r w i entry size removed calm room false t same =
      rw (hang_up_calm r i entry size removed calm) (refl, same, inl refl)

  pub visit_client-Keeps :
      (r : Reactor) (w : Watch) (i : ℕ) (entry : PollFd) (size : ℕ) (removed : List ℕ)
      → IsCalm entry.revents
      → (entry.fd == listener) ≡ false
      → length removed < size
      → Keeps fuel listener (Noted r w removed i) w (visit r i entry listener size removed)
  unfolding visit
  visit_client-Keeps r w i entry size removed calm other room =
      elim (Bool-cases (entry.revents == 0)) [
        | inl p ↦ rw p (refl, refl, inl refl)
        | inr p ↦ elim (Bool-cases (bit_and entry.revents 1 == 0)) [
          | inl q ↦ rw (p, q, hang_up_calm r i entry size removed calm) (refl, refl, inl refl)
          | inr q ↦
              rw (p, q, other)
                (EnsuresIf-bind watch_step (IsQuiet listener) (Unchanged w) (Ends fuel)
                  (Noted r w removed i) _ (after_read r w i entry size removed calm room) w
                  (read_client r listener entry.fd) (read_client-Keeps r entry.fd w))
        ]
      ]
