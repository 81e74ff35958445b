-- ===== src/Active/Order.antt =====
-- The order of the tasks in the line of active objects of task5_designPattren/activeobject.c.
use making_chat_on_c.Base.{
  ℕ, zero, suc, ◌+◌, ◌<◌, ◌≤◌, ◌≡◌, Bool, true, List, [], ◌∷◌, ◌++◌, ap, sym, refl, ◌∙◌, arith,
}
use mathlib.Core.List.{append-nil, append_assoc}
use making_chat_on_c.Active.{
  Place, waiting, busy, leaving, left, Object, Line, put, deliver, Step, submit, take, take_null,
  emit, pass, keep, leave, leave_last, Reach, here, later,
}

-- What is in an object's queue is what was sent to it and not yet taken.
abbrev pub Conserved : Line → ℕ → Type 0
Conserved s j = (s.object (suc j)).taken ++ (s.object (suc j)).queue ≡ (s.object j).sent

-- The task that an object has taken and will send.
abbrev pub in_hand : Place → List ℕ
in_hand waiting = []
in_hand (busy task) = task ∷ []
in_hand leaving = 0 ∷ []
in_hand left = []

-- An object that forwards has sent what it has taken, but for the task in hand.
abbrev Forwarded : ℕ → (ℕ → Bool) → Line → ℕ → Type 0
Forwarded n forwards s j =
    suc j < n
    → forwards j ≡ true
    → (s.object j).sent ++ in_hand (s.object j).place ≡ (s.object j).taken

module _ (s : Line) (i : ℕ) (o : Object) (tasks : List ℕ)
    (same : o.taken ++ o.queue ≡ (s.object i).taken ++ (s.object i).queue)
    (more : o.sent ≡ (s.object i).sent ++ tasks) where
  deliver-Conserved : ((j : ℕ) → Conserved s j) → (j : ℕ) → Conserved (deliver s i o tasks) j
  unfolding deliver put
  deliver-Conserved h j =
      ground (arith, h j, append_assoc (s.object (suc j)).taken (s.object (suc j)).queue tasks)

  deliver-Forwarded :
      (n : ℕ) (forwards : ℕ → Bool)
      → (suc i < n → forwards i ≡ true → o.sent ++ in_hand o.place ≡ o.taken)
      → ((j : ℕ) → Forwarded n forwards s j)
      → (j : ℕ) → Forwarded n forwards (deliver s i o tasks) j
  unfolding deliver put
  deliver-Forwarded n forwards at_i h j inside does = ground (arith, h j inside does, at_i)

  deliver-Submitted :
      (s.object 0).taken ++ (s.object 0).queue ≡ s.submitted
      → ((deliver s i o tasks).object 0).taken ++ ((deliver s i o tasks).object 0).queue
        ≡ s.submitted
  unfolding deliver put
  deliver-Submitted h = ground (arith, h)

-- One more task is taken out of the queue.
taken_out :
    (taken queue rest : List ℕ) (task : ℕ)
    → queue ≡ task ∷ rest
    → (taken ++ task ∷ []) ++ rest ≡ taken ++ queue
taken_out taken queue rest task e =
    append_assoc taken (task ∷ []) rest ∙ ap (λ q. taken ++ q) (sym e)

regroup : (ws xs ys zs : List ℕ) → ws ++ ((xs ++ ys) ++ zs) ≡ ((ws ++ xs) ++ ys) ++ zs
regroup ws xs ys zs = simp append_assoc

in_hand_of :
    (o : Object) {p : Place}
    → o.place ≡ p
    → o.sent ++ in_hand o.place ≡ o.taken
    → o.sent ++ in_hand p ≡ o.taken
in_hand_of o e h = ap (λ q. o.sent ++ in_hand q) (sym e) ∙ h

module _ {n : ℕ} {forwards : ℕ → Bool} where
  Step-Conserved :
      {s t : Line} → Step n forwards s t → ((j : ℕ) → Conserved s j) → (j : ℕ) → Conserved t j
  unfolding put
  Step-Conserved {s} (submit task) h = λ j. ground (arith, h j)
  Step-Conserved {s} (take i task rest below at queue real) h =
      deliver-Conserved s i _ [] (taken_out _ _ rest task queue) (sym (append-nil _)) h
  Step-Conserved {s} (take_null i rest below at queue) h =
      deliver-Conserved s i _ [] (taken_out _ _ rest 0 queue) (sym (append-nil _)) h
  Step-Conserved {s} (emit i task new below at does) h =
      deliver-Conserved s i _ (new ∷ []) refl refl h
  Step-Conserved {s} (pass i task below at does) h = deliver-Conserved s i _ (task ∷ []) refl refl h
  Step-Conserved {s} (keep i task below at does) h =
      deliver-Conserved s i _ [] refl (sym (append-nil _)) h
  Step-Conserved {s} (leave i below at) h = deliver-Conserved s i _ (0 ∷ []) refl refl h
  Step-Conserved {s} (leave_last i below at) h =
      deliver-Conserved s i _ [] refl (sym (append-nil _)) h

  Step-Forwarded :
      {s t : Line}
      → Step n forwards s t
      → ((j : ℕ) → Forwarded n forwards s j)
      → (j : ℕ) → Forwarded n forwards t j
  unfolding put
  Step-Forwarded {s} (submit task) h = λ j inside does. ground (arith, h j inside does)
  Step-Forwarded {s} (take i task rest below at queue real) h =
      deliver-Forwarded s i _ [] (taken_out _ _ rest task queue) (sym (append-nil _)) n forwards
        (λ inside does. ground (arith, h i inside does, append-nil (s.object i).sent)) h
  Step-Forwarded {s} (take_null i rest below at queue) h =
      deliver-Forwarded s i _ [] (taken_out _ _ rest 0 queue) (sym (append-nil _)) n forwards
        (λ inside does. ground (arith, h i inside does, append-nil (s.object i).sent)) h
  Step-Forwarded {s} (emit i task new below at flag) h =
      deliver-Forwarded s i _ (new ∷ []) refl refl n forwards (λ inside does. cc) h
  Step-Forwarded {s} (pass i task below at flag) h =
      deliver-Forwarded s i _ (task ∷ []) refl refl n forwards
        (λ inside does. append-nil _ ∙ in_hand_of (s.object i) at (h i inside does)) h
  Step-Forwarded {s} (keep i task below at last) h =
      deliver-Forwarded s i _ [] refl (sym (append-nil _)) n forwards
        (λ inside does. ground (arith, last, h i inside does)) h
  Step-Forwarded {s} (leave i below at) h =
      deliver-Forwarded s i _ (0 ∷ []) refl refl n forwards
        (λ inside does. append-nil _ ∙ in_hand_of (s.object i) at (h i inside does)) h
  Step-Forwarded {s} (leave_last i below at) h =
      deliver-Forwarded s i _ [] refl (sym (append-nil _)) n forwards
        (λ inside does. absurd (omega arith)) h

  Step-Submitted :
      {s t : Line}
      → Step n forwards s t
      → (s.object 0).taken ++ (s.object 0).queue ≡ s.submitted
      → (t.object 0).taken ++ (t.object 0).queue ≡ t.submitted
  unfolding put deliver
  Step-Submitted {s} (submit task) h =
      sym (append_assoc (s.object 0).taken (s.object 0).queue (task ∷ []))
      ∙ ap (λ l. l ++ task ∷ []) h
  Step-Submitted {s} (take i task rest below at queue real) h =
      deliver-Submitted s i _ [] (taken_out _ _ rest task queue) (sym (append-nil _)) h
  Step-Submitted {s} (take_null i rest below at queue) h =
      deliver-Submitted s i _ [] (taken_out _ _ rest 0 queue) (sym (append-nil _)) h
  Step-Submitted {s} (emit i task new below at does) h =
      deliver-Submitted s i _ (new ∷ []) refl refl h
  Step-Submitted {s} (pass i task below at does) h = deliver-Submitted s i _ (task ∷ []) refl refl h
  Step-Submitted {s} (keep i task below at does) h =
      deliver-Submitted s i _ [] refl (sym (append-nil _)) h
  Step-Submitted {s} (leave i below at) h = deliver-Submitted s i _ (0 ∷ []) refl refl h
  Step-Submitted {s} (leave_last i below at) h =
      deliver-Submitted s i _ [] refl (sym (append-nil _)) h

  pub Reach-Submitted :
      {s : Line} → Reach n forwards s → (s.object 0).taken ++ (s.object 0).queue ≡ s.submitted
  Reach-Submitted here = refl
  Reach-Submitted (later r step) = Step-Submitted step (Reach-Submitted r)

  pub Reach-Conserved : {s : Line} → Reach n forwards s → (j : ℕ) → Conserved s j
  Reach-Conserved here = λ j. refl
  Reach-Conserved (later r step) = Step-Conserved step (Reach-Conserved r)

  Reach-Forwarded : {s : Line} → Reach n forwards s → (j : ℕ) → Forwarded n forwards s j
  Reach-Forwarded here = λ j inside does. refl
  Reach-Forwarded (later r step) = Step-Forwarded step (Reach-Forwarded r)

  -- Between an object that forwards and the next no task is lost, doubled or overtaken: what the
  -- next has taken, what waits in its queue and what is in hand are what the object has taken, in
  -- this order, in every state that the threads can reach.
  pub taken-queue-in_hand :
      {s : Line} (i : ℕ)
      → Reach n forwards s
      → suc i < n
      → forwards i ≡ true
      → ((s.object (suc i)).taken ++ (s.object (suc i)).queue) ++ in_hand (s.object i).place
        ≡ (s.object i).taken
  taken-queue-in_hand {s} i r inside does =
      ap (λ l. l ++ in_hand (s.object i).place) (Reach-Conserved r i)
      ∙ Reach-Forwarded r i inside does

  -- However far down the line, an object has taken an initial segment of what an earlier one has
  -- taken, if all from the earlier one on forward.
  pub taken_in_order :
      {s : Line} (k i : ℕ)
      → Reach n forwards s
      → k + i < n
      → ((j : ℕ) → i ≤ j → forwards j ≡ true)
      → (rest : List ℕ) × ((s.object (k + i)).taken ++ rest ≡ (s.object i).taken)
  taken_in_order {s} zero i r inside does =
      let e : 0 + i ≡ i = omega arith in ([], rw e (append-nil _))
  taken_in_order {s} (suc k) i r inside does =
      let (rest, before) = taken_in_order k i r (omega arith) does in
      let e : suc k + i ≡ suc (k + i) = omega arith in
      let link = taken-queue-in_hand (k + i) r (omega arith) (does (k + i) (omega arith)) in
      let next = s.object (suc (k + i)) in
      let hand = in_hand (s.object (k + i)).place in
      (
        (next.queue ++ hand) ++ rest,
        rw e (regroup next.taken next.queue hand rest ∙ ap (λ l. l ++ rest) link ∙ before),
      )
