-- ===== src/Active/Arrival.antt =====
-- What the threads of task5_designPattren/activeobject.c have taken when they return.
use making_chat_on_c.Base.{
  ℕ, ◌+◌, ◌==◌, ◌<◌, ◌≤◌, ◌≡◌, Bool, true, false, List, [], ◌∷◌, ◌++◌, ap, refl, sym, ◌∙◌, arith,
}
use mathlib.Core.List.{append-nil}
use mathlib.Core.Path.{subst}
use making_chat_on_c.Active.{
  left, Object, Line, put, deliver, Step, submit, take, take_null, emit, pass, keep, leave,
  leave_last, Reach, here, later,
}
use making_chat_on_c.Active.Order.{taken_in_order}
use making_chat_on_c.Active.Progress.{has_null, gone, Ends, Reach-Ends}

-- The first `NULL` is the last task.
abbrev IsEnded : List ℕ → Type 0
IsEnded [] = Unit {0}
IsEnded (t ∷ []) = Unit {0}
IsEnded (t ∷ u ∷ ts) = ((t == 0) ≡ false) × IsEnded (u ∷ ts)

-- What has no `NULL` can be followed by any task.
IsEnded-append : (ts : List ℕ) (task : ℕ) → has_null ts ≡ false → IsEnded (ts ++ task ∷ [])
IsEnded-append [] task none_yet = tt
IsEnded-append (t ∷ []) task none_yet = (ground arith, tt)
IsEnded-append (t ∷ u ∷ ts) task none_yet =
    (ground arith, IsEnded-append (u ∷ ts) task (ground arith))

-- A part from the start with a `NULL` in it is all there is.
nothing_after : (xs ys : List ℕ) → IsEnded (xs ++ ys) → has_null xs ≡ true → ys ≡ []
nothing_after [] ys ended null = cc
nothing_after (x ∷ []) [] ended null = refl
nothing_after (x ∷ []) (y ∷ ys) ended null = absurd (ground arith)
nothing_after (x ∷ z ∷ xs) ys (real, ended) null = nothing_after (z ∷ xs) ys ended (ground arith)

module _ (s : Line) (i : ℕ) (o : Object) (tasks : List ℕ) where
  deliver-IsEnded :
      IsEnded o.taken
      → ((j : ℕ) → IsEnded (s.object j).taken)
      → (j : ℕ) → IsEnded ((deliver s i o tasks).object j).taken
  unfolding deliver put
  deliver-IsEnded ended_i h j = ground (arith, h j, ended_i)

module _ {n : ℕ} {forwards : ℕ → Bool} where
  Step-IsEnded :
      {s t : Line}
      → Step n forwards s t
      → ((j : ℕ) → Ends n s j)
      → ((j : ℕ) → IsEnded (s.object j).taken)
      → (j : ℕ) → IsEnded (t.object j).taken
  unfolding put
  Step-IsEnded {s} (submit task) ends h = λ j. ground (arith, h j)
  Step-IsEnded {s} (take i task rest below at queue real) ends h =
      deliver-IsEnded s i _ []
        (IsEnded-append (s.object i).taken task (ground (arith, (ends i).last))) h
  Step-IsEnded {s} (take_null i rest below at queue) ends h =
      deliver-IsEnded s i _ [] (IsEnded-append (s.object i).taken 0 (ground (arith, (ends i).last)))
        h
  Step-IsEnded {s} (emit i task new below at flag) ends h = deliver-IsEnded s i _ (new ∷ []) (h i) h
  Step-IsEnded {s} (pass i task below at flag) ends h = deliver-IsEnded s i _ (task ∷ []) (h i) h
  Step-IsEnded {s} (keep i task below at flag) ends h = deliver-IsEnded s i _ [] (h i) h
  Step-IsEnded {s} (leave i below at) ends h = deliver-IsEnded s i _ (0 ∷ []) (h i) h
  Step-IsEnded {s} (leave_last i below at) ends h = deliver-IsEnded s i _ [] (h i) h

  Reach-IsEnded : {s : Line} → Reach n forwards s → (j : ℕ) → IsEnded (s.object j).taken
  Reach-IsEnded here = λ j. tt
  Reach-IsEnded (later r step) = Step-IsEnded step (Reach-Ends r) (Reach-IsEnded r)

  -- When a thread down the line returns, it has taken exactly what an earlier object has taken,
  -- task by task and in the same order, if all from the earlier one on forward: nothing of it is
  -- still under way.
  pub all_taken :
      {s : Line} (k i : ℕ)
      → Reach n forwards s
      → k + i < n
      → ((j : ℕ) → i ≤ j → forwards j ≡ true)
      → (s.object (k + i)).place ≡ left
      → (s.object (k + i)).taken ≡ (s.object i).taken
  all_taken {s} k i r inside does returned =
      let (rest, e) = taken_in_order k i r inside does in
      let null = (Reach-Ends r (k + i)).last ∙ ap gone returned in
      let none_left =
        nothing_after (s.object (k + i)).taken rest (subst IsEnded (sym e) (Reach-IsEnded r i))
          null in
      sym (append-nil _) ∙ ap (λ l. (s.object (k + i)).taken ++ l) (sym none_left) ∙ e
