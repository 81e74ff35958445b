-- ===== src/Active/Progress.antt =====
-- When the threads of task5_designPattren/activeobject.c can take a step.
use making_chat_on_c.Base.{
  ℕ, zero, suc, ◌==◌, ◌<◌, ◌≡◌, ◌≢◌, inl, inr, Bool, true, false, List, [], ◌∷◌, ◌++◌,
  if◌then◌else◌, ap, refl, ◌∙◌, arith, Bool-cases, ◌||◌, some,
}
use mathlib.Core.List.{append-nil}
use native.Mathlib.Decide.{dec_lt}
use making_chat_on_c.Active.{
  Place, waiting, busy, leaving, left, Object, Line, put, deliver, Step, runner, submit, take,
  take_null, emit, pass, keep, leave, leave_last, Reach, here, later,
}
use making_chat_on_c.Active.Order.{Reach-Conserved, Reach-Submitted}

abbrev pub has_null : List ℕ → Bool
has_null [] = false
has_null (t ∷ ts) = if t == 0 then true else has_null ts

pub has_null-append : (xs ys : List ℕ) → has_null (xs ++ ys) ≡ (has_null xs || has_null ys)
has_null-append [] ys = refl
has_null-append (x ∷ xs) ys = ground (arith, has_null-append xs ys)

-- The thread has taken its `NULL`.
abbrev pub gone : Place → Bool
gone waiting = false
gone (busy task) = false
gone leaving = true
gone left = true

abbrev is_left : Place → Bool
is_left waiting = false
is_left (busy task) = false
is_left leaving = false
is_left left = true

starved :
    (o : Object)
    → o.place ≡ waiting
    → o.queue ≡ []
    → has_null o.taken ≡ gone o.place
    → has_null (o.taken ++ o.queue) ≢ true
starved o at empty last some_null = ground (arith, append-nil o.taken)

pub eq_of_test : (a b : ℕ) → (a == b) ≡ true → a ≡ b
eq_of_test a b h = ground arith

ne_of_test : (a b : ℕ) → (a == b) ≡ false → a ≢ b
ne_of_test a b h e = ground arith

-- `NULL` is the last task that a thread takes, and a thread that has returned has sent it on.
pub record Ends (n : ℕ) (s : Line) (j : ℕ) : Type 0 where
  pub last : has_null (s.object j).taken ≡ gone (s.object j).place
  pub told : suc j < n → is_left (s.object j).place ≡ true → has_null (s.object j).sent ≡ true

module _ (n : ℕ) (s : Line) (i : ℕ) (o : Object) (tasks : List ℕ) where
  deliver-Ends :
      has_null o.taken ≡ gone o.place
      → (suc i < n → is_left o.place ≡ true → has_null o.sent ≡ true)
      → ((j : ℕ) → Ends n s j)
      → (j : ℕ) → Ends n (deliver s i o tasks) j
  unfolding deliver put
  deliver-Ends last_i told_i h j = record {
    last = ground (arith, (h j).last, last_i);
    told = λ inside done. ground (arith, (h j).told inside, told_i);
  }

module _ {n : ℕ} {forwards : ℕ → Bool} where
  Step-Ends : {s t : Line} → Step n forwards s t → ((j : ℕ) → Ends n s j) → (j : ℕ) → Ends n t j
  unfolding put
  Step-Ends {s} (submit task) h = λ j. record {
    last = ground (arith, (h j).last);
    told = λ inside done. ground (arith, (h j).told inside);
  }
  Step-Ends {s} (take i task rest below at queue real) h =
      deliver-Ends n s i _ []
        (ground (arith, (h i).last, has_null-append (s.object i).taken (task ∷ [])))
        (λ inside done. cc) h
  Step-Ends {s} (take_null i rest below at queue) h =
      deliver-Ends n s i _ [] (ground (arith, has_null-append (s.object i).taken (0 ∷ [])))
        (λ inside done. cc) h
  Step-Ends {s} (emit i task new below at flag) h =
      deliver-Ends n s i _ (new ∷ []) (h i).last (λ inside done. ground (arith)) h
  Step-Ends {s} (pass i task below at flag) h =
      deliver-Ends n s i _ (task ∷ []) (ground (arith, (h i).last)) (λ inside done. cc) h
  Step-Ends {s} (keep i task below at flag) h =
      deliver-Ends n s i _ [] (ground (arith, (h i).last)) (λ inside done. cc) h
  Step-Ends {s} (leave i below at) h =
      deliver-Ends n s i _ (0 ∷ []) (ground (arith, (h i).last))
        (λ inside done. ground (arith, has_null-append (s.object i).sent (0 ∷ []))) h
  Step-Ends {s} (leave_last i below at) h =
      deliver-Ends n s i _ [] (ground (arith, (h i).last)) (λ inside done. absurd (omega arith)) h

  pub Reach-Ends : {s : Line} → Reach n forwards s → (j : ℕ) → Ends n s j
  Reach-Ends here = λ j. record { last = refl; told = λ inside done. cc }
  Reach-Ends (later r step) = Step-Ends step (Reach-Ends r)

  -- What was sent to object `i`, whether it has taken it or not, holds a `NULL`.
  told :
      {s : Line} (i : ℕ)
      → Reach n forwards s
      → has_null s.submitted ≡ true
      → i < n
      → ((j : ℕ) → j < i → (s.object j).place ≡ left)
      → has_null ((s.object i).taken ++ (s.object i).queue) ≡ true
  told {s} zero r given below before = ap has_null (Reach-Submitted r) ∙ given
  told {s} (suc i) r given below before =
      ap has_null (Reach-Conserved r i)
      ∙ (Reach-Ends r i).told below (ap is_left (before i (omega arith)))

  -- Once a `NULL` is submitted nothing waits for ever: in every state that the threads can reach, the
  -- thread of the first object whose thread has not returned can take a step, at whatever place it
  -- is.
  pub no_deadlock :
      {s : Line} (i : ℕ)
      → Reach n forwards s
      → has_null s.submitted ≡ true
      → i < n
      → ((j : ℕ) → j < i → (s.object j).place ≡ left)
      → (s.object i).place ≢ left
      → (t : Line) × (step : Step n forwards s t) × (runner step ≡ some i)
  no_deadlock {s} i r given below before running =
      step_of (s.object i).place (s.object i).queue refl refl
    where
      step_of :
          (p : Place) (queue : List ℕ)
          → (s.object i).place ≡ p
          → (s.object i).queue ≡ queue
          → (t : Line) × (step : Step n forwards s t) × (runner step ≡ some i)
      step_of waiting [] at empty =
          absurd (starved (s.object i) at empty (Reach-Ends r i).last (told i r given below before))
      step_of waiting (t ∷ ts) at full = elim (Bool-cases (t == 0)) [
        | inl null ↦
            (_, take_null i ts below at (full ∙ ap (λ x. x ∷ ts) (eq_of_test t 0 null)), refl)
        | inr task ↦ (_, take i t ts below at full (ne_of_test t 0 task), refl)
      ]
      step_of (busy task) queue at any = elim (Bool-cases (forwards i)) [
        | inl does ↦ elim (dec_lt (suc i) n) [
          | yes inside ↦ (_, pass i task inside at does, refl)
          | no last ↦ (_, keep i task below at (inr (omega arith)), refl)
        ]
        | inr does ↦ (_, keep i task below at (inl does), refl)
      ]
      step_of leaving queue at any = elim (dec_lt (suc i) n) [
        | yes inside ↦ (_, leave i inside at, refl)
        | no last ↦ (_, leave_last i (omega arith) at, refl)
      ]
      step_of left queue at any = absurd (running at)
