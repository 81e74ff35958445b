-- ===== src/Active/Steps.antt =====
-- What the steps of the line of task5_designPattren/st_pipeline.c keep: the first object, the
-- threads that have returned, and what was submitted.
use making_chat_on_c.Base.{
  ℕ, zero, suc, ◌==◌, ◌<◌, ◌≡◌, ◌≢◌, ◌⊎◌, inl, inr, Bool, true, false, List, [], ◌∷◌, ap, refl, ◌∙◌,
  arith, Bool-cases,
}
use making_chat_on_c.Active.{
  Place, waiting, busy, leaving, left, Object, Line, put, deliver, Step, submit, take, take_null,
  emit, pass, keep, leave, leave_last,
}
use making_chat_on_c.Active.Progress.{eq_of_test}
use making_chat_on_c.Active.Main.{allowed}

-- The first object before anything is enqueued.
abbrev pub Untouched : Object → Type 0
Untouched o = (o.place ≡ waiting) × (o.queue ≡ [])

-- The first object from the arguments of `main` to the `NULL` of `partD_a`.
abbrev pub Given : Object → Type 0
Given o =
    ((o.place ≡ waiting) × (arr : ℕ) × (arr ≢ 0) × (o.queue ≡ arr ∷ []))
    ⊎ ((task : ℕ) × (o.place ≡ busy task))

behind :
    (s : Line) (i : ℕ) (o : Object) (tasks : List ℕ) (P : Object → Type 0)
    → P (s.object 0)
    → P ((deliver s (suc i) o tasks).object 0)
unfolding deliver
behind s i o tasks P h =
    let off : (suc i == 0) ≡ false = ground arith in
    let next : (suc (suc i) == 0) ≡ false = ground arith in rw (off, next) h

null_not_Given : (o : Object) (rest : List ℕ) → o.place ≡ waiting → o.queue ≡ 0 ∷ rest → ¬ Given o
null_not_Given o rest place queue (inl (p, arr, real, q)) = real cc
null_not_Given o rest place queue (inr (task, p)) = absurd cc

leaving_not_Given : (o : Object) → o.place ≡ leaving → ¬ Given o
leaving_not_Given o place (inl (p, arr, real, q)) = absurd cc
leaving_not_Given o place (inr (task, p)) = absurd cc

deliver_left :
    (s : Line) (i : ℕ) (o : Object) (tasks : List ℕ) (j : ℕ)
    → (s.object i).place ≢ left
    → (s.object j).place ≡ left
    → ((deliver s i o tasks).object j).place ≡ left
unfolding deliver put
deliver_left s i o tasks j running at_left = elim (Bool-cases (i == j)) [
  | inl e ↦ absurd (running (ap (λ k. (s.object k).place) (eq_of_test i j e) ∙ at_left))
  | inr e ↦ rw e (elim (Bool-cases (suc i == j)) [ inl f ↦ rw f at_left | inr f ↦ rw f at_left ])
]

waiting_runs : {p : Place} → p ≡ waiting → p ≢ left
waiting_runs place at_left = absurd cc

busy_runs : {p : Place} (task : ℕ) → p ≡ busy task → p ≢ left
busy_runs task place at_left = absurd cc

leaving_runs : {p : Place} → p ≡ leaving → p ≢ left
leaving_runs place at_left = absurd cc

-- The first `i` threads have returned.
abbrev pub AllLeft : ℕ → Line → Type 0
AllLeft i s = (j : ℕ) → j < i → (s.object j).place ≡ left

module _ {forwards : ℕ → Bool} where
  pub Step-left :
      {s t : Line}
      → Step 4 forwards s t
      → (j : ℕ) → (s.object j).place ≡ left
      → (t.object j).place ≡ left
  unfolding put
  Step-left (submit task) j h = elim (Bool-cases (0 == j)) [ inl e ↦ rw e h | inr e ↦ rw e h ]
  Step-left {s} (take i task rest below place queue real) j h =
      deliver_left s i _ _ j (waiting_runs place) h
  Step-left {s} (take_null i rest below place queue) j h =
      deliver_left s i _ _ j (waiting_runs place) h
  Step-left {s} (emit i task new below place does) j h =
      deliver_left s i _ _ j (busy_runs task place) h
  Step-left {s} (pass i task below place does) j h = deliver_left s i _ _ j (busy_runs task place) h
  Step-left {s} (keep i task below place does) j h = deliver_left s i _ _ j (busy_runs task place) h
  Step-left {s} (leave i below place) j h = deliver_left s i _ _ j (leaving_runs place) h
  Step-left {s} (leave_last i last place) j h = deliver_left s i _ _ j (leaving_runs place) h

  pub allowed-submitted :
      {s t : Line} (closing : Bool) (step : Step 4 forwards s t)
      → allowed closing step ≡ true
      → t.submitted ≡ s.submitted
  unfolding deliver
  allowed-submitted closing (submit task) may = absurd cc
  allowed-submitted closing (take i task rest below place queue real) may = refl
  allowed-submitted closing (take_null i rest below place queue) may = refl
  allowed-submitted closing (emit i task new below place does) may = absurd cc
  allowed-submitted closing (pass i task below place does) may = refl
  allowed-submitted closing (keep i task below place does) may = refl
  allowed-submitted closing (leave i below place) may = refl
  allowed-submitted closing (leave_last i last place) may = refl

  pub step-Untouched :
      {s t : Line} (closing : Bool) (step : Step 4 forwards s t)
      → allowed closing step ≡ true
      → Untouched (s.object 0)
      → Untouched (t.object 0)
  unfolding deliver put
  step-Untouched closing (submit task) may h = absurd cc
  step-Untouched closing (take zero task rest below place queue real) may (p, q) = absurd cc
  step-Untouched {s} closing (take (suc i) task rest below place queue real) may h =
      behind s i _ _ Untouched h
  step-Untouched closing (take_null zero rest below place queue) may (p, q) = absurd cc
  step-Untouched {s} closing (take_null (suc i) rest below place queue) may h =
      behind s i _ _ Untouched h
  step-Untouched closing (emit i task new below place does) may h = absurd cc
  step-Untouched closing (pass zero task below place does) may (p, q) = absurd cc
  step-Untouched {s} closing (pass (suc i) task below place does) may h = behind s i _ _ Untouched h
  step-Untouched closing (keep zero task below place does) may (p, q) = absurd cc
  step-Untouched {s} closing (keep (suc i) task below place does) may h = behind s i _ _ Untouched h
  step-Untouched closing (leave zero below place) may (p, q) = absurd cc
  step-Untouched {s} closing (leave (suc i) below place) may h = behind s i _ _ Untouched h
  step-Untouched closing (leave_last zero last place) may (p, q) = absurd cc
  step-Untouched {s} closing (leave_last (suc i) last place) may h = behind s i _ _ Untouched h

  pub step-Given :
      {s t : Line} (step : Step 4 forwards s t)
      → allowed false step ≡ true
      → forwards 0 ≡ false
      → Given (s.object 0)
      → Given (t.object 0)
  unfolding deliver put
  step-Given (submit task) may first h = absurd cc
  step-Given (take zero task rest below place queue real) may first h = inr (task, refl)
  step-Given {s} (take (suc i) task rest below place queue real) may first h =
      behind s i _ _ Given h
  step-Given {s} (take_null zero rest below place queue) may first h =
      absurd (null_not_Given (s.object 0) rest place queue h)
  step-Given {s} (take_null (suc i) rest below place queue) may first h = behind s i _ _ Given h
  step-Given (emit i task new below place does) may first h = absurd cc
  step-Given (pass zero task below place does) may first h = absurd cc
  step-Given {s} (pass (suc i) task below place does) may first h = behind s i _ _ Given h
  step-Given (keep zero task below place does) may first h = absurd cc
  step-Given {s} (keep (suc i) task below place does) may first h = behind s i _ _ Given h
  step-Given {s} (leave zero below place) may first h =
      absurd (leaving_not_Given (s.object 0) place h)
  step-Given {s} (leave (suc i) below place) may first h = behind s i _ _ Given h
  step-Given (leave_last zero last place) may first h = absurd (omega arith)
  step-Given {s} (leave_last (suc i) last place) may first h = behind s i _ _ Given h
