-- ===== src/Jobs/Locked.antt =====
-- threads_mutex_example/mutex.c: the threads and the mutex.
use making_chat_on_c.Base.{
  ℕ, zero, suc, ◌+◌, ◌≡◌, Bool, true, false, List, [], ◌∷◌, ◌++◌, ==_refl, Option, none, some,
  arith, refl, ap, sym, ◌∙◌,
}
use mathlib.Core.List.{append_assoc}
use mathlib.Core.Path.{subst}
use making_chat_on_c.Jobs.{
  Line, started, finished, Place, outside, entered, loaded, counted, looping, printed, done, State,
  move, start, Work, load, store, print_started, print_finished, LockedStep, acquire, release,
  LockedReach,
}
use making_chat_on_c.Jobs

-- Between the lock and the unlock.
abbrev pub inside : Place → Bool
inside outside = false
inside done = false
inside _ = true

-- The output of the first `n` jobs, one after the other.
abbrev pub in_turn : ℕ → List Line
in_turn zero = []
in_turn (suc n) = in_turn n ++ started (suc n) ∷ finished (suc n) ∷ []

-- The output at a moment, by the place of the thread that holds the mutex.
abbrev pub OutputAt : ℕ → List Line → Place → Type 0
OutputAt counter output (loaded n) = (output ≡ in_turn counter) × (n ≡ counter)
OutputAt counter output counted = (n : ℕ) × (counter ≡ suc n) × (output ≡ in_turn n)
OutputAt counter output looping =
    (n : ℕ) × (counter ≡ suc n) × (output ≡ in_turn n ++ started counter ∷ [])
OutputAt counter output _ = output ≡ in_turn counter

pub record Inv (s : State) : Type 0 where
  pub owner : (i : ℕ) → inside (s.place i) ≡ true → s.lock ≡ some i
  pub held : (i : ℕ) → s.lock ≡ some i → inside (s.place i) ≡ true
  pub free : s.lock ≡ none → s.output ≡ in_turn s.counter
  pub busy : (i : ℕ) → s.lock ≡ some i → OutputAt s.counter s.output (s.place i)

same_owner : (lock : Option ℕ) (i k : ℕ) → lock ≡ some i → lock ≡ some k → i ≡ k
same_owner lock i k e f = ground arith

next_job :
    (c n : ℕ) (output : List Line)
    → c ≡ suc n
    → output ≡ in_turn n ++ started c ∷ []
    → output ++ finished c ∷ [] ≡ in_turn c
next_job c n output e out =
    ap (λ l. l ++ finished c ∷ []) out
    ∙ append_assoc (in_turn n) (started c ∷ []) (finished c ∷ [])
    ∙ rw e refl

module _ (s : State) (i : ℕ) (h : Inv s) where
  -- The holder of the mutex moves on.
  move-Inv :
      (counter : ℕ) (output : List Line) (p : Place)
      → inside (s.place i) ≡ true
      → inside p ≡ true
      → OutputAt counter output p
      → Inv (move (record s { counter = counter; output = output }) i p)
  unfolding move
  move-Inv counter output p was is out =
      let mine = h.owner i was in
      record {
        owner = λ k e. ground (arith, h.owner k);
        held = λ k e. ground (arith, h.held k e);
        free = λ e. ground arith;
        busy = λ k e. rw (sym (same_owner s.lock i k mine e), ==_refl) out;
      }

  acquire-Inv :
      s.place i ≡ outside → s.lock ≡ none → Inv (move (record s { lock = some i }) i entered)
  unfolding move
  acquire-Inv at unlocked = record {
    owner = λ k e. ground (arith, h.owner k);
    held = λ k e. ground arith;
    free = λ e. cc;
    busy = λ k e. let same : i ≡ k = cc in rw (sym same, ==_refl) (h.free unlocked);
  }

  inside_at : {p : Place} → s.place i ≡ p → inside p ≡ true → inside (s.place i) ≡ true
  inside_at at is = ap inside at ∙ is

  pub output_at : {p : Place} → s.place i ≡ p → inside p ≡ true → OutputAt s.counter s.output p
  output_at at is = subst (OutputAt s.counter s.output) at (h.busy i (h.owner i (inside_at at is)))

  release-Inv : s.place i ≡ printed → Inv (move (record s { lock = none }) i done)
  unfolding move
  release-Inv at =
      let mine = h.owner i (inside_at at refl) in
      record {
        owner = λ k e. ground (arith, h.owner k);
        held = λ k e. cc;
        free = λ e. output_at at refl;
        busy = λ k e. cc;
      }

  Work-Inv : {t : State} → Work i s t → Inv t
  Work-Inv (load at) =
      move-Inv s.counter s.output (loaded s.counter) (inside_at at refl) refl
        (output_at at refl, refl)
  Work-Inv (store n at) =
      let (out, same) = output_at at refl in
      move-Inv (n + 1) s.output counted (inside_at at refl) refl
        (n, omega arith, out ∙ ap in_turn (sym same))
  Work-Inv (print_started at) =
      let (n, e, out) = output_at at refl in
      move-Inv s.counter _ looping (inside_at at refl) refl
        (n, e, ap (λ l. l ++ started s.counter ∷ []) out)
  Work-Inv (print_finished at) =
      let (n, e, out) = output_at at refl in
      move-Inv s.counter _ printed (inside_at at refl) refl (next_job s.counter n s.output e out)

Step-Inv : {n : ℕ} {s t : State} → LockedStep n s t → Inv s → Inv t
Step-Inv {s} (acquire i below at unlocked) h = acquire-Inv s i h at unlocked
Step-Inv {s} (Jobs.LockedStep.work i below step) h = Work-Inv s i h step
Step-Inv {s} (release i below at) h = release-Inv s i h at

pub Reach-Inv : {n : ℕ} {s : State} → LockedReach n s → Inv s
Reach-Inv Jobs.LockedReach.here = record {
  owner = λ i e. cc;
  held = λ i e. cc;
  free = λ e. refl;
  busy = λ i e. cc;
}
Reach-Inv (Jobs.LockedReach.later r step) = Step-Inv step (Reach-Inv r)

-- In mutex.c no two threads are between the lock and the unlock together, in any state that the
-- threads can reach.
pub mutual_exclusion :
    {n : ℕ} {s : State}
    → LockedReach n s
    → (i j : ℕ) → inside (s.place i) ≡ true
    → inside (s.place j) ≡ true
    → i ≡ j
mutual_exclusion {s} r i j in_i in_j =
    same_owner s.lock i j ((Reach-Inv r).owner i in_i) ((Reach-Inv r).owner j in_j)
