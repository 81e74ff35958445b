-- ===== src/Jobs/Total.antt =====
-- threads_mutex_example/mutex.c: the shared number, the jobs and the output.
use making_chat_on_c.Base.{
  ℕ, zero, suc, ◌+◌, ◌==◌, ◌<◌, ◌≤◌, ◌≡◌, ◌≢◌, inl, inr, Option-cases, none, if◌then◌else◌, arith,
  refl, ap, sym, ◌∙◌,
}
use native.Mathlib.Decide.{dec_lt}
use making_chat_on_c.Jobs.{
  Place, outside, entered, loaded, counted, looping, printed, done, State, move, start, Work, load,
  store, print_started, print_finished, LockedStep, acquire, release, LockedReach,
}
use making_chat_on_c.Jobs
use making_chat_on_c.Jobs.Locked.{in_turn, inside, Inv, output_at, Reach-Inv}

-- The thread has written the shared number.
abbrev has_counted : Place → ℕ
has_counted outside = 0
has_counted entered = 0
has_counted (loaded n) = 0
has_counted _ = 1

abbrev total : ℕ → (ℕ → Place) → ℕ
total zero f = 0
total (suc n) f = total n f + has_counted (f n)

abbrev replaced : (ℕ → Place) → ℕ → Place → ℕ → Place
replaced f i p j = if i == j then p else f j

total-replaced_of_le :
    (n : ℕ) (f : ℕ → Place) (i : ℕ) (p : Place) → n ≤ i → total n (replaced f i p) ≡ total n f
total-replaced_of_le zero f i p h = refl
total-replaced_of_le (suc n) f i p h = ground (arith, total-replaced_of_le n f i p)

total-replaced :
    (n : ℕ) (f : ℕ → Place) (i : ℕ) (p : Place)
    → i < n
    → total n (replaced f i p) + has_counted (f i) ≡ total n f + has_counted p
total-replaced zero f i p h = absurd (omega arith)
total-replaced (suc n) f i p h = elim (dec_lt i n) [
  | yes below ↦ ground (arith, total-replaced n f i p below)
  | no last ↦ let same : i ≡ n = omega arith in ground (arith, total-replaced_of_le n f i p)
]

total_outside : (n : ℕ) → total n (λ j. outside) ≡ 0
total_outside zero = refl
total_outside (suc n) = omega (arith, total_outside n)

abbrev Counted : ℕ → State → Type 0
Counted n s = total n s.place ≡ s.counter

module _ {n : ℕ} (s : State) (i : ℕ) (below : i < n) (h : Inv s) (c : Counted n s) where
  stay :
      (p q : Place)
      → s.place i ≡ q
      → has_counted q ≡ has_counted p
      → total n (replaced s.place i p) ≡ s.counter
  stay p q at same = omega (arith, total-replaced n s.place i p below, ap has_counted at, same, c)

  read_back : {k : ℕ} → s.place i ≡ loaded k → k ≡ s.counter
  read_back at = (output_at s i h at refl).1

  Work-Counted : {t : State} → Work i s t → Counted n t
  unfolding move
  Work-Counted (load at) = stay _ entered at refl
  Work-Counted (store k at) =
      omega (arith, total-replaced n s.place i counted below, ap has_counted at, read_back at, c)
  Work-Counted (print_started at) = stay _ counted at refl
  Work-Counted (print_finished at) = stay _ looping at refl

Step-Counted : {n : ℕ} {s t : State} → LockedStep n s t → Inv s → Counted n s → Counted n t
unfolding move
Step-Counted {s} (acquire i below at unlocked) h c = stay s i below h c _ outside at refl
Step-Counted {s} (Jobs.LockedStep.work i below step) h c = Work-Counted s i below h c step
Step-Counted {s} (release i below at) h c = stay s i below h c _ printed at refl

Reach-Counted : {n : ℕ} {s : State} → LockedReach n s → Counted n s
Reach-Counted {n} Jobs.LockedReach.here = total_outside n
Reach-Counted (Jobs.LockedReach.later r step) = Step-Counted step (Reach-Inv r) (Reach-Counted r)

total_done : (n : ℕ) (f : ℕ → Place) → ((i : ℕ) → i < n → f i ≡ done) → total n f ≡ n
total_done zero f h = refl
total_done (suc n) f h =
    omega (arith, total_done n f (λ i below. h i (omega arith)), ap has_counted (h n (omega arith)))

-- A thread that was not created stays outside.
Work-outside :
    (i k : ℕ) {s t : State} → i ≢ k → Work i s t → s.place k ≡ outside → t.place k ≡ outside
unfolding move
Work-outside i k other (load at) e = ground (arith, e)
Work-outside i k other (store n at) e = ground (arith, e)
Work-outside i k other (print_started at) e = ground (arith, e)
Work-outside i k other (print_finished at) e = ground (arith, e)

Step-outside :
    {n : ℕ} {s t : State} (k : ℕ)
    → n ≤ k
    → LockedStep n s t
    → s.place k ≡ outside
    → t.place k ≡ outside
unfolding move
Step-outside k above (acquire i below at unlocked) e = ground (arith, e)
Step-outside k above (Jobs.LockedStep.work i below step) e = Work-outside i k (omega arith) step e
Step-outside k above (release i below at) e = ground (arith, e)

pub Reach-outside : {n : ℕ} {s : State} (k : ℕ) → n ≤ k → LockedReach n s → s.place k ≡ outside
Reach-outside k above Jobs.LockedReach.here = refl
Reach-outside k above (Jobs.LockedReach.later r step) =
    Step-outside k above step (Reach-outside k above r)

none_holds :
    {n : ℕ} {s : State} → LockedReach n s → ((i : ℕ) → i < n → s.place i ≡ done) → s.lock ≡ none
none_holds {n} {s} r all = elim (Option-cases s.lock) [
  | inl e ↦ e
  | inr (i, e) ↦
      let is = (Reach-Inv r).held i e in
      elim (dec_lt i n) [
        | yes below ↦ absurd (ground (arith, ap inside (all i below)))
        | no above ↦ absurd (ground (arith, ap inside (Reach-outside i (omega arith) r)))
      ]
]

-- When all `n` threads of mutex.c have returned, exactly the jobs 1 to `n` were started and
-- finished, each before the next, whatever the order in which the threads ran.
pub all_jobs_in_turn :
    {n : ℕ} {s : State}
    → LockedReach n s
    → ((i : ℕ) → i < n → s.place i ≡ done)
    → s.output ≡ in_turn n
all_jobs_in_turn {n} {s} r all =
    (Reach-Inv r).free (none_holds r all)
    ∙ ap in_turn (sym (Reach-Counted r) ∙ total_done n s.place all)
