-- ===== src/Jobs/Ends.antt =====
-- `main` of threads_mutex_example/mutex.c with its threads: that it comes to its end.
use making_chat_on_c.Base.{
  ℕ, ◌+◌, ◌<◌, ◌≤◌, ◌≡◌, ◌-◌, ◌⊎◌, inl, inr, ◌∙◌, ap, refl, true, Option-cases, Bool-cases, none,
  arith,
}
use native.Mathlib.Decide.{dec_lt}
use making_chat_on_c.Jobs.{
  started, finished, Place, outside, entered, loaded, counted, looping, printed, done, State, move,
  start, Work, load, store, print_started, print_finished, LockedStep, FreeStep, acquire, release,
  begin, return, LockedReach,
}
use making_chat_on_c.Jobs
use making_chat_on_c.Jobs.Main
use making_chat_on_c.Jobs.Main.{
  MainPlace, initializing, creating, joining, returned, undefined, Process, at, create,
  locked_runner, JoinStep, create_thread, create_fails, create_outside, create_ends, join,
  join_unset, join_ends, MutexStep, init, init_fails, MutexReach, ProblemStep, ProblemReach,
}
use making_chat_on_c.Jobs.Locked.{inside, Reach-Inv}
use making_chat_on_c.Jobs.Total.{Reach-outside}
use making_chat_on_c.Jobs.Joined.{IsJoined, Reach-IsJoined}

-- The steps that a thread, and `main`, have before them.
abbrev to_go : Place → ℕ
to_go outside = 6
to_go entered = 5
to_go (loaded n) = 4
to_go counted = 3
to_go looping = 2
to_go printed = 1
to_go done = 0

abbrev main_to_go : MainPlace → ℕ
main_to_go initializing = 7
main_to_go (creating i) = 4 + (2 - i)
main_to_go (joining i) = 1 + (2 - i)
main_to_go _ = 0

abbrev pub steps_to_go : Process → ℕ
steps_to_go m = main_to_go m.place + (to_go (m.threads.place 0) + to_go (m.threads.place 1))

-- Past its end.
abbrev pub IsOver : MainPlace → Type 0
IsOver (returned status) = Unit {0}
IsOver undefined = Unit {0}
IsOver _ = ⊥

abbrev both : State → ℕ
both s = to_go (s.place 0) + to_go (s.place 1)

Work-both : (i : ℕ) {s t : State} → i < 2 → Work i s t → both t < both s
unfolding move
Work-both i below (load e) = ground arith
Work-both i below (store n e) = ground arith
Work-both i below (print_started e) = ground arith
Work-both i below (print_finished e) = ground arith

Step-both : {s t : State} → LockedStep 2 s t → both t < both s
unfolding move
Step-both (acquire i below e unlocked) = ground arith
Step-both (Jobs.LockedStep.work i below step) = Work-both i below step
Step-both (release i below e) = ground arith

JoinStep-steps_to_go : {m q : Process} → JoinStep 2 m q → steps_to_go q < steps_to_go m
unfolding create
JoinStep-steps_to_go (create_thread i e below room) = ground arith
JoinStep-steps_to_go (create_fails i e below room) = ground arith
JoinStep-steps_to_go (create_outside i e below room) = ground arith
JoinStep-steps_to_go (create_ends i e enough) = ground arith
JoinStep-steps_to_go (join i e below made is_done) = ground arith
JoinStep-steps_to_go (join_unset i e below unset) = ground arith
JoinStep-steps_to_go (join_ends e) = ground arith

Step-steps_to_go : {m q : Process} → MutexStep m q → steps_to_go q < steps_to_go m
Step-steps_to_go (init e) = ground arith
Step-steps_to_go (init_fails e) = ground arith
Step-steps_to_go (Main.MutexStep.main step) = JoinStep-steps_to_go step
Step-steps_to_go (Main.MutexStep.thread step made) = omega (arith, Step-both step)

abbrev Unblocked : State → ℕ → Type 0
Unblocked s k = (t : State) × (step : LockedStep 2 s t) × (locked_runner step ≡ k)

Work-Unblocked : {s t : State} (k : ℕ) → k < 2 → Work k s t → Unblocked s k
Work-Unblocked k below step = (_, Jobs.LockedStep.work k below step, refl)

-- A thread between the lock and the unlock is never held up.
inside-Unblocked :
    (s : State) (k : ℕ) (p : Place) → k < 2 → s.place k ≡ p → inside p ≡ true → Unblocked s k
inside-Unblocked s k outside below e is = absurd (cc)
inside-Unblocked s k entered below e is = Work-Unblocked k below (load e)
inside-Unblocked s k (loaded n) below e is = Work-Unblocked k below (store n e)
inside-Unblocked s k counted below e is = Work-Unblocked k below (print_started e)
inside-Unblocked s k looping below e is = Work-Unblocked k below (print_finished e)
inside-Unblocked s k printed below e is = (_, release k below e, refl)
inside-Unblocked s k done below e is = absurd (cc)

place-Unblocked : (s : State) (k : ℕ) → k < 2 → inside (s.place k) ≡ true → Unblocked s k
place-Unblocked s k below is = inside-Unblocked s k (s.place k) below refl is

abbrev CanStep : Process → Type 0
CanStep m = (q : Process) × MutexStep m q

module _ {m : Process} (h : IsJoined m) where
  was_created : (k : ℕ) → inside (m.threads.place k) ≡ true → m.created k ≡ true
  was_created k is = elim (Bool-cases (m.created k)) [
    | inl e ↦ e
    | inr e ↦ absurd (ground (arith, ap inside (h.unborn k e)))
  ]

  is_thread : (k : ℕ) → inside (m.threads.place k) ≡ true → k < 2
  is_thread k is = elim (dec_lt k 2) [
    | yes below ↦ below
    | no above ↦ absurd (ground (arith, ap inside (Reach-outside k (omega arith) h.reached)))
  ]

  holder_moves : (k : ℕ) → inside (m.threads.place k) ≡ true → CanStep m
  holder_moves k is =
      let (t, step, same) = place-Unblocked m.threads k (is_thread k is) is in
      (_, Main.MutexStep.thread step (ap m.created same ∙ was_created k is))

  -- A created thread that has not returned, at its place.
  thread_moves :
      (i : ℕ) (p : Place)
      → i < 2
      → m.created i ≡ true
      → m.threads.lock ≡ none
      → m.threads.place i ≡ p
      → CanStep m ⊎ (p ≡ done)
  thread_moves i outside below made unlocked e =
      inl (_, Main.MutexStep.thread (acquire i below e unlocked) made)
  thread_moves i entered below made unlocked e = inl (holder_moves i (ap inside e))
  thread_moves i (loaded n) below made unlocked e = inl (holder_moves i (ap inside e))
  thread_moves i counted below made unlocked e = inl (holder_moves i (ap inside e))
  thread_moves i looping below made unlocked e = inl (holder_moves i (ap inside e))
  thread_moves i printed below made unlocked e = inl (holder_moves i (ap inside e))
  thread_moves i done below made unlocked e = inr refl

  join_moves : (i : ℕ) → i < 2 → m.place ≡ joining i → CanStep m
  join_moves i below e = elim (Bool-cases (m.created i)) [
    | inr unset ↦ (_, Main.MutexStep.main (join_unset i e below unset))
    | inl made ↦ elim (Option-cases m.threads.lock) [
      | inr (k, held) ↦ holder_moves k ((Reach-Inv h.reached).held k held)
      | inl unlocked ↦ elim (thread_moves i (m.threads.place i) below made unlocked refl) [
        | inl moves ↦ moves
        | inr is_done ↦ (_, Main.MutexStep.main (join i e below made is_done))
      ]
    ]
  ]

  main_moves : (p : MainPlace) → m.place ≡ p → CanStep m ⊎ IsOver p
  main_moves initializing e = inl (_, init e)
  main_moves (creating i) e = elim (dec_lt i 2) [
    | yes below ↦ inl (_, Main.MutexStep.main (create_thread i e below below))
    | no above ↦ inl (_, Main.MutexStep.main (create_ends i e (omega arith)))
  ]
  main_moves (joining i) e = elim (dec_lt i 2) [
    | yes below ↦ inl (join_moves i below e)
    | no above ↦
        let same : i ≡ 2 = omega (arith, h.within i e) in
        inl (_, Main.MutexStep.main (join_ends (e ∙ ap joining same)))
  ]
  main_moves (returned status) e = inr tt
  main_moves undefined e = inr tt

steps_to_go_bound : {m : Process} → MutexReach m → steps_to_go m ≤ 19
steps_to_go_bound Main.MutexReach.here = omega arith
steps_to_go_bound (Main.MutexReach.later r step) =
    omega (arith, Step-steps_to_go step, steps_to_go_bound r)

-- `main` of mutex.c and its threads come to an end: in every state that they reach, `main` is over
-- or a step is possible, and each step lowers the steps that are still to go, which are 19 at the
-- start. `main` is over when it has returned, or has joined a thread that was not created, which
-- is undefined. So nothing is ever held up for good, in whatever order the threads run.
pub main_ends :
    {m : Process}
    → MutexReach m
    → (((q : Process) × MutexStep m q) ⊎ IsOver m.place)
      × ((q : Process) → MutexStep m q → steps_to_go q < steps_to_go m)
      × (steps_to_go m ≤ 19)
main_ends {m} r = (
  main_moves (Reach-IsJoined r) m.place refl,
  λ q step. Step-steps_to_go step,
  steps_to_go_bound r,
)
