-- ===== src/Jobs/Tests.antt =====
-- The theorems on the jobs after one thread has run, and for two threads without the mutex.
use making_chat_on_c.Base.{
  ℕ, zero, suc, ◌<◌, ◌≡◌, ◌≢◌, ◌⊎◌, ◌≤◌, true, refl, none, some, [], ◌∷◌, arith,
}
use making_chat_on_c.Jobs.{
  Line, started, finished, Place, entered, loaded, counted, looping, printed, done, State, move,
  start, Work, load, store, print_started, print_finished, LockedStep, acquire, release,
  LockedReach,
}
use making_chat_on_c.Jobs
use making_chat_on_c.Jobs.Locked.{in_turn}
use making_chat_on_c.Jobs.Total.{all_jobs_in_turn}
use making_chat_on_c.Jobs.Main
use making_chat_on_c.Jobs.Main.{
  Process, process, initializing, creating, returned, undefined, init, create_thread,
  create_outside, create_ends, join, join_ends, MutexStep, JoinStep, locked_runner, MutexReach,
  ProblemReach,
}
use making_chat_on_c.Jobs.Joined.{main_output}
use making_chat_on_c.Jobs.Ends.{IsOver, steps_to_go, main_ends}
use making_chat_on_c.Jobs.Overrun.{problem_main_needs_two}
use making_chat_on_c.Jobs.Unlocked.{BothDone, races}

abbrev holding : State
holding = move (record start { lock = some 0 }) 0 entered

held_by_0 : LockedReach 1 holding
held_by_0 = Jobs.LockedReach.later Jobs.LockedReach.here (acquire 0 (omega arith) refl refl)

run : {s t : State} → LockedReach 1 s → Work 0 s t → LockedReach 1 t
run r step = Jobs.LockedReach.later r (Jobs.LockedStep.work 0 (omega arith) step)

one_job : (s : State) × LockedReach 1 s × (s.lock ≡ none) × (s.place 0 ≡ done) × (s.counter ≡ 1)
unfolding move
one_job = (
  _,
  Jobs.LockedReach.later
      (run (run (run (run held_by_0 (load refl)) (store 0 refl)) (print_started refl))
        (print_finished refl))
      (release 0 (omega arith) refl),
  refl,
  refl,
  refl,
)

only_thread : (i : ℕ) → i < 1 → one_job.0.place i ≡ done
only_thread zero below = one_job.3
only_thread (suc i) below = absurd (omega arith)

all_jobs_in_turn_example : one_job.0.output ≡ in_turn 1
all_jobs_in_turn_example = all_jobs_in_turn one_job.1 only_thread

races_example :
    BothDone 2 1 (started 1 ∷ started 1 ∷ finished 1 ∷ finished 1 ∷ [])
    × BothDone 2 2 (started 1 ∷ started 2 ∷ finished 2 ∷ finished 2 ∷ [])
races_example = races (omega arith)

after : {m q : Process} → MutexReach m → MutexStep m q → MutexReach q
after r step = Main.MutexReach.later r step

zero_two : 0 < 2
zero_two = omega arith

one_two : 1 < 2
one_two = omega arith

zero_three : 0 < 3
zero_three = omega arith

one_three : 1 < 3
one_three = omega arith

two_three : 2 < 3
two_three = omega arith

two_two : 2 ≤ 2
two_two = omega arith

next : {m q : Process} → JoinStep 2 m q → MutexReach m → MutexReach q
next step r = Main.MutexReach.later r (Main.MutexStep.main step)

take :
    {m : Process} {t : State}
    → (step : LockedStep 2 m.threads t) → m.created (locked_runner step) ≡ true
    → MutexReach m
    → MutexReach (record m { threads = t })
take step made r = Main.MutexReach.later r (Main.MutexStep.thread step made)

-- Both threads are created, run and joined.
whole_run : (m : Process) × MutexReach m × (m.place ≡ returned 0)
unfolding move Main.create
whole_run =
    let a =
      next (create_thread 0 refl zero_two zero_two)
        (Main.MutexReach.later Main.MutexReach.here (init refl)) in
    let b = next (create_ends 2 refl two_two) (next (create_thread 1 refl one_two one_two) a) in
    let c0 = take (acquire 0 zero_two refl refl) refl b in
    let c1 = take (Jobs.LockedStep.work 0 zero_two (load refl)) refl c0 in
    let c2 = take (Jobs.LockedStep.work 0 zero_two (store 0 refl)) refl c1 in
    let c3 = take (Jobs.LockedStep.work 0 zero_two (print_started refl)) refl c2 in
    let c4 = take (Jobs.LockedStep.work 0 zero_two (print_finished refl)) refl c3 in
    let c5 = take (release 0 zero_two refl) refl c4 in
    let d0 = take (acquire 1 one_two refl refl) refl c5 in
    let d1 = take (Jobs.LockedStep.work 1 one_two (load refl)) refl d0 in
    let d2 = take (Jobs.LockedStep.work 1 one_two (store 1 refl)) refl d1 in
    let d3 = take (Jobs.LockedStep.work 1 one_two (print_started refl)) refl d2 in
    let d4 = take (Jobs.LockedStep.work 1 one_two (print_finished refl)) refl d3 in
    let d5 = take (release 1 one_two refl) refl d4 in
    let e = next (join 0 refl zero_two refl refl) d5 in
    (_, next (join_ends refl) (next (join 1 refl one_two refl refl) e), refl)

main_output_example :
    whole_run.0.threads.output ≡ started 1 ∷ finished 1 ∷ started 2 ∷ finished 2 ∷ []
main_output_example = main_output whole_run.1 whole_run.2

main_ends_example :
    (((q : Process) × MutexStep (process initializing) q) ⊎ IsOver initializing)
    × ((q : Process)
        → MutexStep (process initializing) q
        → steps_to_go q < steps_to_go (process initializing))
    × (steps_to_go (process initializing) ≤ 19)
main_ends_example = main_ends Main.MutexReach.here

-- Three processors, up to the write behind `tid`.
overrun : (m : Process) × ProblemReach 3 m × (m.place ≡ undefined)
unfolding Main.create
overrun =
    let a =
      Main.ProblemReach.later Main.ProblemReach.here
        (Main.ProblemStep.main (create_thread 0 refl zero_three zero_two)) in
    let b =
      Main.ProblemReach.later a (Main.ProblemStep.main (create_thread 1 refl one_three one_two)) in
    (
      _,
      Main.ProblemReach.later b (Main.ProblemStep.main (create_outside 2 refl two_three two_two)),
      refl,
    )

problem_main_needs_two_example : overrun.0.place ≢ returned 0
problem_main_needs_two_example = problem_main_needs_two overrun.1 (omega arith) 0
