-- ===== src/Jobs/Joined.antt =====
-- `main` of threads_mutex_example/mutex.c and of threads_mutex_example/problem.c: when it returns.
use making_chat_on_c.Base.{ℕ, ◌<◌, ◌≤◌, ◌≡◌, ◌≢◌, [], ◌∷◌, ◌∙◌, refl, false, arith}
use making_chat_on_c.Jobs.{
  started, finished, Place, outside, entered, loaded, counted, looping, printed, done, State, move,
  start, Work, load, store, print_started, print_finished, LockedStep, FreeStep, acquire, release,
  begin, return, LockedReach,
}
use making_chat_on_c.Jobs
use making_chat_on_c.Jobs.Main
use making_chat_on_c.Jobs.Main.{
  MainPlace, initializing, creating, joining, returned, undefined, Process, at, create,
  locked_runner, JoinStep, create_thread, create_fails, create_outside, create_ends, join,
  join_unset, join_ends, MutexStep, init, init_fails, MutexReach, ProblemStep, ProblemReach,
}
use making_chat_on_c.Jobs.Total.{all_jobs_in_turn}

-- The joined threads have returned, and only created ones have left their start.
pub record IsJoined (m : Process) : Type 0 where
  pub reached : LockedReach 2 m.threads
  pub first : (i : ℕ) → m.place ≡ joining i → (j : ℕ) → j < i → m.threads.place j ≡ done
  pub last : m.place ≡ returned 0 → (j : ℕ) → j < 2 → m.threads.place j ≡ done
  pub within : (i : ℕ) → m.place ≡ joining i → i ≤ 2
  pub unborn : (i : ℕ) → m.created i ≡ false → m.threads.place i ≡ outside

Work-done : (i k : ℕ) {s t : State} → Work i s t → s.place k ≡ done → t.place k ≡ done
unfolding move
Work-done i k (load e) h = ground (arith, e, h)
Work-done i k (store n e) h = ground (arith, e, h)
Work-done i k (print_started e) h = ground (arith, e, h)
Work-done i k (print_finished e) h = ground (arith, e, h)

-- A thread that has returned takes no step.
Step-done : {n : ℕ} {s t : State} (k : ℕ) → LockedStep n s t → s.place k ≡ done → t.place k ≡ done
unfolding move
Step-done k (acquire i below e unlocked) h = ground (arith, e, h)
Step-done k (Jobs.LockedStep.work i below step) h = Work-done i k step h
Step-done k (release i below e) h = ground (arith, e, h)

Work-other : (i k : ℕ) {s t : State} → i ≢ k → Work i s t → t.place k ≡ s.place k
unfolding move
Work-other i k other (load e) = ground arith
Work-other i k other (store n e) = ground arith
Work-other i k other (print_started e) = ground arith
Work-other i k other (print_finished e) = ground arith

pub Step-other :
    {n : ℕ} {s t : State} (k : ℕ) (step : LockedStep n s t)
    → locked_runner step ≢ k
    → t.place k ≡ s.place k
unfolding move
Step-other k (acquire i below e unlocked) other = ground arith
Step-other k (Jobs.LockedStep.work i below step) other = Work-other i k other step
Step-other k (release i below e) other = ground arith

JoinStep-IsJoined : {m q : Process} → JoinStep 2 m q → IsJoined m → IsJoined q
unfolding create
JoinStep-IsJoined (create_thread i e below room) h = record {
  reached = h.reached;
  first = λ j f. cc;
  last = λ f. cc;
  within = λ j f. ground arith;
  unborn = λ j f. h.unborn j (ground arith);
}
JoinStep-IsJoined (create_fails i e below room) h = record {
  reached = h.reached;
  first = λ j f. cc;
  last = λ f. cc;
  within = λ j f. ground arith;
  unborn = h.unborn;
}
JoinStep-IsJoined (create_outside i e below room) h = absurd (omega arith)
JoinStep-IsJoined (create_ends i e enough) h = record {
  reached = h.reached;
  first = λ j f k less. absurd (ground arith);
  last = λ f. cc;
  within = λ j f. ground arith;
  unborn = h.unborn;
}
JoinStep-IsJoined (join i e below made is_done) h = record {
  reached = h.reached;
  first = λ j f k less. ground (arith, h.first i e k, is_done);
  last = λ f. cc;
  within = λ j f. ground arith;
  unborn = h.unborn;
}
JoinStep-IsJoined (join_unset i e below unset) h = record {
  reached = h.reached;
  first = λ j f. cc;
  last = λ f. cc;
  within = λ j f. ground arith;
  unborn = h.unborn;
}
JoinStep-IsJoined (join_ends e) h = record {
  reached = h.reached;
  first = λ j f. cc;
  last = λ f. h.first 2 e;
  within = λ j f. cc;
  unborn = h.unborn;
}

Step-IsJoined : {m q : Process} → MutexStep m q → IsJoined m → IsJoined q
Step-IsJoined (init e) h = record {
  reached = h.reached;
  first = λ j f. cc;
  last = λ f. cc;
  within = λ j f. ground arith;
  unborn = h.unborn;
}
Step-IsJoined (init_fails e) h = record {
  reached = h.reached;
  first = λ j f. cc;
  last = λ f. absurd (ground arith);
  within = λ j f. cc;
  unborn = h.unborn;
}
Step-IsJoined (Main.MutexStep.main step) h = JoinStep-IsJoined step h
Step-IsJoined {m} (Main.MutexStep.thread step made) h = record {
  reached = Jobs.LockedReach.later h.reached step;
  first = λ i e j less. Step-done j step (h.first i e j less);
  last = λ e j less. Step-done j step (h.last e j less);
  within = h.within;
  unborn = λ i e. Step-other i step (λ same. cc) ∙ h.unborn i e;
}

pub Reach-IsJoined : {m : Process} → MutexReach m → IsJoined m
Reach-IsJoined Main.MutexReach.here = record {
  reached = Jobs.LockedReach.here;
  first = λ j f. cc;
  last = λ f. cc;
  within = λ j f. ground arith;
  unborn = λ i e. refl;
}
Reach-IsJoined (Main.MutexReach.later r step) = Step-IsJoined step (Reach-IsJoined r)

-- When `main` of mutex.c returns 0, both threads have been created and have returned, and the
-- output is that of the two jobs, one after the other, whatever the order of all steps.
pub main_output :
    {m : Process}
    → MutexReach m
    → m.place ≡ returned 0
    → m.threads.output ≡ started 1 ∷ finished 1 ∷ started 2 ∷ finished 2 ∷ []
main_output r e = all_jobs_in_turn (Reach-IsJoined r).reached ((Reach-IsJoined r).last e)
