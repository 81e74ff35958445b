-- ===== src/Jobs/Main.antt =====
-- `main` of threads_mutex_example/mutex.c and of threads_mutex_example/problem.c: it creates the
-- threads and joins the first two, while those that are created take their steps.
use making_chat_on_c.Base.{ℕ, suc, ◌==◌, ◌<◌, ◌≤◌, ◌≡◌, Bool, true, false, if◌then◌else◌}
use making_chat_on_c.Jobs.{State, start, LockedStep, FreeStep, acquire, release, begin, return}
use making_chat_on_c.Jobs

-- `undefined` is past a write behind `tid`, or past a join of a thread that was not created.
pub data MainPlace : Type 0 where
  initializing : MainPlace
  creating : ℕ → MainPlace
  joining : ℕ → MainPlace
  returned : ℕ → MainPlace
  undefined : MainPlace

pub record Process : Type 0 where
  pub threads : State
  pub created : ℕ → Bool
  pub place : MainPlace

abbrev pub at : Process → MainPlace → Process
at m p = record m { place = p }

unfoldable pub create : Process → ℕ → Process
create m i = record m {
  created = λ j. if i == j then true else m.created j;
  place = creating (suc i);
}

-- The thread that takes the step.
abbrev pub locked_runner : {n : ℕ} {s t : State} → LockedStep n s t → ℕ
locked_runner (acquire i below at_outside unlocked) = i
locked_runner (Jobs.LockedStep.work i below step) = i
locked_runner (release i below at_printed) = i

abbrev pub free_runner : {n : ℕ} {s t : State} → FreeStep n s t → ℕ
free_runner (begin i below at_outside) = i
free_runner (Jobs.FreeStep.work i below step) = i
free_runner (return i below at_printed) = i

-- What the two programs share: `n` threads are to be created, and `tid` has room for two.
pub data JoinStep (n : ℕ) (m : Process) : Process → Type 0 where
  create_thread : (i : ℕ) → m.place ≡ creating i → i < n → i < 2 → JoinStep n m (create m i)
  create_fails :
      (i : ℕ) → m.place ≡ creating i → i < n → i < 2 → JoinStep n m (at m (creating (suc i)))
  create_outside : (i : ℕ) → m.place ≡ creating i → i < n → 2 ≤ i → JoinStep n m (at m undefined)
  create_ends : (i : ℕ) → m.place ≡ creating i → n ≤ i → JoinStep n m (at m (joining 0))
  join :
      (i : ℕ)
      → m.place ≡ joining i
      → i < 2
      → m.created i ≡ true
      → m.threads.place i ≡ Jobs.Place.done
      → JoinStep n m (at m (joining (suc i)))
  join_unset :
      (i : ℕ) → m.place ≡ joining i → i < 2 → m.created i ≡ false → JoinStep n m (at m undefined)
  join_ends : m.place ≡ joining 2 → JoinStep n m (at m (returned 0))

pub data MutexStep (m : Process) : Process → Type 0 where
  init : m.place ≡ initializing → MutexStep m (at m (creating 0))
  init_fails : m.place ≡ initializing → MutexStep m (at m (returned 1))
  main : {q : Process} → JoinStep 2 m q → MutexStep m q
  thread :
      {t : State} (step : LockedStep 2 m.threads t)
      → m.created (locked_runner step) ≡ true
      → MutexStep m (record m { threads = t })

-- `n` is the number of processors.
pub data ProblemStep (n : ℕ) (m : Process) : Process → Type 0 where
  main : {q : Process} → JoinStep n m q → ProblemStep n m q
  thread :
      {t : State} (step : FreeStep n m.threads t)
      → m.created (free_runner step) ≡ true
      → ProblemStep n m (record m { threads = t })

abbrev pub process : MainPlace → Process
process p = record { threads = start; created = λ i. false; place = p }

pub data MutexReach : Process → Type 0 where
  here : MutexReach (process initializing)
  later : {m q : Process} → MutexReach m → MutexStep m q → MutexReach q

pub data ProblemReach (n : ℕ) : Process → Type 0 where
  here : ProblemReach n (process (creating 0))
  later : {m q : Process} → ProblemReach n m → ProblemStep n m q → ProblemReach n q
