-- ===== src/Jobs/Overrun.antt =====
-- `main` of threads_mutex_example/problem.c by the number of processors.
use making_chat_on_c.Base.{ℕ, ◌<◌, ◌≤◌, ◌≡◌, ◌≢◌, true, arith}
use making_chat_on_c.Jobs.Main
use making_chat_on_c.Jobs.Main.{
  MainPlace, creating, joining, returned, undefined, Process, create, JoinStep, create_thread,
  create_fails, create_outside, create_ends, join, join_unset, join_ends, ProblemStep, ProblemReach,
}

-- Only the threads below the number of processors are created, and only two joins lead on.
pub record IsCounted (n : ℕ) (m : Process) : Type 0 where
  pub room : (i : ℕ) → m.place ≡ creating i → i ≤ 2
  pub few : (i : ℕ) → m.place ≡ joining i → n ≤ 2
  pub joined : (i j : ℕ) → m.place ≡ joining i → j < i → j < n
  pub over : (status : ℕ) → m.place ≡ returned status → n ≡ 2
  pub made : (j : ℕ) → m.created j ≡ true → j < n

module _ {n : ℕ} where
  JoinStep-IsCounted : {m q : Process} → JoinStep n m q → IsCounted n m → IsCounted n q
  unfolding create
  JoinStep-IsCounted (create_thread i e below space) h = record {
    room = λ j f. ground arith;
    few = λ j f. cc;
    joined = λ j k f less. cc;
    over = λ j f. cc;
    made = λ j f. ground (arith, h.made j);
  }
  JoinStep-IsCounted (create_fails i e below space) h = record {
    room = λ j f. ground arith;
    few = λ j f. cc;
    joined = λ j k f less. cc;
    over = λ j f. cc;
    made = h.made;
  }
  JoinStep-IsCounted (create_outside i e below space) h = record {
    room = λ j f. cc;
    few = λ j f. cc;
    joined = λ j k f less. cc;
    over = λ j f. cc;
    made = h.made;
  }
  JoinStep-IsCounted (create_ends i e enough) h = record {
    room = λ j f. cc;
    few = λ j f. omega (arith, h.room i e);
    joined = λ j k f less. absurd (ground arith);
    over = λ j f. cc;
    made = h.made;
  }
  JoinStep-IsCounted (join i e below was_made is_done) h = record {
    room = λ j f. cc;
    few = λ j f. h.few i e;
    joined = λ j k f less. ground (arith, h.joined i k e, h.made i was_made);
    over = λ j f. cc;
    made = h.made;
  }
  JoinStep-IsCounted (join_unset i e below unset) h = record {
    room = λ j f. cc;
    few = λ j f. cc;
    joined = λ j k f less. cc;
    over = λ j f. cc;
    made = h.made;
  }
  JoinStep-IsCounted (join_ends e) h = record {
    room = λ j f. cc;
    few = λ j f. cc;
    joined = λ j k f less. cc;
    over = λ j f. omega (arith, h.few 2 e, h.joined 2 1 e (omega arith));
    made = h.made;
  }

  Reach-IsCounted : {m : Process} → ProblemReach n m → IsCounted n m
  Reach-IsCounted Main.ProblemReach.here = record {
    room = λ i e. ground arith;
    few = λ i e. cc;
    joined = λ i j e less. cc;
    over = λ i e. cc;
    made = λ j e. cc;
  }
  Reach-IsCounted (Main.ProblemReach.later r (Main.ProblemStep.main step)) =
      JoinStep-IsCounted step (Reach-IsCounted r)
  Reach-IsCounted (Main.ProblemReach.later r (Main.ProblemStep.thread step was_made)) =
      let h = Reach-IsCounted r in
      record { room = h.room; few = h.few; joined = h.joined; over = h.over; made = h.made }

-- `main` of problem.c returns on machines with exactly two processors only: with any other number
-- no state is reachable in which it has returned, since it writes behind `tid` or joins a thread
-- that it did not create.
pub problem_main_needs_two :
    {n : ℕ} {m : Process} → ProblemReach n m → n ≢ 2 → (status : ℕ) → m.place ≢ returned status
problem_main_needs_two r other status e = other ((Reach-IsCounted r).over status e)
