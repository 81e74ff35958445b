-- ===== src/Jobs.antt =====
-- threads_mutex_example: threads that each count up one shared number and print it before and
-- after a long loop. mutex.c holds a mutex around all of it, problem.c does without.
pub mod Locked
pub mod Total
pub mod Unlocked
pub mod Main
pub mod Joined
pub mod Ends
pub mod Overrun
mod Tests
use making_chat_on_c.Base.{
  ℕ, suc, ◌+◌, ◌==◌, ◌<◌, ◌≡◌, Bool, true, false, List, [], ◌∷◌, ◌++◌, Option, none, some,
  if◌then◌else◌,
}

-- `Job %d started` and `Job %d finished`
pub data Line : Type 0 where
  started finished : ℕ → Line

-- Where a thread is in `doSomeThing`: before it, in `counter += 1` with the number that it has
-- read, before the first and the second `printf`, before the unlock, and past its return. The
-- empty loop over `i` has no effect and stands between the two `printf`.
pub data Place : Type 0 where
  outside : Place
  entered : Place
  loaded : ℕ → Place
  counted : Place
  looping : Place
  printed : Place
  done : Place

-- `lock` is the thread that holds the mutex.
pub record State : Type 0 where
  pub counter : ℕ
  pub lock : Option ℕ
  pub output : List Line
  pub place : ℕ → Place

unfoldable pub move : State → ℕ → Place → State
move s i p = record s { place = λ j. if i == j then p else s.place j }

abbrev pub start : State
start = record { counter = 0; lock = none; output = []; place = λ j. outside }

-- The body that both programs share, as thread `i` runs it.
pub data Work (i : ℕ) (s : State) : State → Type 0 where
  load : s.place i ≡ entered → Work i s (move s i (loaded s.counter))
  store : (n : ℕ) → s.place i ≡ loaded n → Work i s (move (record s { counter = n + 1 }) i counted)
  print_started :
      s.place i ≡ counted
      → Work i s (move (record s { output = s.output ++ started s.counter ∷ [] }) i looping)
  print_finished :
      s.place i ≡ looping
      → Work i s (move (record s { output = s.output ++ finished s.counter ∷ [] }) i printed)

-- `doSomeThing` of mutex.c, in `n` threads.
pub data LockedStep (n : ℕ) (s : State) : State → Type 0 where
  acquire :
      (i : ℕ)
      → i < n
      → s.place i ≡ outside
      → s.lock ≡ none
      → LockedStep n s (move (record s { lock = some i }) i entered)
  work : (i : ℕ) {t : State} → i < n → Work i s t → LockedStep n s t
  release :
      (i : ℕ)
      → i < n
      → s.place i ≡ printed
      → LockedStep n s (move (record s { lock = none }) i done)

-- `doSomeThing` of problem.c.
pub data FreeStep (n : ℕ) (s : State) : State → Type 0 where
  begin : (i : ℕ) → i < n → s.place i ≡ outside → FreeStep n s (move s i entered)
  work : (i : ℕ) {t : State} → i < n → Work i s t → FreeStep n s t
  return : (i : ℕ) → i < n → s.place i ≡ printed → FreeStep n s (move s i done)

pub data LockedReach (n : ℕ) : State → Type 0 where
  here : LockedReach n start
  later : {s t : State} → LockedReach n s → LockedStep n s t → LockedReach n t

pub data FreeReach (n : ℕ) : State → Type 0 where
  here : FreeReach n start
  later : {s t : State} → FreeReach n s → FreeStep n s t → FreeReach n t
