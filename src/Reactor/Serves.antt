-- ===== src/Reactor/Serves.antt =====
-- `startReactor` of task4_DesignPattern_Reactor/react_server.c while no connection hangs up.
use making_chat_on_c.Base.{ℕ, ◌==◌, ◌≡◌, refl, true, false, List, [], ◌∷◌, arith}
use making_chat_on_c.Os.Assume.{EnsuresIf-bind, Outcome, EndsAs, Run, Run-EndsAs}
use making_chat_on_c.Reactor.{Reactor, PollFd}
use making_chat_on_c.Reactor.Loop.{set_nonblocking, start_reactor}
use making_chat_on_c.Reactor.Serving.{Watch, watch_step, IsQuiet, Serving, Ends, Keeps, AllListener}
use making_chat_on_c.Reactor.Polls.{Stopped, LoopKeeps, loop-Keeps, set_nonblocking-Keeps}

-- The array that `main` allocates, with the listener in its first entry.
unfoldable pub first_entries : ℕ → List PollFd
first_entries listener =
    let unused : PollFd = record { fd = 0; revents = 0 } in
    record { fd = listener; revents = 0 } ∷ unused ∷ unused ∷ unused ∷ unused ∷ []

abbrev pub fresh_reactor : ℕ → Reactor
fresh_reactor listener = record {
  events = [];
  event_count = 0;
  running = false;
  pfds = first_entries listener;
  fd_count = 0;
  fd_size = 5;
}

-- Nothing has happened yet, but that the listener may have been closed before.
abbrev pub unwatched : List ℕ → Watch
unwatched closed = record { polls = 0; ids = []; closed = closed; freed = [] }

running_first-Serving :
    (listener : ℕ) (closed : List ℕ)
    → (0 == listener) ≡ false
    → AllListener listener closed
    → Serving listener
        (record (fresh_reactor listener) { running = true; fd_count = 1 })
        (unwatched closed)
unfolding first_entries
running_first-Serving listener closed real same = record {
  first = record { fd = listener; revents = 0 };
  rest = _;
  entries = refl;
  is_listener = refl;
  calm = refl;
  others = (refl, real, (refl, real, (refl, real, (refl, real, tt))));
  allocated = refl;
  within = omega arith;
  in_use = omega arith;
  registered = refl;
  counted = refl;
  few = omega arith;
  none_closed = same;
  none_freed = refl;
}

pub start_reactor-Keeps :
    (fuel listener : ℕ) (closed : List ℕ)
    → (0 == listener) ≡ false
    → AllListener listener closed
    → Keeps fuel listener
        (Stopped listener)
        (unwatched closed)
        (start_reactor fuel (fresh_reactor listener))
unfolding start_reactor first_entries LoopKeeps
start_reactor-Keeps fuel listener closed real same =
    EnsuresIf-bind watch_step (IsQuiet listener) (λ done t. t ≡ unwatched closed) (Ends fuel)
      (Stopped listener) _
      (λ done t at_start. rw at_start (
        loop-Keeps fuel listener real fuel _ (unwatched closed)
          (running_first-Serving listener closed real same) (omega arith)))
      (unwatched closed) (set_nonblocking listener)
      (set_nonblocking-Keeps fuel listener real listener (unwatched closed))

-- The reactor that `main` builds for a listener that is not descriptor 0 is started, after nothing
-- but the listener was closed, and runs to an end on answers where `poll` reports no error and no
-- hang-up of a descriptor, each message fits the buffers, `realloc` gives memory in which no such
-- report stands either, `accept` gives descriptors that are new and not the listener, and `socket`
-- gives the listener. Then no array was accessed outside its bounds and no `NULL` handler called.
-- When `startReactor` returned, the reactor is stopped, its array begins with the listener and has
-- `fd_size` entries, the `fd_count` in use among them, the table has exactly the accepted
-- descriptors in their order, none of which was closed, and nothing is freed. When the process
-- ended it was with status 1. When the fuel was used up, the rounds and the accepted descriptors
-- are together one less than it at least.
pub start_reactor_serves :
    (fuel listener : ℕ) (closed : List ℕ) (o : Outcome Reactor) (t : Watch)
    → (0 == listener) ≡ false
    → AllListener listener closed
    → Run watch_step
        (IsQuiet listener)
        (start_reactor fuel (fresh_reactor listener))
        (unwatched closed)
        o
        t
    → EndsAs (Stopped listener) (Ends fuel) o t
start_reactor_serves fuel listener closed o t real same =
    Run-EndsAs watch_step (IsQuiet listener) (Stopped listener) (Ends fuel) _ (unwatched closed) o t
      (start_reactor-Keeps fuel listener closed real same)
