-- ===== src/Reactor/Serving.antt =====
-- The state of task4_DesignPattern_Reactor/react_server.c between two rounds, and what its
-- environment does while no connection hangs up.
use making_chat_on_c.Base.{
  ℕ, zero, suc, ◌+◌, ◌-◌, ◌==◌, ◌<◌, ◌≤◌, ◌≡◌, ◌∙◌, ap, true, false, List, [], ◌∷◌, ◌++◌, Option,
  none, some, length, get_elem?, set, map, arith,
}
use making_chat_on_c.Os.{
  Call, Answer, Prog, accept, poll, recv, realloc, socket, close, free_part, Part,
}
use making_chat_on_c.Os.Assume.{EnsuresIf}
use making_chat_on_c.Reactor.{Reactor, PollFd, Event}
use making_chat_on_c.Reactor.Loop.{fits_buffers}
use making_chat_on_c.Reactor.Calm.{IsCalm, AllCalm, AllOthers, IsFresh}

-- The rounds, the descriptors that `accept` has given, oldest first, and, newest first, those that
-- were closed and what of the reactor was freed.
pub record Watch : Type 0 where
  pub polls : ℕ
  pub ids : List ℕ
  pub closed : List ℕ
  pub freed : List Part

abbrev pub watch_step : (c : Call) → Answer c → Watch → Watch
watch_step (poll fds timeout) r w = record w { polls = suc w.polls }
watch_step (accept fd) (some newfd) w = record w { ids = w.ids ++ newfd ∷ [] }
watch_step (close fd) r w = record w { closed = fd ∷ w.closed }
watch_step (free_part part) r w = record w { freed = part ∷ w.freed }
watch_step c r w = w

-- `poll` reports no error and no hang-up, memory does not run out where the arrays grow and holds
-- no such report either, the messages fit the buffers, `socket` gives the listener, and `accept`
-- gives other descriptors, each once: no connection is closed.
abbrev pub IsQuiet : ℕ → Watch → (c : Call) → Answer c → Type 0
IsQuiet listener w (poll fds timeout) (some revents) = AllCalm revents
IsQuiet listener w (recv fd room) (some (b ∷ bs)) = fits_buffers fd (b ∷ bs) ≡ true
IsQuiet listener w (accept fd) (some newfd) = IsFresh newfd w.ids × ((newfd == listener) ≡ false)
IsQuiet listener w (socket family kind) (some fd) = fd ≡ listener
IsQuiet listener w (realloc n) none = ⊥
IsQuiet listener w (realloc n) (some memory) = AllCalm memory
IsQuiet listener w c r = Unit {0}

-- Nothing but the listener.
abbrev pub AllListener : ℕ → List ℕ → Type 0
AllListener listener [] = Unit {0}
AllListener listener (fd ∷ fds) = (fd ≡ listener) × AllListener listener fds

-- The array has the listener first and calm entries for other descriptors behind it, and the table
-- has exactly the descriptors that were accepted.
pub record Serving (listener : ℕ) (r : Reactor) (w : Watch) : Type 0 where
  pub first : PollFd
  pub rest : List PollFd
  pub entries : r.pfds ≡ first ∷ rest
  pub is_listener : first.fd ≡ listener
  pub calm : IsCalm first.revents
  pub others : AllOthers listener rest
  pub allocated : length r.pfds ≡ r.fd_size
  pub within : r.fd_count ≤ r.fd_size
  pub in_use : 0 < r.fd_count
  pub registered : map (λ (e : Event). e.id) r.events ≡ w.ids
  pub counted : r.event_count ≡ length r.events
  pub few : r.fd_count ≤ suc (length w.ids)
  pub none_closed : AllListener listener w.closed
  pub none_freed : w.freed ≡ []

-- The bound on the fuel, which no run of fewer calls uses up.
abbrev pub Ends : ℕ → Option ℕ → Watch → Type 0
Ends fuel none w = fuel ≤ w.polls + suc (length w.ids)
Ends fuel (some status) w = status ≡ 1

-- `m` on such answers from the state `w` of the watch.
abbrev pub Keeps : ℕ → ℕ → {A : Type 0} → (A → Watch → Type 0) → Watch → Prog A → Type 0
Keeps fuel listener P w m = EnsuresIf watch_step (IsQuiet listener) P (Ends fuel) w m

pub set_behind :
    (es : List PollFd) (first : PollFd) (rest : List PollFd) (n : ℕ) (v : PollFd)
    → es ≡ first ∷ rest
    → 0 < n
    → set es n v ≡ first ∷ set rest (n - 1) v
set_behind es first rest zero v e h = absurd (omega arith)
set_behind es first rest (suc n) v e h =
    let same : n ≡ suc n - 1 = omega arith in
    ap (λ l. set l (suc n) v) e ∙ ap (λ k. first ∷ set rest k v) same

pub get_behind :
    (es : List PollFd) (first : PollFd) (rest : List PollFd) (n : ℕ)
    → es ≡ first ∷ rest
    → 0 < n
    → get_elem? es n ≡ get_elem? rest (n - 1)
get_behind es first rest zero e h = absurd (omega arith)
get_behind es first rest (suc n) e h =
    let same : n ≡ suc n - 1 = omega arith in
    ap (λ l. get_elem? l (suc n)) e ∙ ap (get_elem? rest) same
