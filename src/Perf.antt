-- ===== src/Perf.antt =====
-- The performance tests of task3_making-chat-on-c/prartb_2.c: what their functions share. The
-- amount of data, `DATA_SIZE`, is `2 * half` bytes.
pub mod Inet
pub mod Local
pub mod Server
pub mod Transfer
pub mod Overflow
pub mod Release
pub mod Leaks
mod Tests
use making_chat_on_c.Base.{
  ℕ, zero, suc, ◌+◌, ◌*◌, ◌==◌, Bool, true, false, List, [], ◌∷◌, ◌++◌, Option, none, some, String,
  length, take, drop, leb, if◌then◌else◌,
}
use making_chat_on_c.Base.Int.{ℤ}
use making_chat_on_c.Os.{
  Prog, ret, fault, spin, ◌>>=◌, ◌>>◌, sys, perror, print, report, send, write,
}

-- A call that failed, with what is done before the `return`.
abbrev pub or_return : {A B : Type 0} → Option A → Prog B → (A → Prog B) → Prog B
or_return none stop k = stop
or_return (some a) stop k = k a

abbrev pub check_or_return : {B : Type 0} → Bool → Prog B → Prog B → Prog B
check_or_return false stop k = stop
check_or_return true stop k = k

abbrev pub stop : String → Prog (Unit {0})
stop text = do sys (perror text); ret tt

-- `memset` through a pointer that was not tested.
abbrev pub filled : {B : Type 0} → Option ℕ → (ℕ → Prog B) → Prog B
filled none k = fault
filled (some block) k = k block

-- `memcpy` to a place in a block of memory; `none` is a write outside of it.
unfoldable pub store_at : List ℕ → ℕ → List ℕ → Option (List ℕ)
store_at block offset bytes =
    if leb (offset + length bytes) (length block)
    then some (take offset block ++ bytes ++ drop (offset + length bytes) block)
    else none

unfoldable pub show_result : Bool → String → ℤ → Prog (Unit {0})
show_result quiet name time =
    if quiet then sys (report name time) else (do sys (print name []); sys (report name time))

-- The loop of `perform_server_performance_test` and of `perform_pipe_client_test`: `true` when all
-- is written. Fuel of one round more than there are bytes is enough.
unfoldable pub write_all : ℕ → ℕ → List ℕ → Prog Bool
write_all zero fd bytes = spin
write_all (suc fuel) fd bytes = elim (length bytes == 0) [
  | true ↦ ret true
  | false ↦ do
    written ← sys (write fd bytes)
    elim written [
      | none ↦ do sys (perror "write"); ret false
      | some n ↦ write_all fuel fd (drop n bytes)
    ]
]

-- The loop of `perform_uds_stream_client_test`.
unfoldable pub send_all : ℕ → ℕ → List ℕ → Prog Bool
send_all zero fd bytes = spin
send_all (suc fuel) fd bytes = elim (length bytes == 0) [
  | true ↦ ret true
  | false ↦ do
    sent ← sys (send fd bytes)
    elim sent [
      | none ↦ do sys (perror "send"); ret false
      | some n ↦ send_all fuel fd (drop n bytes)
    ]
]
