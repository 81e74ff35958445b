-- ===== src/Perf/Leaks.antt =====
-- What the test `mmap` of task3_making-chat-on-c/prartb_2.c leaves open, with data less than that of
-- the program.
use making_chat_on_c.Base.{
  ℕ, ◌+◌, ◌*◌, ◌≤◌, ◌≡◌, ◌≢◌, ◌∙◌, ◌==◌, ap, Bool, true, false, List, [], ◌∷◌, some, arith, ==_refl,
  take, if◌then◌else◌,
}
use making_chat_on_c.Checksum.{calculate_checksum, int_max}
use making_chat_on_c.Checksum.Sum.{filled_pairs, take-filled_pairs}
use making_chat_on_c.Os.Guarantee.{Ensures, Checks, Ensures-of_Checks}
use making_chat_on_c.Os.Ledger.{
  Ledger, ledger_step, Handle, descriptor, block, same_handle, drop_handle,
}
use making_chat_on_c.Perf.Local.{transmit_mmap}
use making_chat_on_c.Perf.Transfer.{Never}
use making_chat_on_c.Perf.Release.{checksum_fits, show_result-Checks}

abbrev pub is_held : Handle → List Handle → Bool
is_held h [] = false
is_held h (g ∷ gs) = if same_handle h g then true else is_held h gs

half_fits :
    (quarter : ℕ)
    → quarter * (65 * 257) ≤ int_max
    → (c : ℕ) × (calculate_checksum (take (quarter + quarter) (filled_pairs (quarter + quarter) 65))
        ≡ some c)
half_fits quarter small =
    let (c, e) = checksum_fits quarter small in
    (c, ap calculate_checksum (take-filled_pairs quarter quarter 65) ∙ e)

other : (fd sock : ℕ) → fd ≢ sock → (fd == sock) ≡ false
other fd sock h = ground arith

is_held_first :
    (sock : ℕ) (rest held : List Handle)
    → held ≡ descriptor sock ∷ rest
    → is_held (descriptor sock) held ≡ true
is_held_first sock rest held e = rw e (simp ==_refl)

is_held_after :
    (fd sock n : ℕ) (rest held : List Handle)
    → fd ≢ sock
    → held ≡ descriptor sock ∷ rest
    → is_held
        (descriptor sock)
        (drop_handle (descriptor fd) (drop_handle (block n) (block n ∷ held)))
      ≡ true
is_held_after fd sock n rest held differ e = rw e (simp (==_refl, other fd sock differ))

transmit_mmap-Checks :
    (quarter fd sock : ℕ) (quiet : Bool) (s : Ledger) (rest : List Handle)
    → quarter * (65 * 257) ≤ int_max
    → fd ≢ sock
    → s.held ≡ descriptor sock ∷ rest
    → Checks ledger_step
        (λ u t. is_held (descriptor sock) t.held ≡ true)
        Never
        s
        (transmit_mmap (quarter + quarter) fd sock quiet)
unfolding transmit_mmap
transmit_mmap-Checks quarter fd sock quiet s rest small differ open_sock =
    let (c, e) = half_fits quarter small in
    let first = is_held_first sock rest s.held open_sock in
    rw (e, Checks)
      (
        first,
        λ n start. (
          first,
          λ m le least finish.
              show_result-Checks (λ u t. is_held (descriptor sock) t.held ≡ true) _ quiet _ _ _
                (is_held_after fd sock n rest s.held differ open_sock),
        ),
      )

-- With data of which half the words fit an `int`, the client's transfer of the test `mmap` meets no
-- fault and never exits, but on every path, also when no call fails, it returns with its socket
-- still open.
pub transmit_mmap_leaks :
    (quarter fd sock : ℕ) (quiet : Bool) (s : Ledger) (rest : List Handle)
    → quarter * (65 * 257) ≤ int_max
    → fd ≢ sock
    → s.held ≡ descriptor sock ∷ rest
    → Ensures ledger_step
        (λ u t. is_held (descriptor sock) t.held ≡ true)
        Never
        s
        (transmit_mmap (quarter + quarter) fd sock quiet)
transmit_mmap_leaks quarter fd sock quiet s rest small differ open_sock =
    Ensures-of_Checks ledger_step (λ u t. is_held (descriptor sock) t.held ≡ true) Never s
      (transmit_mmap (quarter + quarter) fd sock quiet)
      (transmit_mmap-Checks quarter fd sock quiet s rest small differ open_sock)
