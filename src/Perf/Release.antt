-- ===== src/Perf/Release.antt =====
-- What the tests of task3_making-chat-on-c/prartb_2.c close and free.
use making_chat_on_c.Base.{
  ℕ, ◌+◌, ◌*◌, ◌-◌, ◌<◌, ◌≤◌, ◌≡◌, refl, Bool, true, false, List, ◌++◌, some, length, arith, inl,
  inr, Option-cases, ==_refl, String, le→leb, take, drop,
}
use making_chat_on_c.Base.Int.{ℤ}
use making_chat_on_c.Checksum.{calculate_checksum, int_max}
use making_chat_on_c.Checksum.Sum.{filled_pairs, length-filled_pairs}
use making_chat_on_c.Checksum.Laws.{calculate_checksum_overflows, checksum_bytes}
use making_chat_on_c.Os.{Prog, Text, ◌>>=◌}
use making_chat_on_c.Os.Guarantee.{Ensures, Checks, Ensures-of_Checks}
use making_chat_on_c.Os.Ledger.{Ledger, ledger_step, Restores}
use making_chat_on_c.Perf.{store_at, show_result}
use making_chat_on_c.Perf.Inet.{
  transmit_ipv4_udp, transmit_ipv6_tcp, perform_ipv4_udp_client_test, perform_ipv6_tcp_client_test,
}
use making_chat_on_c.Perf.Transfer.{Never}

pub show_result-Checks :
    {B : Type 0} (P : B → Ledger → Type 0) (s : Ledger) (quiet : Bool) (name : String) (time : ℤ)
    (k : Unit {0} → Prog B)
    → Checks ledger_step P Never s (k tt)
    → Checks ledger_step P Never s (show_result quiet name time >>= k)
unfolding show_result
show_result-Checks P s true name time k h = h
show_result-Checks P s false name time k h = h

pub show_result_last :
    (P : Unit {0} → Ledger → Type 0) (s : Ledger) (quiet : Bool) (name : String) (time : ℤ)
    → P tt s
    → Checks ledger_step P Never s (show_result quiet name time)
unfolding show_result
show_result_last P s true name time h = h
show_result_last P s false name time h = h

pub checksum_fits :
    (half : ℕ)
    → half * (65 * 257) ≤ int_max
    → (c : ℕ) × (calculate_checksum (filled_pairs half 65) ≡ some c)
checksum_fits half small = elim (Option-cases (calculate_checksum (filled_pairs half 65))) [
  | inl e ↦ absurd (omega (arith, (calculate_checksum_overflows half 65).0 e))
  | inr found ↦ found
]

store_fits :
    (half c : ℕ)
    → 0 < half
    → (new : List ℕ) × (store_at (filled_pairs half 65) (2 * half - 2) (checksum_bytes c)
        ≡ some new)
unfolding store_at
store_fits half c some_data =
    let fits : 2 * half - 2 + 2 ≤ length (filled_pairs half 65) =
      omega (arith, length-filled_pairs half 65) in
    let data' = filled_pairs half 65 in
    (
      take (2 * half - 2) data' ++ checksum_bytes c ++ drop (2 * half - 2 + 2) data',
      rw (le→leb (2 * half - 2 + 2) (length (filled_pairs half 65)) fits) refl,
    )

module _ (half : ℕ) (small : half * (65 * 257) ≤ int_max) where
  ipv4_udp-Checks :
      (ip port : Text) (quiet : Bool) (s : Ledger)
      → Checks ledger_step (Restores s) Never s (perform_ipv4_udp_client_test half ip port quiet)
  unfolding perform_ipv4_udp_client_test transmit_ipv4_udp
  ipv4_udp-Checks ip port quiet s =
      let (c, e) = checksum_fits half small in
      rw (e, Checks)
        (
          refl,
          λ sock. (
            λ start. (
              simp ==_refl,
              λ n. (
                simp ==_refl,
                λ m. (
                  simp ==_refl,
                  λ finish. show_result_last (Restores s) _ quiet _ _ (simp ==_refl),
                  λ b bs room finish. show_result_last (Restores s) _ quiet _ _ (simp ==_refl),
                ),
              ),
            ),
            simp ==_refl,
          ),
        )

  ipv6_tcp-Checks :
      0 < half
      → (ip port : Text) (quiet : Bool) (s : Ledger)
      → Checks ledger_step (Restores s) Never s (perform_ipv6_tcp_client_test half ip port quiet)
  unfolding perform_ipv6_tcp_client_test transmit_ipv6_tcp
  ipv6_tcp-Checks some_data ip port quiet s =
      let (c, e) = checksum_fits half small in
      let (new, f) = store_fits half c some_data in
      rw (e, f, Checks)
        (
          refl,
          λ sock. (
            (
              (
                simp ==_refl,
                λ p start. (
                  simp ==_refl,
                  λ n le least finish. show_result-Checks (Restores s) _ quiet _ _ _ (simp ==_refl),
                ),
              ),
              simp ==_refl,
            ),
            simp ==_refl,
          ),
        )

-- With data whose words fit an `int`, unlike those of the program, the tests `ipv4_udp` and
-- `ipv6_tcp` meet no fault, never exit, and on every path close and free what they opened.
perform-Restores :
    (half : ℕ) (ip port : Text) (quiet : Bool) (s : Ledger)
    → 0 < half
    → half * (65 * 257) ≤ int_max
    → Ensures ledger_step (Restores s) Never s (perform_ipv4_udp_client_test half ip port quiet)
      × Ensures ledger_step (Restores s) Never s (perform_ipv6_tcp_client_test half ip port quiet)
perform-Restores half ip port quiet s some_data small = (
  Ensures-of_Checks ledger_step (Restores s) Never s
      (perform_ipv4_udp_client_test half ip port quiet)
      (ipv4_udp-Checks half small ip port quiet s),
  Ensures-of_Checks ledger_step (Restores s) Never s
      (perform_ipv6_tcp_client_test half ip port quiet)
      (ipv6_tcp-Checks half small some_data ip port quiet s),
)
