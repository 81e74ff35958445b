-- ===== src/Server/Release.antt =====
-- What the servers of task3_making-chat-on-c/server.c close, whatever the calls answer.
mod Loops
mod Transports
use making_chat_on_c.Base.{
  suc, lt→ltb, ℕ, ◌+◌, ◌*◌, ◌≤◌, ◌≡◌, ◌∙◌, refl, List, Option, none, some, arith, ==_refl, ◌++◌, [],
  ◌∷◌, Bool, true, false, ltb, length, get_elem?,
}
use making_chat_on_c.Base.Int.{ℤ}
use making_chat_on_c.Checksum.{int_max}
use making_chat_on_c.Os.{Text, Prog, ◌>>=◌}
use making_chat_on_c.Os.Guarantee.{Checks, Checks-bind}
use making_chat_on_c.Os.Ledger.{
  Ledger, ledger_step, LastsReads, Restores, ReleasesAll, Releases, ReleasesAll-of_Releases,
}
use making_chat_on_c.Server.Stream.{s_ipv4_tcp, s_ipv6_tcp, s_uds_stream, s_pipe}
use making_chat_on_c.Server.Datagram.{mmap_end, s_ipv4_udp, s_ipv6_udp, s_uds_dgram, s_mmap}
use making_chat_on_c.Server.Dispatch.{
  Protocol, ipv4_tcp, ipv4_udp, ipv6_tcp, ipv6_udp, mmap, pipe, uds_dgram, uds_stream, serve,
  serve_chosen, receive_words, word, server_main, choose,
}
use Transports.{serve-Releases, serve_chosen-Releases}

-- What `receive_words` leaves: the handles as they were, and no fewer reads.
abbrev Received : {A : Type 0} → Ledger → A → Ledger → Type 0
Received s a t = (t.held ≡ s.held) × (s.reads ≤ t.reads)

receive_words-Received :
    (bound : ℕ) (s : Ledger) → Checks ledger_step (Received s) (LastsReads bound) s receive_words
unfolding receive_words word
receive_words-Received bound s = (
  refl,
  λ server. (
    (
      (
        refl,
        λ client. (
          refl,
          (
            refl,
            (simp ==_refl, omega arith),
            λ b bs room.
                rw (lt→ltb (suc (length bs)) 1024 (omega arith)) (simp ==_refl, omega arith),
          ),
          λ b bs room. rw (lt→ltb (suc (length bs)) 1024 (omega arith)) (
            refl,
            (simp ==_refl, omega arith),
            λ c cs room'.
                rw (lt→ltb (suc (length cs)) 1024 (omega arith)) (simp ==_refl, omega arith),
          ),
        ),
      ),
      refl,
    ),
    refl,
  ),
)

-- Each of the eight servers meets no fault and closes every handle that it opens on every path
-- that returns, the error returns of `s_mmap` included, leaves by no `exit` but `exit(1)`, and runs
-- out of fuel only after as many calls that read.
-- Condition: at most 32768 rounds of its loop, so that no `int` total overflows.
pub serve-ReleasesAll :
    (fuel : ℕ) (garbage : List ℕ) (port : Text) (p : Protocol)
    → 65535 * fuel ≤ int_max
    → ReleasesAll fuel (serve fuel garbage port p)
serve-ReleasesAll fuel garbage port p short =
    ReleasesAll-of_Releases fuel (serve fuel garbage port p)
      (λ s. serve-Releases (fuel + s.reads) fuel short garbage port p s (omega arith))

-- `server_main` as a whole meets no fault, closes every handle before it returns, and exits with
-- no status but 1: with any command line, any two words and any answers of the calls. It runs out
-- of fuel only after as many calls that read. Condition: at most 32768 rounds of the loop of the chosen server.
pub server_main-ReleasesAll :
    (fuel : ℕ) (garbage : List ℕ) (argv : List Text)
    → 65535 * fuel ≤ int_max
    → ReleasesAll fuel (server_main fuel garbage argv)
unfolding server_main
server_main-ReleasesAll fuel garbage [] short s = refl
server_main-ReleasesAll fuel garbage (a ∷ []) short s = refl
server_main-ReleasesAll fuel garbage (a ∷ b ∷ []) short s = refl
server_main-ReleasesAll fuel garbage (a ∷ b ∷ c ∷ []) short s = refl
server_main-ReleasesAll fuel garbage (a ∷ b ∷ c ∷ d ∷ []) short s = refl
server_main-ReleasesAll fuel garbage (a ∷ b ∷ port ∷ d ∷ e ∷ rest) short s₀ =
    ReleasesAll-of_Releases fuel (server_main fuel garbage (a ∷ b ∷ port ∷ d ∷ e ∷ rest))
      (λ s.
        Checks-bind ledger_step (Received s) (LastsReads (fuel + s.reads)) (Restores s)
          (λ words. serve_chosen fuel garbage port (choose words.0 words.1))
          (λ (first, second) t kept.
            serve_chosen-Releases (fuel + s.reads) fuel short garbage port (choose first second) s t
              kept.0 (omega (arith, kept.1)))
          s receive_words (receive_words-Received (fuel + s.reads) s))
      s₀
