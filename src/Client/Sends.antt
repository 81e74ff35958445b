-- ===== src/Client/Sends.antt =====
-- What the clients of task3_making-chat-on-c/client.c hand over of what they read, and what they
-- close.
use making_chat_on_c.Base.{
  ℕ, zero, suc, ◌+◌, ◌≤◌, ◌≡◌, refl, ap, List, [], ◌∷◌, arith, ==_refl, c_string, map, take, length,
  ◌<◌,
}
use making_chat_on_c.Base.Int.{ℤ, pos, negsuc}
use making_chat_on_c.Os.{Text, Prog, ◌>>=◌, Address, host, parsed}
use making_chat_on_c.Os.Guarantee.{Ensures, Checks, Ensures-of_Checks}
use making_chat_on_c.Os.Ledger.{Ledger, ledger_step, LastsReads, Handle}
use making_chat_on_c.Client.Lines.{sendto_lines, c_ipv4_udp, c_ipv6_udp, exit_line}

-- A process that has opened nothing and moved no data.
abbrev pub fresh : Ledger
fresh = record { held = []; taken = []; handed = []; reads = 0 }

-- The program meets no fault, exits with no status but 1, and when it returns `a` everything that
-- it opened is closed and what it handed over is as stated of what it took.
-- The program runs out of `fuel` only if it makes at least that many calls that read.
abbrev pub Sends : {A : Type 0} → ℕ → (A → List (List ℕ) → List (List ℕ) → Type 0) → Prog A → Type 0
Sends fuel R m =
    Ensures ledger_step (λ a t. (t.held ≡ []) × R a t.taken t.handed) (LastsReads fuel) fresh m

-- Of each block in turn a first part was taken, of one that is not empty a byte at least.
abbrev pub Pieces : List (List ℕ) → List (List ℕ) → Type 0
Pieces [] [] = Unit {0}
Pieces [] (block ∷ blocks) = ⊥
Pieces (piece ∷ pieces) [] = ⊥
Pieces (piece ∷ pieces) (block ∷ blocks) =
    ((n : ℕ) × (piece ≡ take n block) × (n ≤ length block) × (0 < length block → 0 < n))
    × Pieces pieces blocks

-- The text of each line up to its first zero, which is what `strlen` measures; newest first.
abbrev pub ByLine : ℕ → List (List ℕ) → List (List ℕ) → Type 0
ByLine status taken handed = (status ≡ 0) × Pieces handed (map c_string taken)

abbrev pub ByLineAndExit : ℕ → List (List ℕ) → List (List ℕ) → Type 0
ByLineAndExit status taken handed = (status ≡ 0) × (handed ≡ exit_line ∷ map c_string taken)

-- A return of 0 means that a part of every block went out, and one of -1 is the only other.
abbrev pub BlockByBlock : ℤ → List (List ℕ) → List (List ℕ) → Type 0
BlockByBlock (pos n) taken handed = (n ≡ 0) × Pieces handed taken
BlockByBlock (negsuc n) taken handed = n ≡ 0

module _ (total : ℕ) {B : Type 0} (Q : B → Ledger → Type 0) (held : List Handle) where
  module _ (f : Unit {0} → Prog B)
      (next : (t : Ledger)
        → t.held ≡ held
        → t.handed ≡ map c_string t.taken
        → Checks ledger_step Q (LastsReads total) t (f tt))
      (fd input : ℕ) where
    sendto_lines-Checks :
        (fuel : ℕ) (address : Address) (s : Ledger)
        → s.held ≡ held
        → s.handed ≡ map c_string s.taken
        → total ≤ fuel + s.reads
        → Checks ledger_step Q (LastsReads total) s (sendto_lines fuel fd input address >>= f)
    unfolding sendto_lines
    sendto_lines-Checks zero address s e h enough = omega (arith, enough)
    sendto_lines-Checks (suc fuel) address s e h enough = (
      next _ e h,
      λ b bs room. (
        refl,
        λ n.
            sendto_lines-Checks fuel address _ e (ap (λ l. c_string (b ∷ bs) ∷ l) h)
              (omega (arith, enough)),
      ),
    )

abbrev CopyDone : ℤ → Ledger → Type 0
CopyDone a t = (t.held ≡ []) × BlockByBlock a t.taken t.handed

pub c_udp-Sends :
    (fuel : ℕ) (ip port : Text)
    → Sends fuel ByLineAndExit (c_ipv4_udp fuel ip port)
      × Sends fuel ByLineAndExit (c_ipv6_udp fuel ip port)
unfolding c_ipv4_udp c_ipv6_udp
c_udp-Sends fuel ip port = (
  Ensures-of_Checks ledger_step _ (LastsReads fuel) fresh (c_ipv4_udp fuel ip port) (
    refl,
    λ fd. (
      refl,
      λ input.
          sendto_lines-Checks fuel _ _ _
            (λ t e h. (refl, λ n. (simp (e, ==_refl), (refl, ap (λ l. exit_line ∷ l) h)))) fd input
            fuel (host ip (parsed port)) _ refl refl (omega arith),
    ),
  ),
  Ensures-of_Checks ledger_step _ (LastsReads fuel) fresh (c_ipv6_udp fuel ip port) (
    refl,
    λ fd. (
      refl,
      λ input.
          sendto_lines-Checks fuel _ _ _
            (λ t e h. (refl, λ n. (simp (e, ==_refl), (refl, ap (λ l. exit_line ∷ l) h)))) fd input
            fuel (host ip (parsed port)) _ refl refl (omega arith),
    ),
  ),
)
