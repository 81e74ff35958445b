-- ===== src/Link/Datagrams.antt =====
-- A run of `c_ipv4_udp` of task3_making-chat-on-c/client.c, and `s_ipv4_udp` of server.c on what it
-- sent.
use making_chat_on_c.Base.{
  ℕ, suc, ◌<◌, ◌≤◌, ◌≡◌, ◌∙◌, refl, sym, ap, true, false, List, [], ◌∷◌, ◌++◌, Option, some, length,
  map, reads_as, overwrite, c_string, arith, length-map,
}
use mathlib.Core.List.{reverse, map-append, reverse-append}
use making_chat_on_c.Os.{
  Call, Answer, Text, Prog, ret, exit, fault, spin, call, socket, setsockopt, bind, gettimeofday,
  elapsed, Domain, Kind, any_host, parsed,
}
use making_chat_on_c.Os.Guarantee.{Ensures}
use making_chat_on_c.Os.Assume.{EnsuresIf, Run, Run-EndsAs, returned}
use making_chat_on_c.Os.Ledger.{Ledger, ledger_step, LastsReads}
use making_chat_on_c.Os.Feed.{feed}
use making_chat_on_c.Client.Lines.{c_ipv4_udp, exit_line}
use making_chat_on_c.Client.Sends.{fresh, ByLineAndExit, c_udp-Sends}
use making_chat_on_c.Server.Datagram.{dgram_loop, s_ipv4_udp}
use making_chat_on_c.Server.Delivery.{AreData, bytes_total, s_ipv4_udp_receives_all}

-- Any answer that the calls document.
abbrev pub Anything : Ledger → (c : Call) → Answer c → Type 0
Anything s c r = Unit {0}

Ensures-EnsuresIf :
    {A : Type 0} (P : A → Ledger → Type 0) (E : Option ℕ → Ledger → Type 0) (s : Ledger)
    (m : Prog A)
    → Ensures ledger_step P E s m
    → EnsuresIf ledger_step Anything P E s m
Ensures-EnsuresIf P E s (ret a) h = h
Ensures-EnsuresIf P E s (exit n) h = h
Ensures-EnsuresIf P E s fault h = h
Ensures-EnsuresIf P E s spin h = h
Ensures-EnsuresIf P E s (call c k) h =
    λ r legal any. Ensures-EnsuresIf P E (ledger_step c r s) (k r) (h r legal)

-- Oldest first, the lines and then the exit message.
sent_in_order :
    (taken : List (List ℕ))
    → reverse (exit_line ∷ map c_string taken) ≡ map c_string (reverse taken) ++ exit_line ∷ []
sent_in_order taken =
    reverse-append (exit_line ∷ []) (map c_string taken)
    ∙ ap (λ l. l ++ exit_line ∷ []) (sym (map-reverse taken))
  where
    map-reverse :
        (lines : List (List ℕ)) → map c_string (reverse lines) ≡ reverse (map c_string lines)
    map-reverse [] = refl
    map-reverse (line ∷ lines) =
        ap (map c_string) (reverse-append (line ∷ []) lines)
        ∙ map-append c_string (reverse lines) (line ∷ [])
        ∙ ap (λ l. l ++ c_string line ∷ []) (map-reverse lines)
        ∙ sym (reverse-append (c_string line ∷ []) (map c_string lines))

pub c_udp-EnsuresIf :
    (fuel : ℕ) (ip port : Text)
    → EnsuresIf ledger_step Anything
        (λ a t. (t.held ≡ []) × ByLineAndExit a t.taken t.handed)
        (LastsReads fuel)
        fresh
        (c_ipv4_udp fuel ip port)
c_udp-EnsuresIf fuel ip port =
    Ensures-EnsuresIf (λ a t. (t.held ≡ []) × ByLineAndExit a t.taken t.handed) (LastsReads fuel)
      fresh (c_ipv4_udp fuel ip port) (c_udp-Sends fuel ip port).0

-- A run of `c_ipv4_udp` that returns has closed its file and its socket and returns 0. When the
-- network then brings each of its datagrams once and in order, a server whose setup calls succeed
-- counts the bytes of every line the client read, and `s_ipv4_udp` returns the time measured. The
-- client has read at least one line; the first fits in 1024 bytes and, over what the buffer held,
-- does not read as the exit message; the others are data for the loop and fewer than 32768; and
-- the server's fuel exceeds the number of lines.
pub udp_arrives :
    (answer : (c : Call) → Answer c) (client_fuel server_fuel fd status : ℕ)
    (garbage first : List ℕ) (lines : List (List ℕ)) (ip port : Text) (t : Ledger)
    → Run ledger_step Anything (c_ipv4_udp client_fuel ip port) fresh (returned status) t
    → reverse t.taken ≡ first ∷ lines
    → answer (socket Domain.inet Kind.dgram) ≡ some fd
    → answer (setsockopt fd) ≡ true
    → answer (bind fd (any_host (parsed port))) ≡ true
    → length (c_string first) ≤ 1024
    → reads_as (overwrite garbage (c_string first)) "exit\n" ≡ false
    → AreData (map c_string lines)
    → length lines < 32768
    → suc (length lines) < server_fuel
    → (t.held ≡ [])
      × (status ≡ 0)
      × (feed answer (reverse t.handed) (dgram_loop server_fuel fd garbage 0 0)
          ≡ some (bytes_total (map c_string (first ∷ lines)), []))
      × (feed answer (reverse t.handed) (s_ipv4_udp server_fuel garbage port)
          ≡ some (elapsed (answer gettimeofday) (answer gettimeofday), []))
udp_arrives answer client_fuel server_fuel fd status garbage first lines ip port t run in_order
      opened set bound short no_exit are few enough =
    let (closed, (zero_status, sent)) =
      Run-EndsAs ledger_step Anything (λ a t. (t.held ≡ []) × ByLineAndExit a t.taken t.handed)
        (LastsReads client_fuel) (c_ipv4_udp client_fuel ip port) fresh (returned status) t
        (c_udp-EnsuresIf client_fuel ip port) run in
    let arrives : reverse t.handed ≡ c_string first ∷ (map c_string lines ++ exit_line ∷ []) =
      ap reverse sent
      ∙ sent_in_order t.taken
      ∙ ap (λ l. map c_string l ++ exit_line ∷ []) in_order in
    let (loop_counts, server_returns) =
      s_ipv4_udp_receives_all answer server_fuel fd garbage (c_string first) (map c_string lines)
        port opened set bound short no_exit are (omega (arith, length-map c_string lines))
        (omega (arith, length-map c_string lines)) in
    (closed, zero_status, rw arrives loop_counts, rw arrives server_returns)
