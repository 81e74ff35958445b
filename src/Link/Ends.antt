-- ===== src/Link/Ends.antt =====
-- What a client and a server of task3_making-chat-on-c come to on one stream.
use making_chat_on_c.Base.{
  ℕ, ◌+◌, ◌≤◌, ◌≡◌, ◌⊎◌, inl, inr, ◌∙◌, refl, sym, ap, Bool, true, false, ◌||◌, List, [], ◌∷◌, ◌++◌,
  Option, none, some, length, length-append, arith,
}
use mathlib.Core.Path.{subst}
use making_chat_on_c.Os.{Call, Answer, Text, Prog, ret, exit, fault, spin, call}
use making_chat_on_c.Os.Guarantee.{Ensures}
use making_chat_on_c.Client.Lines.{c_ipv4_tcp, c_uds_stream}
use making_chat_on_c.Server.Stream.{ipv4_tcp_loop, uds_stream_loop}
use making_chat_on_c.Link.{
  Tally, tally_step, text_total, Link, LinkStep, client_step, client_exits, server_step, LinkReach,
  met, goes, connected, sent_by, brought_by, ended_by, closed_by,
}
use making_chat_on_c.Link.Sides.{
  ClientReturns, ClientStops, ServerReturns, ServerStops, c_ipv4_tcp-Ensures, c_uds_stream-Ensures,
  ipv4_tcp_loop-Ensures, uds_stream_loop-Ensures,
}

-- After the end of the stream the client puts nothing into it.
still_drained :
    {pipe : List ℕ} {shut : Bool} (c : Call) (r : Answer c)
    → ((shut ≡ false) ⊎ (sent_by c r ≡ []))
    → (pipe ≡ []) × (shut ≡ true)
    → (pipe ++ sent_by c r ≡ []) × ((shut || closed_by c) ≡ true)
still_drained c r (inl at_work) (empty, is_shut) = absurd cc
still_drained c r (inr nothing) (empty, is_shut) =
    (ap (λ l. l ++ sent_by c r) empty ∙ nothing, ap (λ b. b || closed_by c) is_shut)

nothing_behind : (bytes rest : List ℕ) → bytes ++ rest ≡ [] → rest ≡ []
nothing_behind [] rest e = e
nothing_behind (b ∷ bytes) rest e = absurd cc

drained_after :
    (l : Link) (c : Call) (r : Answer c) (rest : List ℕ)
    → l.pipe ≡ brought_by c r ++ rest
    → ((ended_by c r ≡ false) ⊎ ((l.shut ≡ true) × (rest ≡ [])))
    → (l.of_server.ended ≡ true → (l.pipe ≡ []) × (l.shut ≡ true))
    → (l.of_server.ended || ended_by c r) ≡ true
    → (rest ≡ []) × (l.shut ≡ true)
drained_after l c r rest brought (inr (is_shut, none_left)) before ended = (none_left, is_shut)
drained_after l c r rest brought (inl not_now) before ended =
    let (empty, is_shut) = before (ended_before l.of_server.ended (ended_by c r) not_now ended) in
    (nothing_behind (brought_by c r) rest (sym brought ∙ empty), is_shut)
  where
    ended_before : (b e : Bool) → e ≡ false → (b || e) ≡ true → b ≡ true
    ended_before true e not_now h = refl
    ended_before false e not_now h = sym not_now ∙ h

-- How a program ends; one that is at a call has not.
abbrev pub EndsWith :
    {S : Type 0} → (ℕ → S → Type 0) → (Option ℕ → S → Type 0) → Prog ℕ → S → Type 0
EndsWith P E (ret a) t = P a t
EndsWith P E (exit n) t = E (some n) t
EndsWith P E fault t = ⊥
EndsWith P E spin t = E none t
EndsWith P E (call c k) t = Unit {0}

Ensures-EndsWith :
    (P : ℕ → Tally → Type 0) (E : Option ℕ → Tally → Type 0) (m : Prog ℕ) (t : Tally)
    → Ensures tally_step P E t m
    → EndsWith P E m t
Ensures-EndsWith P E (ret a) t h = h
Ensures-EndsWith P E (exit n) t h = h
Ensures-EndsWith P E fault t h = h
Ensures-EndsWith P E spin t h = h
Ensures-EndsWith P E (call c k) t h = tt

-- The loop of a server returns all bytes that the client has sent, and leaves none.
abbrev pub CountsAll : ℕ → Link → Type 0
CountsAll total l = (total ≡ l.of_client.sent) × (l.pipe ≡ [])

abbrev pub CountStops : ℕ → Option ℕ → Link → Type 0
CountStops fuel none l = fuel ≤ l.of_client.sent
CountStops fuel (some status) l = status ≡ 1

-- When both have returned, the count and what `send` has not taken are the text of the file.
abbrev pub BothReturn : Prog ℕ → Prog ℕ → Tally → Type 0
BothReturn (ret status) (ret total) t = total + t.skipped ≡ text_total t.lines
BothReturn client server t = Unit {0}

-- A client and the loop of the server that it meets.
pub data Pair (client_fuel server_fuel : ℕ) : Prog ℕ → Prog ℕ → Type 0 where
  tcp :
      (ip port : Text) (server client : ℕ)
      → Pair client_fuel server_fuel
          (c_ipv4_tcp client_fuel ip port)
          (ipv4_tcp_loop server_fuel server client 0)
  uds :
      (client : ℕ)
      → Pair client_fuel server_fuel
          (c_uds_stream client_fuel)
          (uds_stream_loop server_fuel client 0)

module _ (client_fuel server_fuel : ℕ) where
  -- Each side keeps its guarantee, and no byte is lost or made up between them.
  record Kept (l : Link) : Type 0 where
    of_client : Ensures tally_step ClientReturns (ClientStops client_fuel) l.of_client l.client
    of_server : Ensures tally_step ServerReturns (ServerStops server_fuel) l.of_server l.server
    conserved : l.of_server.received + length l.pipe ≡ l.of_client.sent
    drained : l.of_server.ended ≡ true → (l.pipe ≡ []) × (l.shut ≡ true)

  LinkStep-Kept : {l m : Link} → LinkStep l m → Kept l → Kept m
  LinkStep-Kept {l} (client_step {c} {k} r e legal may) h = record {
    of_client =
        subst (λ m. Ensures tally_step ClientReturns (ClientStops client_fuel) l.of_client m) e
          h.of_client r legal;
    of_server = h.of_server;
    conserved = omega (arith, h.conserved, length-append l.pipe (sent_by c r));
    drained = λ ended. still_drained c r may (h.drained ended);
  }
  LinkStep-Kept {l} (client_exits status e) h = record {
    of_client = h.of_client;
    of_server = h.of_server;
    conserved = h.conserved;
    drained = λ ended. let (empty, shut) = h.drained ended in (empty, refl);
  }
  LinkStep-Kept {l} (server_step {c} {k} r rest e legal brought may) h = record {
    of_client = h.of_client;
    of_server =
        subst (λ m. Ensures tally_step ServerReturns (ServerStops server_fuel) l.of_server m) e
          h.of_server r legal;
    conserved = omega (arith, h.conserved, ap length brought, length-append (brought_by c r) rest);
    drained = drained_after l c r rest brought may h.drained;
  }

  start-Kept :
      {client server : Prog ℕ}
      → Pair client_fuel server_fuel client server
      → Kept (connected client server)
  start-Kept (tcp ip port server client) = record {
    of_client = c_ipv4_tcp-Ensures client_fuel ip port;
    of_server = ipv4_tcp_loop-Ensures server_fuel server client;
    conserved = refl;
    drained = λ ended. absurd cc;
  }
  start-Kept (uds client) = record {
    of_client = c_uds_stream-Ensures client_fuel;
    of_server = uds_stream_loop-Ensures server_fuel client;
    conserved = refl;
    drained = λ ended. absurd cc;
  }

  Reach-Kept :
      {client server : Prog ℕ} {l : Link}
      → Pair client_fuel server_fuel client server
      → LinkReach client server l
      → Kept l
  Reach-Kept pair met = start-Kept pair
  Reach-Kept pair (goes r step) = LinkStep-Kept step (Reach-Kept pair r)

  server_ends :
      (m : Prog ℕ) (l : Link)
      → Kept l
      → EndsWith ServerReturns (ServerStops server_fuel) m l.of_server
      → EndsWith CountsAll (CountStops server_fuel) m l
  server_ends (ret total) l h (counted, ended) =
      let (empty, is_shut) = h.drained ended in
      (omega (arith, h.conserved, counted, ap length empty), empty)
  server_ends (exit n) l h e = e
  server_ends fault l h e = e
  server_ends spin l h e = omega (arith, h.conserved)
  server_ends (call c k) l h e = tt

  both_return :
      (client server : Prog ℕ) (l : Link)
      → EndsWith ClientReturns (ClientStops client_fuel) client l.of_client
      → EndsWith CountsAll (CountStops server_fuel) server l
      → BothReturn client server l.of_client
  both_return (ret status) (ret total) l (zero_status, all) (counted, empty) = omega (arith, all)
  both_return (ret status) (exit n) l c s = tt
  both_return (ret status) fault l c s = tt
  both_return (ret status) spin l c s = tt
  both_return (ret status) (call d k) l c s = tt
  both_return (exit n) server l c s = tt
  both_return fault server l c s = tt
  both_return spin server l c s = tt
  both_return (call d k) server l c s = tt

  -- `c_ipv4_tcp` and the loop of `s_ipv4_tcp`, and `c_uds_stream` and the loop of `s_uds_stream`, on
  -- one stream: in every state that they reach, in whatever order they make their calls, with
  -- whatever pieces the stream brings, and on every answer that the calls document, neither meets a
  -- fault. A client that has returned returned 0, with each byte of its lines, up to their first
  -- zeros, sent or left by its `send`. The loop of a server that has returned returned the number
  -- of all bytes that the client has sent, and nothing is under way; with a client that has
  -- returned these are the bytes of the lines but those that `send` has left. Both exit only with
  -- 1. The fuel of the client is at most the lines that it took, and that of the server at most the
  -- bytes sent, when it is used up.
  pub stream_link_counts :
      {client server : Prog ℕ} {l : Link}
      → Pair client_fuel server_fuel client server
      → LinkReach client server l
      → EndsWith ClientReturns (ClientStops client_fuel) l.client l.of_client
        × EndsWith CountsAll (CountStops server_fuel) l.server l
        × BothReturn l.client l.server l.of_client
  stream_link_counts {l = l} pair r =
      let h = Reach-Kept pair r in
      let c =
        Ensures-EndsWith ClientReturns (ClientStops client_fuel) l.client l.of_client h.of_client in
      let s = server_ends l.server l h (
        Ensures-EndsWith ServerReturns (ServerStops server_fuel) l.server l.of_server
          h.of_server) in
      (c, s, both_return l.client l.server l c s)
