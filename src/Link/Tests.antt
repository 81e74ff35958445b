-- ===== src/Link/Tests.antt =====
-- A file of one line goes over a TCP connection in two pieces, one of two lines as datagrams.
use making_chat_on_c.Base.{
  ℕ, ◌+◌, ◌<◌, ◌≡◌, refl, inl, inr, true, false, [], ◌∷◌, none, some, codes, arith, c_string, map,
}
use mathlib.Core.List.{reverse}
use making_chat_on_c.Os.{ret}
use making_chat_on_c.Client.Lines.{send_lines, c_ipv4_tcp}
use making_chat_on_c.Server.Stream.{ipv4_tcp_loop}
use making_chat_on_c.Os.{gettimeofday, elapsed}
use making_chat_on_c.Os.Assume.{Run, returned}
use making_chat_on_c.Os.Feed.{feed, all_succeed}
use making_chat_on_c.Os.Ledger.{Ledger, ledger_step}
use making_chat_on_c.Client.Lines.{c_ipv4_udp, sendto_lines, exit_line}
use making_chat_on_c.Client.Sends.{fresh}
use making_chat_on_c.Server.Datagram.{dgram_loop, s_ipv4_udp}
use making_chat_on_c.Server.Delivery.{bytes_total}
use making_chat_on_c.Link.Datagrams.{Anything, udp_arrives}
use making_chat_on_c.Link.{Link, LinkReach, met, goes, client_step, server_step, text_total}
use making_chat_on_c.Link.Sides.{ClientReturns, ClientStops}
use making_chat_on_c.Link.Ends.{EndsWith, CountsAll, CountStops, tcp, stream_link_counts}

abbrev transferred : Link
transferred = record {
  client = ret 0;
  server = ret 3;
  pipe = [];
  shut = true;
  of_client = record {
    lines = codes "hi\n" ∷ [];
    sent = 3;
    skipped = 0;
    received = 0;
    ended = false;
  };
  of_server = record { lines = []; sent = 0; skipped = 0; received = 3; ended = true };
}

one_line : 3 < 1024
one_line = omega arith

transferred-LinkReach :
    LinkReach (c_ipv4_tcp 4 (codes "::") (codes "1")) (ipv4_tcp_loop 4 8 9 0) transferred
unfolding c_ipv4_tcp send_lines ipv4_tcp_loop
transferred-LinkReach =
    goes
      (goes
        (goes
          (goes
            (goes
              (goes
                (goes
                  (goes
                    (goes
                      (goes (goes met (client_step (some 5) refl tt (inr refl)))
                        (client_step true refl tt (inr refl)))
                      (client_step (some 6) refl tt (inr refl)))
                    (client_step (some (codes "hi\n")) refl one_line (inr refl)))
                  (client_step (some 3) refl (omega arith, λ h. omega arith) (inl refl)))
                (server_step (some (104 ∷ 105 ∷ [])) (10 ∷ []) refl (omega arith) refl (inl refl)))
              (client_step none refl tt (inr refl)))
            (client_step tt refl tt (inr refl)))
          (server_step (some (10 ∷ [])) [] refl (omega arith) refl (inl refl)))
        (client_step tt refl tt (inr refl)))
      (server_step (some []) [] refl (omega arith) refl (inr (refl, refl)))

stream_link_counts_example :
    EndsWith ClientReturns (ClientStops 4) (ret 0) transferred.of_client
    × EndsWith CountsAll (CountStops 4) (ret 3) transferred
    × (3 + 0 ≡ text_total (codes "hi\n" ∷ []))
stream_link_counts_example =
    stream_link_counts 4 4 (tcp (codes "::") (codes "1") 8 9) transferred-LinkReach

abbrev hello : Ledger
hello = record {
  held = [];
  taken = codes "bob\n" ∷ codes "hi\n" ∷ [];
  handed = exit_line ∷ codes "bob\n" ∷ codes "hi\n" ∷ [];
  reads = 3;
}

hello-Run :
    Run ledger_step Anything
      (c_ipv4_udp 4 (codes "127.0.0.1") (codes "9000"))
      fresh
      (returned 0)
      hello
unfolding c_ipv4_udp sendto_lines
hello-Run = (
  some 5,
  tt,
  tt,
  (
    some 6,
    tt,
    tt,
    (
      some (codes "hi\n"),
      omega arith,
      tt,
      (
        some 3,
        tt,
        tt,
        (
          some (codes "bob\n"),
          omega arith,
          tt,
          (
            some 4,
            tt,
            tt,
            (none, tt, tt, (some 5, tt, tt, (tt, tt, tt, (tt, tt, tt, (refl, refl))))),
          ),
        ),
      ),
    ),
  ),
)

udp_arrives_example :
    (hello.held ≡ [])
    × (◌≡◌ {A = ℕ} 0 0)
    × (feed all_succeed (reverse hello.handed) (dgram_loop 3 3 [] 0 0)
        ≡ some (bytes_total (map c_string (codes "hi\n" ∷ codes "bob\n" ∷ [])), []))
    × (feed all_succeed (reverse hello.handed) (s_ipv4_udp 3 [] (codes "9000"))
        ≡ some (elapsed (all_succeed gettimeofday) (all_succeed gettimeofday), []))
udp_arrives_example =
    udp_arrives all_succeed 4 3 3 0 [] (codes "hi\n") (codes "bob\n" ∷ []) (codes "127.0.0.1")
      (codes "9000") hello hello-Run refl refl refl refl (omega arith) refl (omega arith, refl, tt)
      (omega arith) (omega arith)
