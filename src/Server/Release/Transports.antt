-- ===== src/Server/Release/Transports.antt =====
-- What each server of task3_making-chat-on-c/server.c closes.
use making_chat_on_c.Base.{
  ℕ, ◌+◌, ◌*◌, ◌≤◌, ◌≡◌, ◌∙◌, refl, List, Option, none, some, arith, ==_refl,
}
use making_chat_on_c.Checksum.{int_max}
use making_chat_on_c.Os.{Text}
use making_chat_on_c.Os.Guarantee.{Checks, Checks-bind}
use making_chat_on_c.Os.Ledger.{Ledger, ledger_step, LastsReads, Restores, Releases}
use making_chat_on_c.Server.Stream.{s_ipv4_tcp, s_ipv6_tcp, s_uds_stream, s_pipe}
use making_chat_on_c.Server.Datagram.{s_ipv4_udp, s_ipv6_udp, s_uds_dgram, s_mmap}
use making_chat_on_c.Server.Dispatch.{
  Protocol, ipv4_tcp, ipv4_udp, ipv6_tcp, ipv6_udp, mmap, pipe, uds_dgram, uds_stream, serve,
  serve_chosen,
}
use making_chat_on_c.Server.Release.Loops

module _ (bound fuel : ℕ) where
  s_ipv4_tcp-Releases :
      (port : Text) (s : Ledger) → bound ≤ fuel + s.reads → Releases bound s (s_ipv4_tcp fuel port)
  unfolding s_ipv4_tcp
  s_ipv4_tcp-Releases port s enough = (
    refl,
    λ server. (
      (
        (
          (
            refl,
            λ client start.
                Loops.ipv4_tcp bound _ _ _ (λ t n e finish. simp (e, ==_refl)) server client fuel 0
                  _ refl (omega (arith, enough)),
          ),
          refl,
        ),
        refl,
      ),
      refl,
    ),
  )

  s_ipv6_tcp-Releases :
      (port : Text) (s : Ledger) → bound ≤ fuel + s.reads → Releases bound s (s_ipv6_tcp fuel port)
  unfolding s_ipv6_tcp
  s_ipv6_tcp-Releases port s enough = (
    refl,
    λ server. (
      (
        (
          (
            refl,
            λ client start.
                Loops.ipv6_tcp bound _ _ _ (λ t n e finish. simp (e, ==_refl)) server client fuel 0
                  _ refl (omega (arith, enough)),
          ),
          refl,
        ),
        refl,
      ),
      refl,
    ),
  )

  s_uds_stream-Releases :
      (s : Ledger) → bound ≤ fuel + s.reads → Releases bound s (s_uds_stream fuel)
  unfolding s_uds_stream
  s_uds_stream-Releases s enough = (
    refl,
    λ server. (
      (
        (
          (
            refl,
            λ client start.
                Loops.uds_stream bound _ _ _ (λ t n e finish. simp (e, ==_refl)) server client fuel
                  0 _ refl (omega (arith, enough)),
          ),
          refl,
        ),
        refl,
      ),
      refl,
    ),
  )

  module _ (short : 65535 * fuel ≤ int_max) where
    s_pipe-Releases : (s : Ledger) → bound ≤ fuel + s.reads → Releases bound s (s_pipe fuel)
    unfolding s_pipe
    s_pipe-Releases s enough = (
      refl,
      λ fd. (
        refl,
        λ out start.
            Loops.pipe bound _ _ _ (λ t n e finish. simp (e, ==_refl)) fd out fuel 0 _ refl
              (omega (arith, enough)),
      ),
    )

    s_ipv4_udp-Releases :
        (garbage : List ℕ) (port : Text) (s : Ledger)
        → bound ≤ fuel + s.reads
        → Releases bound s (s_ipv4_udp fuel garbage port)
    unfolding s_ipv4_udp
    s_ipv4_udp-Releases garbage port s enough = (
      refl,
      λ fd. (
        (
          λ start.
              Loops.dgram bound _ _ _ (λ t n e finish. simp (e, ==_refl)) 0 fd fuel garbage 0 0 _
                (omega arith) refl (omega (arith, enough)),
          refl,
        ),
        refl,
      ),
    )

    s_uds_dgram-Releases :
        (garbage : List ℕ) (s : Ledger)
        → bound ≤ fuel + s.reads
        → Releases bound s (s_uds_dgram fuel garbage)
    unfolding s_uds_dgram
    s_uds_dgram-Releases garbage s enough = (
      refl,
      λ fd. (
        (
          λ start.
              Loops.dgram bound _ _ _ (λ t n e finish. simp (e, ==_refl)) 0 fd fuel garbage 0 0 _
                (omega arith) refl (omega (arith, enough)),
          refl,
        ),
        refl,
      ),
    )

    s_ipv6_udp-Releases :
        (port : Text) (s : Ledger)
        → bound ≤ fuel + s.reads
        → Releases bound s (s_ipv6_udp fuel port)
    unfolding s_ipv6_udp
    s_ipv6_udp-Releases port s enough = (
      refl,
      λ fd. (
        (
          λ start.
              Loops.ipv6_udp bound _ _ _ (λ t n e finish. simp (e, ==_refl)) 0 fd fuel 0 _
                (omega arith) refl (omega (arith, enough)),
          refl,
        ),
        refl,
      ),
    )

    s_mmap-Releases :
        (port : Text) (s : Ledger) → bound ≤ fuel + s.reads → Releases bound s (s_mmap fuel port)
    unfolding s_mmap
    s_mmap-Releases port s enough = (
      refl,
      λ fd. (
        (
          λ start.
              Loops.mmap bound fd s.held start fuel 0 _ (omega arith) refl (omega (arith, enough)),
          simp ==_refl,
        ),
        simp ==_refl,
      ),
    )

    pub serve-Releases :
        (garbage : List ℕ) (port : Text) (p : Protocol) (s : Ledger)
        → bound ≤ fuel + s.reads
        → Releases bound s (serve fuel garbage port p)
    unfolding serve
    serve-Releases garbage port ipv4_tcp s enough = s_ipv4_tcp-Releases port s enough
    serve-Releases garbage port ipv4_udp s enough = s_ipv4_udp-Releases garbage port s enough
    serve-Releases garbage port ipv6_tcp s enough = s_ipv6_tcp-Releases port s enough
    serve-Releases garbage port ipv6_udp s enough = s_ipv6_udp-Releases port s enough
    serve-Releases garbage port mmap s enough = s_mmap-Releases port s enough
    serve-Releases garbage port pipe s enough = s_pipe-Releases s enough
    serve-Releases garbage port uds_dgram s enough = s_uds_dgram-Releases garbage s enough
    serve-Releases garbage port uds_stream s enough = s_uds_stream-Releases s enough

    pub serve_chosen-Releases :
        (garbage : List ℕ) (port : Text) (p : Option Protocol) (s t : Ledger)
        → t.held ≡ s.held
        → bound ≤ fuel + t.reads
        → Checks ledger_step (Restores s) (LastsReads bound) t (serve_chosen fuel garbage port p)
    unfolding serve_chosen
    serve_chosen-Releases garbage port none s t e enough = refl
    serve_chosen-Releases garbage port (some p) s t e enough =
        Checks-bind ledger_step (Restores t) (LastsReads bound) (Restores s) _
          (λ n u kept. kept ∙ e) t (serve fuel garbage port p)
          (serve-Releases garbage port p t enough)
