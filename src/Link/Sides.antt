-- ===== src/Link/Sides.antt =====
-- What the clients and the servers of task3_making-chat-on-c do on a stream, each on its own.
use making_chat_on_c.Base.{
  ℕ, zero, suc, ◌+◌, ◌≤◌, ◌≡◌, refl, Bool, true, false, ◌||◌, ◌∷◌, Option, none, some, length,
  c_string, arith, length-take_le,
}
use making_chat_on_c.Os.{Text, Prog, ◌>>=◌}
use making_chat_on_c.Os.Guarantee.{Ensures, Checks, Ensures-of_Checks}
use making_chat_on_c.Client.Lines.{send_lines, c_ipv4_tcp, c_uds_stream}
use making_chat_on_c.Server.Stream.{ipv4_tcp_loop, uds_stream_loop}
use making_chat_on_c.Link.{Tally, tally_step, idle, text_total}

-- How a client ends: what it has sent and skipped is what it has read.
abbrev pub ClientReturns : ℕ → Tally → Type 0
ClientReturns status t = (status ≡ 0) × (t.sent + t.skipped ≡ text_total t.lines)

abbrev pub ClientStops : ℕ → Option ℕ → Tally → Type 0
ClientStops fuel none t = fuel ≤ length t.lines
ClientStops fuel (some status) t = status ≡ 1

-- How the loop of a server ends: with the bytes that it has received, when it is told the end.
abbrev pub ServerReturns : ℕ → Tally → Type 0
ServerReturns total t = (total ≡ t.received) × (t.ended ≡ true)

abbrev pub ServerStops : ℕ → Option ℕ → Tally → Type 0
ServerStops fuel none t = fuel ≤ t.received
ServerStops fuel (some status) t = status ≡ 1

module _ (total : ℕ) {B : Type 0} (Q : B → Tally → Type 0) (f : Unit {0} → Prog B)
    (next : (t : Tally)
      → t.sent + t.skipped ≡ text_total t.lines
      → Checks tally_step Q (ClientStops total) t (f tt))
    (fd file : ℕ) where
  send_lines-Checks :
      (fuel : ℕ) (t : Tally)
      → t.sent + t.skipped ≡ text_total t.lines
      → total ≤ fuel + length t.lines
      → Checks tally_step Q (ClientStops total) t (send_lines fuel fd file >>= f)
  unfolding send_lines
  send_lines-Checks zero t h enough = omega (arith, enough)
  send_lines-Checks (suc fuel) t h enough = (
    next _ (omega (arith, h)),
    λ b bs room. (
      refl,
      λ n le least.
          send_lines-Checks fuel _ (omega (arith, h, length-take_le n (c_string (b ∷ bs)) le))
            (omega (arith, enough)),
    ),
  )

pub c_ipv4_tcp-Ensures :
    (fuel : ℕ) (ip port : Text)
    → Ensures tally_step ClientReturns (ClientStops fuel) idle (c_ipv4_tcp fuel ip port)
unfolding c_ipv4_tcp
c_ipv4_tcp-Ensures fuel ip port =
    Ensures-of_Checks tally_step ClientReturns (ClientStops fuel) idle (c_ipv4_tcp fuel ip port) (
      refl,
      λ fd. (
        (
          refl,
          λ file.
              send_lines-Checks fuel _ _ (λ t h. (refl, omega (arith, h))) fd file fuel _ refl
                (omega arith),
        ),
        refl,
      ),
    )

pub c_uds_stream-Ensures :
    (fuel : ℕ) → Ensures tally_step ClientReturns (ClientStops fuel) idle (c_uds_stream fuel)
unfolding c_uds_stream
c_uds_stream-Ensures fuel =
    Ensures-of_Checks tally_step ClientReturns (ClientStops fuel) idle (c_uds_stream fuel) (
      refl,
      λ fd. (
        (
          refl,
          λ file.
              send_lines-Checks fuel _ _ (λ t h. (refl, omega (arith, h))) fd file fuel _ refl
                (omega arith),
        ),
        refl,
      ),
    )

or_true : (b : Bool) → (b || true) ≡ true
or_true true = refl
or_true false = refl

module _ (all : ℕ) where
  ipv4_tcp_loop-Checks :
      (fuel server client total : ℕ) (t : Tally)
      → total ≡ t.received
      → all ≤ fuel + t.received
      → Checks tally_step ServerReturns (ServerStops all) t (ipv4_tcp_loop fuel server client total)
  unfolding ipv4_tcp_loop
  ipv4_tcp_loop-Checks zero server client total t e enough = omega (arith, enough)
  ipv4_tcp_loop-Checks (suc fuel) server client total t e enough = (
    refl,
    ((omega (arith, e)), or_true t.ended),
    λ b bs room.
        ipv4_tcp_loop-Checks fuel server client (total + length (b ∷ bs)) _ (omega (arith, e))
          (omega (arith, enough)),
  )

  uds_stream_loop-Checks :
      (fuel client total : ℕ) (t : Tally)
      → total ≡ t.received
      → all ≤ fuel + t.received
      → Checks tally_step ServerReturns (ServerStops all) t (uds_stream_loop fuel client total)
  unfolding uds_stream_loop
  uds_stream_loop-Checks zero client total t e enough = omega (arith, enough)
  uds_stream_loop-Checks (suc fuel) client total t e enough = (
    refl,
    ((omega (arith, e)), or_true t.ended),
    λ b bs room.
        uds_stream_loop-Checks fuel client (total + length (b ∷ bs)) _ (omega (arith, e))
          (omega (arith, enough)),
  )

pub ipv4_tcp_loop-Ensures :
    (fuel server client : ℕ)
    → Ensures tally_step ServerReturns (ServerStops fuel) idle (ipv4_tcp_loop fuel server client 0)
ipv4_tcp_loop-Ensures fuel server client =
    Ensures-of_Checks tally_step ServerReturns (ServerStops fuel) idle _
      (ipv4_tcp_loop-Checks fuel fuel server client 0 idle refl (omega arith))

pub uds_stream_loop-Ensures :
    (fuel client : ℕ)
    → Ensures tally_step ServerReturns (ServerStops fuel) idle (uds_stream_loop fuel client 0)
uds_stream_loop-Ensures fuel client =
    Ensures-of_Checks tally_step ServerReturns (ServerStops fuel) idle _
      (uds_stream_loop-Checks fuel fuel client 0 idle refl (omega arith))
