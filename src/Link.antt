-- ===== src/Link.antt =====
-- A client and a server of task3_making-chat-on-c on the two ends of a stream socket, whose calls
-- are made in any order.
pub mod Sides
pub mod Ends
pub mod Datagrams
mod Tests
use making_chat_on_c.Base.{
  ℕ, ◌+◌, ◌-◌, ◌≡◌, ◌⊎◌, Bool, true, false, ◌||◌, List, [], ◌∷◌, ◌++◌, Option, none, some, length,
  take, c_string,
}
use making_chat_on_c.Os.{Call, Answer, Prog, exit, call, send, recv, read, close, fgets}
use making_chat_on_c.Os.Guarantee.{Legal}

-- What a call with its answer puts into the stream, and what of its data it leaves.
abbrev pub sent_by : (c : Call) → Answer c → List ℕ
sent_by (send fd bytes) (some n) = take n bytes
sent_by c r = []

abbrev pub left_by : (c : Call) → Answer c → ℕ
left_by (send fd bytes) (some n) = length bytes - n
left_by c r = 0

-- What it takes out of the stream, and whether it is told the end of it.
abbrev pub brought_by : (c : Call) → Answer c → List ℕ
brought_by (recv fd room) (some bytes) = bytes
brought_by (read fd room) (some bytes) = bytes
brought_by c r = []

abbrev pub ended_by : (c : Call) → Answer c → Bool
ended_by (recv fd room) (some []) = true
ended_by (read fd room) (some []) = true
ended_by c r = false

abbrev pub lines_by : (c : Call) → Answer c → List (List ℕ)
lines_by (fgets file room) (some line) = line ∷ []
lines_by c r = []

abbrev pub closed_by : Call → Bool
closed_by (close fd) = true
closed_by c = false

-- What a program has done: the lines that it took from its file, newest first, the bytes that its
-- `send` calls took and left, and what it received.
pub record Tally : Type 0 where
  pub lines : List (List ℕ)
  pub sent : ℕ
  pub skipped : ℕ
  pub received : ℕ
  pub ended : Bool

abbrev pub tally_step : (c : Call) → Answer c → Tally → Tally
tally_step c r t = record {
  lines = lines_by c r ++ t.lines;
  sent = t.sent + length (sent_by c r);
  skipped = t.skipped + left_by c r;
  received = t.received + length (brought_by c r);
  ended = t.ended || ended_by c r;
}

abbrev pub idle : Tally
idle = record { lines = []; sent = 0; skipped = 0; received = 0; ended = false }

-- `pipe` is what is under way, and `shut` whether the client has closed its end.
pub record Link : Type 0 where
  pub client : Prog ℕ
  pub server : Prog ℕ
  pub pipe : List ℕ
  pub shut : Bool
  pub of_client : Tally
  pub of_server : Tally

-- A call of one side. What a `recv` brings are the next bytes, at least one, and it is told the end
-- only when nothing is under way and the client has closed its end, as a process does that exits.
pub data LinkStep (l : Link) : Link → Type 0 where
  client_step :
      {c : Call} {k : Answer c → Prog ℕ} (r : Answer c)
      → l.client ≡ call c k
      → Legal c r
      → ((l.shut ≡ false) ⊎ (sent_by c r ≡ []))
      → LinkStep l (record l {
        client = k r;
        pipe = l.pipe ++ sent_by c r;
        shut = l.shut || closed_by c;
        of_client = tally_step c r l.of_client;
      })
  client_exits : (status : ℕ) → l.client ≡ exit status → LinkStep l (record l { shut = true })
  server_step :
      {c : Call} {k : Answer c → Prog ℕ} (r : Answer c) (rest : List ℕ)
      → l.server ≡ call c k
      → Legal c r
      → l.pipe ≡ brought_by c r ++ rest
      → ((ended_by c r ≡ false) ⊎ ((l.shut ≡ true) × (rest ≡ [])))
      → LinkStep l (record l { server = k r; pipe = rest; of_server = tally_step c r l.of_server })

abbrev pub connected : Prog ℕ → Prog ℕ → Link
connected client server = record {
  client = client;
  server = server;
  pipe = [];
  shut = false;
  of_client = idle;
  of_server = idle;
}

pub data LinkReach (client server : Prog ℕ) : Link → Type 0 where
  met : LinkReach client server (connected client server)
  goes : {l m : Link} → LinkReach client server l → LinkStep l m → LinkReach client server m

-- The bytes of the lines, each up to its first zero.
abbrev pub text_total : List (List ℕ) → ℕ
text_total [] = 0
text_total (line ∷ lines) = length (c_string line) + text_total lines
