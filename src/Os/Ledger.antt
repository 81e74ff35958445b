-- ===== src/Os/Ledger.antt =====
-- The ledger of a run: the descriptors and files that the process holds open, and the pieces of
-- data that it took in from files and that the network or a pipe took of it, newest first, with the
-- number of calls that read.
use making_chat_on_c.Base.{
  ℕ, suc, ◌+◌, ◌≤◌, ◌≡◌, ◌==◌, Bool, true, false, List, [], ◌∷◌, Option, none, some, if◌then◌else◌,
  take,
}
use making_chat_on_c.Os.Guarantee.{Ensures, Checks, Ensures-of_Checks}
use making_chat_on_c.Os.{
  Prog, Call, Answer, socket, accept, send, sendto, write, read, recv, recvfrom, poll, close,
  open_file, fopen, fclose, malloc, free, open_path, fopen_path, fgets, fread, getaddrinfo, resolve,
  freeaddrinfo,
}

pub data Handle : Type 0 where
  descriptor : ℕ → Handle
  file : ℕ → Handle
  block : ℕ → Handle
  addresses : Handle

abbrev pub same_handle : Handle → Handle → Bool
same_handle (descriptor a) (descriptor b) = a == b
same_handle (file a) (file b) = a == b
same_handle (block a) (block b) = a == b
same_handle addresses addresses = true
same_handle a b = false

abbrev pub drop_handle : Handle → List Handle → List Handle
drop_handle h [] = []
drop_handle h (g ∷ gs) = if same_handle h g then gs else g ∷ drop_handle h gs

abbrev pub hold : Option ℕ → (ℕ → Handle) → List Handle → List Handle
hold none kind held = held
hold (some n) kind held = kind n ∷ held

pub record Ledger : Type 0 where
  pub held : List Handle
  pub taken : List (List ℕ)
  pub handed : List (List ℕ)
  pub reads : ℕ

abbrev pub counting : Ledger → Ledger
counting s = record s { reads = suc s.reads }

abbrev pub taking : Option (List ℕ) → Ledger → Ledger
taking none s = s
taking (some []) s = s
taking (some (b ∷ bs)) s = record s { taken = (b ∷ bs) ∷ s.taken }

-- A datagram is sent whole.
abbrev pub handing : List ℕ → Option ℕ → Ledger → Ledger
handing bytes none s = s
handing bytes (some n) s = record s { handed = bytes ∷ s.handed }

-- `send` and `write` take the first `n` bytes, which need not be all.
abbrev pub handing_part : List ℕ → Option ℕ → Ledger → Ledger
handing_part bytes none s = s
handing_part bytes (some n) s = record s { handed = take n bytes ∷ s.handed }

-- The list of addresses that `getaddrinfo` allocates.
abbrev pub hold_addresses : Bool → List Handle → List Handle
hold_addresses false held = held
hold_addresses true held = addresses ∷ held

abbrev pub is_some : {A : Type 0} → Option A → Bool
is_some none = false
is_some (some a) = true

abbrev pub ledger_step : (c : Call) → Answer c → Ledger → Ledger
ledger_step (socket d k) r s = record s { held = hold r descriptor s.held }
ledger_step (accept fd) r s = record s { held = hold r descriptor s.held }
ledger_step (open_file p m) r s = record s { held = hold r descriptor s.held }
ledger_step (fopen p m) r s = record s { held = hold r file s.held }
ledger_step (fopen_path p m) r s = record s { held = hold r file s.held }
ledger_step (open_path p m) r s = record s { held = hold r descriptor s.held }
ledger_step (malloc n) r s = record s { held = hold r block s.held }
ledger_step (free p) r s = record s { held = drop_handle (block p) s.held }
ledger_step (close fd) r s = record s { held = drop_handle (descriptor fd) s.held }
ledger_step (fclose f) r s = record s { held = drop_handle (file f) s.held }
ledger_step (read fd n) r s = taking r (counting s)
ledger_step (fgets f n) r s = taking r (counting s)
ledger_step (fread f n) r s = taking (some r) (counting s)
ledger_step (send fd bytes) r s = handing_part bytes r s
ledger_step (sendto fd bytes a) r s = handing bytes r s
ledger_step (write fd bytes) r s = handing_part bytes r s
ledger_step (recv fd n) r s = counting s
ledger_step (recvfrom fd n) r s = counting s
ledger_step (poll fds timeout) r s = counting s
ledger_step (getaddrinfo service) r s = record s { held = hold_addresses (is_some r) s.held }
ledger_step (resolve name service) r s = record s { held = hold_addresses r s.held }
ledger_step freeaddrinfo r s = record s { held = drop_handle addresses s.held }
ledger_step c r s = s

-- The status of every `exit` on a failed call is 1, and the program never runs out of fuel.
abbrev pub OnlyExitsWithOne : {S : Type 0} → Option ℕ → S → Type 0
OnlyExitsWithOne status t = status ≡ some 1

-- The same of a program that runs out of fuel only after that many calls that read.
abbrev pub LastsReads : ℕ → Option ℕ → Ledger → Type 0
LastsReads fuel none t = fuel ≤ t.reads
LastsReads fuel (some n) t = n ≡ 1

-- A run that returns leaves the open handles as they were.
abbrev pub Restores : {A : Type 0} → Ledger → A → Ledger → Type 0
Restores s a t = t.held ≡ s.held

-- The program meets no fault, closes every handle that it opens before it returns, exits with no
-- status but 1, and runs out of `fuel` only if it makes at least that many calls that read.
abbrev pub ReleasesAll : {A : Type 0} → ℕ → Prog A → Type 0
ReleasesAll fuel m =
    (s : Ledger) → Ensures ledger_step (Restores s) (LastsReads (fuel + s.reads)) s m

-- The same from one ledger and up to a number of reads, as it is proved.
abbrev pub Releases : {A : Type 0} → ℕ → Ledger → Prog A → Type 0
Releases bound s m = Checks ledger_step (Restores s) (LastsReads bound) s m

pub ReleasesAll-of_Releases :
    {A : Type 0} (fuel : ℕ) (m : Prog A)
    → ((s : Ledger) → Releases (fuel + s.reads) s m)
    → ReleasesAll fuel m
ReleasesAll-of_Releases fuel m h s =
    Ensures-of_Checks ledger_step (Restores s) (LastsReads (fuel + s.reads)) s m (h s)
