-- ===== src/Wlproxy/Tables/Known.antt =====
-- What holds of every message of the tables: it creates one object at most, of an interface the
-- tables have, and it carries as many descriptors as it has arguments for.
use kryptik_os.Common.{
  both, eq_bytes-eq, ℕ, zero, suc, ◌+◌, ◌≤◌, ◌≡◌, refl, arith, Bool, true, false, ◌&&◌, List, [],
  ◌∷◌, Option, none, some, leb, leb→le, ◌==◌, ==_iff, get_elem?, Bytes, eq_bytes, inl, inr,
  Bool-cases, Option-cases,
}
use mathlib.Core.Option.{some-injective}
use kryptik_os.Wlproxy.Protocol.{Arg, new_id, fd, Message, Interface}
use kryptik_os.Wlproxy.Protocol.Encoding.{creates_all}
use kryptik_os.Wlproxy.Tables.{interfaces, find_in, find, signature}
use kryptik_os.Wlproxy.Failure.{Dir, client_to_server, server_to_client}

abbrev pub count_fds : List Arg → ℕ
count_fds [] = 0
count_fds (fd ∷ args) = count_fds args + 1
count_fds (_ ∷ args) = count_fds args

abbrev pub is_found : Option Interface → Bool
is_found none = false
is_found (some i) = true

-- The interfaces that new objects are of.
abbrev pub all_found : List Arg → Bool
all_found [] = true
all_found (new_id (some name) ∷ args) = is_found (find_in interfaces name) && all_found args
all_found (_ ∷ args) = all_found args

abbrev is_good : Message → Bool
is_good m = leb (creates_all m.args) 1 && (m.fds == count_fds m.args && all_found m.args)

abbrev all_good : List Message → Bool
all_good [] = true
all_good (m ∷ ms) = is_good m && all_good ms

abbrev all_interfaces_good : List Interface → Bool
all_interfaces_good [] = true
all_interfaces_good (i ∷ is) = all_good i.requests && (all_good i.events && all_interfaces_good is)

tables-good : all_interfaces_good interfaces ≡ true
tables-good = refl

-- What the check of the tables says of one message.
record IsGood (m : Message) : Type 0 where
  pub creates_one : creates_all m.args ≤ 1
  pub descriptors : m.fds ≡ count_fds m.args
  pub found : all_found m.args ≡ true

is_good-IsGood : (m : Message) → is_good m ≡ true → IsGood m
is_good-IsGood m h =
    let (one, more) = both (leb (creates_all m.args) 1) _ h in
    let (counted, found) = both (m.fds == count_fds m.args) (all_found m.args) more in
    record {
      creates_one = leb→le (creates_all m.args) 1 one;
      descriptors = (==_iff m.fds (count_fds m.args)).0 counted;
      found = found;
    }

all_good-get :
    (ms : List Message) (k : ℕ) (m : Message)
    → all_good ms ≡ true
    → get_elem? ms k ≡ some m
    → IsGood m
all_good-get [] k m h e = cc
all_good-get (x ∷ ms) zero m h e =
    rw (← some-injective x m e) (is_good-IsGood x (both (is_good x) (all_good ms) h).0)
all_good-get (x ∷ ms) (suc k) m h e = all_good-get ms k m (both (is_good x) (all_good ms) h).1 e

interface-good :
    (is : List Interface) (k : ℕ) (i : Interface)
    → all_interfaces_good is ≡ true
    → get_elem? is k ≡ some i
    → (all_good i.requests ≡ true) × (all_good i.events ≡ true)
interface-good [] k i h e = cc
interface-good (x ∷ is) zero i h e =
    let (requests, more) = both (all_good x.requests) _ h in
    let (events, others) = both (all_good x.events) (all_interfaces_good is) more in
    rw (← some-injective x i e) (requests, events)
interface-good (x ∷ is) (suc k) i h e =
    let (requests, more) = both (all_good x.requests) _ h in
    let (events, others) = both (all_good x.events) (all_interfaces_good is) more in
    interface-good is k i others e

-- An interface of the tables.
abbrev pub IsKnown : Interface → Type 0
IsKnown i = (k : ℕ) × (get_elem? interfaces k ≡ some i)

signature-IsGood :
    (i : Interface) (dir : Dir) (opcode : ℕ) (m : Message)
    → IsKnown i
    → signature dir i opcode ≡ some m
    → IsGood m
signature-IsGood i client_to_server opcode m (k, known) e =
    all_good-get i.requests opcode m (interface-good interfaces k i tables-good known).0 e
signature-IsGood i server_to_client opcode m (k, known) e =
    all_good-get i.events opcode m (interface-good interfaces k i tables-good known).1 e

-- Every message of the tables creates at most one object, carries a descriptor for each argument
-- that is one, and names only interfaces of the tables for its new objects.
pub signature-counts :
    (i : Interface) (dir : Dir) (opcode : ℕ) (m : Message)
    → IsKnown i
    → signature dir i opcode ≡ some m
    → (creates_all m.args ≤ 1) × (m.fds ≡ count_fds m.args) × (all_found m.args ≡ true)
signature-counts i dir opcode m known e =
    let good = signature-IsGood i dir opcode m known e in
    (good.creates_one, good.descriptors, good.found)

find_in-get :
    (is : List Interface) (name : Bytes) (i : Interface)
    → find_in is name ≡ some i
    → (i.name ≡ name) × ((k : ℕ) × (get_elem? is k ≡ some i))
find_in-get [] name i h = cc
find_in-get (x ∷ is) name i h = elim (Option-cases (find_in is name)) [
  | inr (j, later) ↦
      let same : j ≡ i = ground (arith, later, h) in
      let (named, (k, at)) = find_in-get is name j later in rw (← same) (named, (suc k, at))
  | inl none_later ↦ elim (Bool-cases (eq_bytes x.name name)) [
    | inl hit ↦
        let same : x ≡ i = ground (arith, none_later, hit, h) in
        rw (← same) (eq_bytes-eq x.name name hit, (0, refl))
    | inr miss ↦ absurd (ground (arith, none_later, miss, h))
  ]
]

-- What is found is an interface of the tables, of the name that was sought.
pub find-IsKnown : (name : Bytes) (i : Interface) → find name ≡ some i → (i.name ≡ name) × IsKnown i
unfolding find
find-IsKnown name i h = find_in-get interfaces name i h
