-- ===== src/Tests/Kernel.antt =====
-- The processes of one host over queues that are lists: the request for terminal 1003.
use mathlib.Core.Option.{some-injective}
use fleetcore.Prelude.{
  subst, ℕ, ◌≡◌, ◌≢◌, refl, ap, ◌∙◌, true, Bool-cases, inl, inr, some, List, [], ◌∷◌, ◌++◌, ◌==◌,
  if◌then◌else◌, arith, drop,
}
use fleetcore.Bytes.{Bytes, little}
use fleetcore.Fleet.{Fifo, Fleet, Reach}
use fleetcore.Fleet.Delivery.{Idle, request_travels}
use fleetcore.StreamBuffer.{empty}
use fleetcore.Termd.{term_no}
use fleetcore.Tests.{
  scratch, request, request-IsLockRequest, row_1003, term_1003, open_one, small_table, connected,
}
use fleetcore.Tests.Devices.{quiet_round}
use fleetcore.Tests.Journey.{last_bytes}
use fleetcore.Tests.Routing.{found_1003, IsDigits-1003}
use fleetcore.Wire.{make_lock_response}
use fleetcore.Wire.Layout.{lock_request_wire, lock_response_wire}

-- What waits under each key, the oldest first.
abbrev pub Waiting : Type 0
Waiting = ℕ → List Bytes

abbrev behind : ℕ → Bytes → Waiting → Waiting
behind key msg k n = if n == key then k n ++ (msg ∷ []) else k n

abbrev tail : List Bytes → List Bytes
tail [] = []
tail (msg ∷ rest) = rest

abbrev without : ℕ → Waiting → Waiting
without key k n = if n == key then tail (k n) else k n

pub at_key : (key : ℕ) (a b : List Bytes) → (if key == key then a else b) ≡ a
at_key key a b = elim (Bool-cases (key == key)) [
  | inl same ↦ rw same
  | inr other ↦ absurd (ground (arith, other))
]

pub not_at_key :
    (key other : ℕ) (a b : List Bytes) → other ≢ key → (if other == key then a else b) ≡ b
not_at_key key other a b differ = elim (Bool-cases (other == key)) [
  | inl same ↦ absurd (differ (ground (arith, same)))
  | inr differs ↦ rw differs
]

abbrev pub lists : Fifo Waiting
lists = record {
  ipc = record { msgget = λ key k. some key; msgsnd = λ id msg k. (true, behind id msg k) };
  waits = λ key k. k key;
  taken = without;
  msgget_some = λ key k. (key, refl);
  msgsnd_waits = λ key id msg k found.
      subst (λ (n : ℕ). behind n msg k key ≡ k key ++ (msg ∷ [])) (some-injective key id found)
        (at_key key (k key ++ (msg ∷ [])) (k key));
  msgsnd_other = λ key id other msg k found differ.
      subst (λ (n : ℕ). behind n msg k other ≡ k other) (some-injective key id found)
        (not_at_key key other (k other ++ (msg ∷ [])) (k other) differ);
  taken_waits = λ key msg rest k first. at_key key (tail (k key)) (k key) ∙ ap tail first;
  taken_other = λ key other k differ. not_at_key key other (tail (k other)) (k other) differ;
}

abbrev no_messages : Waiting
no_messages key = []

-- The first byte of the request is in gateway's buffer.
abbrev pub host : Fleet Waiting
host = record {
  kernel = no_messages;
  rows = small_table;
  gateway = record {
    tcp = connected;
    rx = record { bytes = b'F' ∷ [] };
    queues = no_messages;
    sent = [];
  };
  locator = record { table = open_one; rows = []; queues = no_messages };
  termds = λ slot. record {
    tcp = connected;
    rx = empty;
    slot = slot;
    table = open_one;
    rows = [];
    queues = no_messages;
    sent = [];
  };
}

request_travels_example :
    (f : Fleet Waiting) × Reach lists little host f
    × ((f.termds 3).sent ≡ [] ++ lock_request_wire request)
    × (f.gateway.sent ≡ [] ++ lock_response_wire (make_lock_response 5000 term_1003 7 0))
    × Idle lists little 3 f.kernel
unfolding term_no
request_travels_example =
    request_travels lists little host request 3 scratch last_bytes last_bytes b'C'
      (drop 2 (lock_request_wire request)) 4 4 5 0 0 row_1003 quiet_round (refl, refl, refl)
      request-IsLockRequest IsDigits-1003 refl (omega arith) refl refl refl refl refl (refl, refl)
      found_1003 refl (omega arith, (omega arith, tt)) (omega arith)
      (omega arith, (omega arith, tt)) (omega arith)
