-- ===== src/Fleet/Order/Turns.antt =====
-- Requests in the order of the bytes that they stand in, and what a terminal is sent of them.
use mathlib.Core.List.{filter}
use mathlib.Core.Logic.{if_pos, if_neg}
use native.Mathlib.Decide.{ℕ_discrete}
use fleetcore.Prelude.{
  ℕ, zero, suc, ◌-◌, ◌≤◌, ◌≡◌, ◌≢◌, ap, ◌∙◌, List, [], ◌∷◌, ◌++◌, append_assoc, arith, length, take,
}
use fleetcore.Bytes.{Bytes}
use fleetcore.Fleet.Sent.{Extends}
use fleetcore.Locator.Resolve.{IsDigits, number}
use fleetcore.Proto.{LockRequest}
use fleetcore.Termd.{term_no}
use fleetcore.Wire.Layout.{lock_request_wire}
use fleetcore.Wire.RoundTrip.{IsLockRequest}

-- The requests meet the contract and stand in the bytes one behind the other, in this order; there
-- may be other bytes between them and around them.
pub data InTurn : List LockRequest → Bytes → Type 0 where
  no_request : {ms : List LockRequest} {bs : Bytes} → ms ≡ [] → InTurn ms bs
  one_more :
      {ms ms' : List LockRequest} {front bs : Bytes} (m : LockRequest) (rest : Bytes)
      → InTurn ms front
      → IsLockRequest m
      → ms' ≡ ms ++ (m ∷ [])
      → bs ≡ front ++ (lock_request_wire m ++ rest)
      → InTurn ms' bs

pub InTurn-append :
    {ms : List LockRequest} {bs : Bytes} (more : Bytes) → InTurn ms bs → InTurn ms (bs ++ more)
InTurn-append more (no_request e) = no_request e
InTurn-append more (one_more {front = front} m rest t v e split) = one_more m (rest ++ more) t v e (
    ap (λ (b : Bytes). b ++ more) split
    ∙ append_assoc front (lock_request_wire m ++ rest) more
    ∙ ap (◌++◌ front) (append_assoc (lock_request_wire m) rest more))

-- What has been sent is a beginning of each of the messages, in their order.
pub data MadeOf : List LockRequest → Bytes → Type 0 where
  nothing_sent : {ms : List LockRequest} {bs : Bytes} → ms ≡ [] → bs ≡ [] → MadeOf ms bs
  then_sent :
      {ms ms' : List LockRequest} {before bs : Bytes} (m : LockRequest)
      → MadeOf ms before
      → ms' ≡ ms ++ (m ∷ [])
      → Extends (lock_request_wire m) before bs
      → MadeOf ms' bs

-- The request is for the terminal of this slot.
pub record Names (slot : ℕ) (m : LockRequest) : Type 0 where
  pub digits : IsDigits m.term_no
  pub names : number m.term_no ≡ term_no slot

abbrev pub names_terminal : (slot : ℕ) (m : LockRequest) → Dec (number m.term_no ≡ term_no slot)
names_terminal slot m = ℕ_discrete (number m.term_no) (term_no slot)

-- Those of some requests that have the number of this slot's terminal.
abbrev pub for_slot : ℕ → List LockRequest → List LockRequest
for_slot slot = filter (names_terminal slot)

pub take-append_front :
    (front back : Bytes) (n : ℕ)
    → length front ≤ n
    → take n (front ++ back) ≡ front ++ take (n - length front) back
take-append_front [] back n h = ap (λ (k : ℕ). take k back) (omega arith)
take-append_front (b ∷ front) back zero h = elim h [ ]
take-append_front (b ∷ front) back (suc n) h = ap (◌∷◌ b) (
    take-append_front front back n (omega arith)
    ∙ ap (λ (k : ℕ). front ++ take k back) (omega arith))

pub for_slot-cons :
    (slot : ℕ) (m : LockRequest) (ms : List LockRequest)
    → number m.term_no ≡ term_no slot
    → for_slot slot (m ∷ ms) ≡ m ∷ for_slot slot ms
for_slot-cons slot m ms same = elim (ℕ_discrete (number m.term_no) (term_no slot)) [
  | yes p ↦ rw (if_pos _ p)
  | no np ↦ absurd (np same)
]

pub for_slot-other :
    (slot : ℕ) (m : LockRequest) → number m.term_no ≢ term_no slot → for_slot slot (m ∷ []) ≡ []
for_slot-other slot m differ = elim (ℕ_discrete (number m.term_no) (term_no slot)) [
  | yes p ↦ absurd (differ p)
  | no np ↦ rw (if_neg _ np)
]
