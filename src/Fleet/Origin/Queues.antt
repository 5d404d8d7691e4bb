-- ===== src/Fleet/Origin/Queues.antt =====
-- What waits in the queues of one host: the messages that the processes have for each other, and
-- where they come from.
use fleetcore.Prelude.{ℕ, ◌≤◌, ◌<◌, ◌^◌, ◌≡◌, ap, ◌∙◌, subst, List, ◌∷◌, ◌++◌, append_assoc, length}
use fleetcore.Bytes.{Bytes, Endian}
use fleetcore.Fleet.{Fifo, key}
use fleetcore.Fleet.Waits.{queue_sent, queue_taken}
use fleetcore.IpcMessage.{
  IpcLockRequest, ipc_lock_request_object, ipc_lock_response_object, idx_gateway, idx_locator,
}
use fleetcore.Process.{send_to}
use fleetcore.Proto.{LockRequest}
use fleetcore.Relay.{to_gateway}
use fleetcore.StreamBuffer.Serve.{All, All-map, All-snoc}
use fleetcore.Termd.{index}
use fleetcore.Wire.Layout.{lock_request_wire}
use fleetcore.Wire.RoundTrip.{IsLockRequest}

-- One text of bytes stands somewhere in another.
abbrev pub Within : Bytes → Bytes → Type 0
Within part whole = (before : Bytes) × (after : Bytes) × (whole ≡ before ++ (part ++ after))

-- A request that meets the contract and stands in the bytes heard from the maintenance terminal.
pub record Asked (heard : Bytes) (m : LockRequest) : Type 0 where
  pub contract : IsLockRequest m
  pub stands : Within (lock_request_wire m) heard

pub Asked-append :
    {heard : Bytes} {m : LockRequest} (more : Bytes) → Asked heard m → Asked (heard ++ more) m
Asked-append {m = m} more a =
    let (before, after, e) = a.stands in
    record {
      contract = a.contract;
      stands = (
        before,
        after ++ more,
        ap (λ (h : Bytes). h ++ more) e
            ∙ append_assoc before (lock_request_wire m ++ after) more
            ∙ ap (◌++◌ before) (append_assoc (lock_request_wire m) after more),
      );
    }

abbrev pub from_gateway : LockRequest → ℕ → IpcLockRequest
from_gateway m idx = record { ipc = record { code = 1; dest_index = idx }; msg = m }

module _ (e : Endian) where
  -- A message to locator or to a termd, and one to gateway.
  abbrev pub Request : Bytes → Bytes → Type 0
  Request heard msg =
      (m : LockRequest) × (idx : ℕ) × (idx < 2 ^ 32)
      × Asked heard m
      × (msg ≡ ipc_lock_request_object e (from_gateway m idx))

  abbrev pub Ack : Bytes → Bytes → Type 0
  Ack heard msg =
      (m : LockRequest) × (now : ℕ) × Asked heard m
      × (msg ≡ ipc_lock_response_object e (to_gateway now m))

  module _ {K : Type 0} (fifo : Fifo K) where
    -- Every message that waits comes from a request that was heard.
    pub record Genuine (heard : Bytes) (k : K) : Type 0 where
      pub at_locator : All (Request heard) (fifo.waits (key idx_locator) k)
      pub at_termd :
          (slot : ℕ) → slot < 2 ^ 31 → All (Request heard) (fifo.waits (key (index slot)) k)
      pub at_gateway : All (Ack heard) (fifo.waits (key idx_gateway) k)

    pub Genuine-append :
        {heard : Bytes} {k : K} (more : Bytes) → Genuine heard k → Genuine (heard ++ more) k
    Genuine-append {heard} {k} more v = record {
      at_locator =
          All-map (Request heard) (Request (heard ++ more))
            (λ msg (m, idx, fits, a, same). (m, idx, fits, Asked-append more a, same)) _
            v.at_locator;
      at_termd = λ slot small.
          All-map (Request heard) (Request (heard ++ more))
            (λ msg (m, idx, fits, a, same). (m, idx, fits, Asked-append more a, same)) _
            (v.at_termd slot small);
      at_gateway =
          All-map (Ack heard) (Ack (heard ++ more))
            (λ msg (m, now, a, same). (m, now, Asked-append more a, same)) _ v.at_gateway;
    }

    sent_keeps :
        (P : Bytes → Type 0) (dest other : ℕ) (msg : Bytes) (k : K)
        → length msg ≤ 1024
        → (other ≡ key dest → P msg)
        → All P (fifo.waits other k)
        → All P (fifo.waits other (send_to (fifo.ipc) dest msg k).1)
    sent_keeps P dest other msg k short good h =
        queue_sent fifo (All P) dest other msg k short (λ is. All-snoc P _ msg h (good is)) (λ _. h)

    taken_keeps :
        (P : Bytes → Type 0) (from other : ℕ) (msg : Bytes) (rest : List Bytes) (k : K)
        → fifo.waits from k ≡ msg ∷ rest
        → All P (fifo.waits other k)
        → All P (fifo.waits other (fifo.taken from k))
    taken_keeps P from other msg rest k front h =
        queue_taken fifo (All P) from other msg rest k front
          (λ is.
            let all : All P (msg ∷ rest) =
              subst (All P) (ap (λ (q : ℕ). fifo.waits q k) is ∙ front) h in
            all.1)
          (λ _. h)

    pub Genuine-taken :
        {heard : Bytes} {k : K} (from : ℕ) (msg : Bytes) (rest : List Bytes)
        → fifo.waits from k ≡ msg ∷ rest
        → Genuine heard k
        → Genuine heard (fifo.taken from k)
    Genuine-taken {heard} {k} from msg rest front v = record {
      at_locator = taken_keeps (Request heard) from _ msg rest k front v.at_locator;
      at_termd =
          λ slot small. taken_keeps (Request heard) from _ msg rest k front (v.at_termd slot small);
      at_gateway = taken_keeps (Ack heard) from _ msg rest k front v.at_gateway;
    }

    -- A message may be sent to a process if it is one for each process that has that queue.
    pub Genuine-sent :
        {heard : Bytes} {k : K} (dest : ℕ) (msg : Bytes)
        → length msg ≤ 1024
        → (key idx_locator ≡ key dest → Request heard msg)
        → ((slot : ℕ) → slot < 2 ^ 31 → key (index slot) ≡ key dest → Request heard msg)
        → (key idx_gateway ≡ key dest → Ack heard msg)
        → Genuine heard k
        → Genuine heard (send_to (fifo.ipc) dest msg k).1
    Genuine-sent {heard} {k} dest msg short l t g v = record {
      at_locator = sent_keeps (Request heard) dest _ msg k short l v.at_locator;
      at_termd = λ slot small.
          sent_keeps (Request heard) dest _ msg k short (t slot small) (v.at_termd slot small);
      at_gateway = sent_keeps (Ack heard) dest _ msg k short g v.at_gateway;
    }
