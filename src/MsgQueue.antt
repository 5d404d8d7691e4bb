-- ===== src/MsgQueue.antt =====
-- common/msgq.h and common/msgq.cpp. A `MsgQueue` is an object of one process; the queue itself is
-- the kernel's, and what the kernel answers to each call is an argument.
pub mod Receive
pub mod Owners
pub mod Once
pub mod Removed
use fleetcore.Prelude.{
  ℕ, zero, suc, ◌+◌, Bool, true, false, Option, none, some, List, [], ◌∷◌, ltb, leb, if◌then◌else◌,
  ◌&&◌, length,
}
use fleetcore.Bytes.{Bytes}

-- 0x46431000
abbrev pub msgq_key_base : ℕ
msgq_key_base = 1178800128

abbrev pub msgq_max_payload : ℕ
msgq_max_payload = 1024

pub record MsgQueue : Type 0 where
  pub id : Option ℕ
  pub owner : Bool

abbrev pub closed : MsgQueue
closed = record { id = none; owner = false }

-- `open` with what msgget answers: without IPC_EXCL that may be a queue that was there before, also
-- with `create`, and `owner_` is set all the same. A failure leaves `owner_` as it was.
unfoldable pub open_queue : Option ℕ → Bool → MsgQueue → Bool × MsgQueue
open_queue none create q = (false, record q { id = none })
open_queue (some id) create q = (true, record { id = some id; owner = create })

-- The queue that the destructor removes, if any: IPC_RMID by the owner alone.
unfoldable pub removes : MsgQueue → Option ℕ
removes q = if q.owner then q.id else none

-- Move construction: the new object, and what is left of the old one.
unfoldable pub move : MsgQueue → MsgQueue × MsgQueue
move other = (record { id = other.id; owner = other.owner }, closed)

-- Move assignment from another object: the two objects, and the queue that is removed.
unfoldable pub move_assign : MsgQueue → MsgQueue → MsgQueue × MsgQueue × Option ℕ
unfolding removes
move_assign self other = (record { id = other.id; owner = other.owner }, closed, removes self)

-- `send`: what is handed to msgsnd, if the call is made, and the result.
unfoldable pub send : MsgQueue → Bytes → Bool → Option Bytes × Bool
send q msg msgsnd_ok = elim q.id [
  | none ↦ (none, false)
  | some id ↦ if ltb msgq_max_payload (length msg) then (none, false) else (some msg, msgsnd_ok)
]

-- What msgrcv answers.
pub data MsgRcv : Type 0 where
  got : Bytes → MsgRcv
  enomsg eintr failed : MsgRcv

pub data RecvResult : Type 0 where
  received : Bytes → RecvResult
  timeout : RecvResult
  error : RecvResult

-- `recv`, into a buffer of `room` bytes; `none` is -1.
unfoldable pub recv : MsgQueue → ℕ → MsgRcv → Option Bytes
recv q room answer = elim q.id [
  | none ↦ none
  | some id ↦ elim answer [ got msg ↦ if ltb room (length msg) then none else some msg | _ ↦ none ]
]

abbrev pub slice_ms : ℕ
slice_ms = 50

-- The endless loop of `recv_timeout`, on the answers to its calls of msgrcv and with `waited`. Each
-- result comes with `waited` at the end, which grows by 50 at each call of nanosleep, however long
-- that lasted: its result is not looked at, and a signal may cut it short. `none` means that the
-- loop still runs after the last answer.
unfoldable pub recv_loop : ℕ → ℕ → ℕ → List MsgRcv → Option (RecvResult × ℕ)
recv_loop room timeout_ms waited [] = none
recv_loop room timeout_ms waited (got msg ∷ answers) =
    if ltb room (length msg) then some (error, waited) else some (received msg, waited)
recv_loop room timeout_ms waited (enomsg ∷ answers) =
    let again = recv_loop room timeout_ms (waited + slice_ms) answers in
    if leb timeout_ms waited then some (timeout, waited) else again
recv_loop room timeout_ms waited (eintr ∷ answers) = recv_loop room timeout_ms waited answers
recv_loop room timeout_ms waited (failed ∷ answers) = some (error, waited)

unfoldable pub recv_timeout : MsgQueue → ℕ → ℕ → List MsgRcv → Option (RecvResult × ℕ)
unfolding recv_loop
recv_timeout q room timeout_ms answers = elim q.id [
  | none ↦ some (error, 0)
  | some id ↦ recv_loop room timeout_ms 0 answers
]
