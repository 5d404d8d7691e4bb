-- ===== src/Process.antt =====
-- common/error_policy.h, common/process.h and common/process.cpp: the loop that every process runs.
-- A process is a state of type `S`, with a function for each handler and one for `on_idle`; logging
-- leaves the state alone. The two shutdown flags are atomics that anyone may set at any time: an
-- event of the loop.
pub mod Run
pub mod Kept
pub mod Stream
pub mod Life
use fleetcore.Prelude.{
  ℕ, zero, suc, ◌+◌, ◌%◌, ◌^◌, Bool, true, false, not, ◌||◌, ◌&&◌, Option, none, some, List, [],
  ◌∷◌, ltb, ◌==◌, if◌then◌else◌, length,
}
use fleetcore.Bytes.{Bytes, byte_at}
use fleetcore.MsgQueue.{MsgQueue, closed, msgq_key_base, open_queue}
use fleetcore.MsgQueue as Queue

pub data Severity : Type 0 where
  message stream peer process : Severity

abbrev pub sizeof_ipc_header : ℕ
sizeof_ipc_header = 8

-- A handler gets the process and the message, and returns how far a failure reaches. `E` is what it
-- meets outside the process while it runs, and `none` means that it has not returned.
abbrev pub Handler : Type 0 → Type 0 → Type 0
Handler E S = E → Bytes → S → Option (Severity × S)

-- `handlers_`: the latest registration of a code is the one that counts.
abbrev pub Handlers : Type 0 → Type 0 → Type 0
Handlers E S = List (ℕ × Handler E S)

module _ {E S : Type 0} where
  unfoldable pub register_handler : ℕ → Handler E S → Handlers E S → Handlers E S
  register_handler code h hs = (code, h) ∷ hs

  unfoldable pub find_handler : ℕ → Handlers E S → Option (Handler E S)
  find_handler code [] = none
  find_handler code ((c, h) ∷ hs) = if c == code then some h else find_handler code hs

  unfoldable pub dispatch : Handlers E S → Handler E S
  dispatch hs env msg s =
      if ltb (length msg) sizeof_ipc_header
      then some (message, s)
      else (elim (find_handler (byte_at msg 0) hs) [
        | none ↦ some (message, s)
        | some h ↦ h env msg s
      ])

-- The kernel's queues, as far as a sender sees them: its state `K`, the id that msgget gives to a
-- process that attaches to a key, and a msgsnd to an id.
pub record Ipc (K : Type 0) : Type 0 where
  pub msgget : ℕ → K → Option ℕ
  pub msgsnd : ℕ → Bytes → K → Bool × K

-- The call of msgsnd that `MsgQueue::send` makes, if it makes one.
unfoldable pub send_queue : {K : Type 0} → Ipc K → MsgQueue → Bytes → K → Bool × K
send_queue ipc q msg k = elim q.id [
  | none ↦ (false, k)
  | some id ↦ if ltb Queue.msgq_max_payload (length msg) then (false, k) else ipc.msgsnd id msg k
]

-- The key is an int32_t, kept as its bit pattern.
unfoldable pub send_to : {K : Type 0} → Ipc K → ℕ → Bytes → K → Bool × K
unfolding send_queue open_queue
send_to ipc dest_index msg k =
    let (ok, q) = open_queue (ipc.msgget ((msgq_key_base + dest_index) % 2 ^ 32) k) false closed in
    if ok then send_queue ipc q msg k else (false, k)

pub record Running (S : Type 0) : Type 0 where
  pub job_end : Bool
  pub system_end : Bool
  pub inner : S

-- What the loop meets: the result of a `recv_timeout`, with what the round meets behind it, or a
-- flag that somebody sets.
pub data Event (E : Type 0) : Type 0 where
  arrived : Bytes → E → Event E
  timed_out : E → Event E
  receive_failed : Event E
  request_job_end : Event E
  request_system_end : Event E

-- How a round ends: the loop goes on, the process exits with a code, or the round never ends.
pub data Ending : Type 0 where
  goes_on : Ending
  exits : ℕ → Ending
  stuck : Ending

abbrev pub is_stopping : {S : Type 0} → Running S → Bool
is_stopping r = r.system_end || r.job_end

unfoldable pub after_handler : {S : Type 0} → Option (Severity × S) → Running S → Ending × Running S
after_handler none r = (stuck, r)
after_handler (some (process, s)) r = (exits 1, record r { inner = s })
after_handler (some (_, s)) r = (goes_on, record r { inner = s })

unfoldable pub after_idle : {S : Type 0} → Option S → Running S → Ending × Running S
after_idle none r = (stuck, r)
after_idle (some s) r = (goes_on, record r { inner = s })

-- What the loop does after a round: `rest` is how it goes on.
unfoldable pub after_round :
    {S : Type 0} → Ending × Running S → Ending × Running S → Ending × Running S
after_round (goes_on, r) rest = rest
after_round (ending, r) rest = (ending, r)

module _ {E S : Type 0} where
  -- One round behind the test of the flags.
  unfoldable pub round :
      Handlers E S → (E → S → Option S) → Event E → Running S → Ending × Running S
  unfolding dispatch after_handler after_idle
  round hs on_idle (arrived msg env) r = after_handler (dispatch hs env msg r.inner) r
  round hs on_idle (timed_out env) r = after_idle (on_idle env r.inner) r
  round hs on_idle receive_failed r = (exits 1, r)
  round hs on_idle request_job_end r = (goes_on, record r { job_end = true })
  round hs on_idle request_system_end r = (goes_on, record r { system_end = true })

  -- `run` over what it meets. `goes_on` at the end means that it waits for more.
  unfoldable pub run :
      Handlers E S → (E → S → Option S) → List (Event E) → Running S → Ending × Running S
  unfolding round after_round
  run hs on_idle [] r = (if is_stopping r then exits 0 else goes_on, r)
  run hs on_idle (e ∷ events) r =
      let rest = run hs on_idle events (round hs on_idle e r).1 in
      if is_stopping r then (exits 0, r) else after_round (round hs on_idle e r) rest
