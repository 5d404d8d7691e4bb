-- ===== src/Fleet.antt =====
-- gateway, locator and one termd for each slot as processes on one host, with the message queues of
-- the kernel and the rows of the shared table between them: each process is in its loop, `run` of
-- common/process.cpp, and what one puts into a queue is what another takes out.
pub mod Delivery
pub mod Sent
pub mod Order
pub mod Waits
pub mod Reads
pub mod Routed
pub mod Origin
pub mod Quiet
use fleetcore.Prelude.{
  ℕ, ◌+◌, ◌%◌, ◌^◌, ◌<◌, ◌≡◌, length, ◌≢◌, Option, some, List, [], ◌∷◌, ◌++◌, ◌==◌, if◌then◌else◌,
}
use fleetcore.Bytes.{Bytes, AreBytes, Endian}
use fleetcore.Gateway.{Gateway, Sockets}
use fleetcore.Gateway as Gate
use fleetcore.IpcMessage.{idx_gateway, idx_locator}
use fleetcore.Locator.{Locator}
use fleetcore.Locator as Loc
use fleetcore.MsgQueue.{msgq_key_base}
use fleetcore.Process.{Severity, Ipc, dispatch}
use fleetcore.Proto.{max_message_len}
use fleetcore.ShmTable.{Sem}
use fleetcore.ShmTable.Rows.{Table}
use fleetcore.TcpServer.{Read, got, nothing, gone, poll_accept, poll_read}
use fleetcore.Termd.{Termd, Env, index}
use fleetcore.Termd as Term

-- The queues of the kernel over a state `K`, as msgsnd and msgrcv document them while there is room:
-- what is sent to a key waits there behind what was sent before, and the oldest is taken first.
-- `taken` is the state when the oldest has been taken.
pub record Fifo (K : Type 0) : Type 0 where
  pub ipc : Ipc K
  pub waits : ℕ → K → List Bytes
  pub taken : ℕ → K → K
  pub msgget_some : (key : ℕ) (k : K) → (id : ℕ) × (ipc.msgget key k ≡ some id)
  pub msgsnd_waits :
      (key id : ℕ) (msg : Bytes) (k : K)
      → ipc.msgget key k ≡ some id
      → waits key (ipc.msgsnd id msg k).1 ≡ waits key k ++ (msg ∷ [])
  pub msgsnd_other :
      (key id other : ℕ) (msg : Bytes) (k : K)
      → ipc.msgget key k ≡ some id
      → other ≢ key
      → waits other (ipc.msgsnd id msg k).1 ≡ waits other k
  pub taken_waits :
      (key : ℕ) (msg : Bytes) (rest : List Bytes) (k : K)
      → waits key k ≡ msg ∷ rest
      → waits key (taken key k) ≡ rest
  pub taken_other :
      (key other : ℕ) (k : K) → other ≢ key → waits other (taken key k) ≡ waits other k

-- The key of a process's queue.
abbrev pub key : ℕ → ℕ
key idx = (msgq_key_base + idx) % 2 ^ 32

pub record Fleet (K : Type 0) : Type 0 where
  pub kernel : K
  pub rows : Table
  pub gateway : Gateway K
  pub locator : Locator K
  pub termds : ℕ → Termd K

abbrev pub with_termd : {K : Type 0} → (ℕ → Termd K) → ℕ → Termd K → ℕ → Termd K
with_termd f slot d n = if n == slot then d else f n

-- The bytes that a read returns, and those that gateway reads from the maintenance terminal in a
-- round at its sockets.
abbrev pub chunk_of : Read → Bytes
chunk_of (got chunk) = chunk
chunk_of nothing = []
chunk_of gone = []

abbrev pub read_by : {K : Type 0} → Sockets → Gateway K → Bytes
read_by env g = chunk_of (poll_read env.recv (poll_accept env.accept g.tcp).1).0

module _ {K : Type 0} (fifo : Fifo K) (e : Endian) where
  -- The slot of a termd is an int32_t, and its and gateway's buffer on the stack has 1024 bytes; recv fills
  -- a buffer of bytes.
  -- A process runs its handler on the oldest message of its queue, or, while none waits for it, gateway
  -- or a termd its on_idle.
  pub data Step (f : Fleet K) : Fleet K → Type 0 where
    gateway_idles :
        (env : Sockets) (g : Gateway K)
        → AreBytes (read_by env f.gateway)
        → fifo.waits (key idx_gateway) f.kernel ≡ []
        → Gate.on_idle e (fifo.ipc) env (record f.gateway { queues = f.kernel }) ≡ some g
        → Step f (record f { kernel = g.queues; gateway = g })
    gateway_takes :
        (scratch : Bytes) (env : Sockets) (msg : Bytes) (rest : List Bytes) (sev : Severity)
        (g : Gateway K)
        → length scratch ≡ max_message_len
        → fifo.waits (key idx_gateway) f.kernel ≡ msg ∷ rest
        → dispatch
            (Gate.handlers e (fifo.ipc) scratch)
            env
            msg
            (record f.gateway { queues = fifo.taken (key idx_gateway) f.kernel })
          ≡ some (sev, g)
        → Step f (record f { kernel = g.queues; gateway = g })
    locator_takes :
        (sem : Sem) (msg : Bytes) (rest : List Bytes) (sev : Severity) (l : Locator K)
        → fifo.waits (key idx_locator) f.kernel ≡ msg ∷ rest
        → dispatch
            (Loc.handlers e (fifo.ipc))
            sem
            msg
            (record f.locator { queues = fifo.taken (key idx_locator) f.kernel; rows = f.rows })
          ≡ some (sev, l)
        → Step f (record f { kernel = l.queues; rows = l.rows; locator = l })
    termd_idles :
        (slot : ℕ) (env : Env) (d : Termd K)
        → slot < 2 ^ 31
        → fifo.waits (key (index slot)) f.kernel ≡ []
        → Term.on_idle e env (record (f.termds slot) { queues = f.kernel; rows = f.rows }) ≡ some d
        → Step f
            (record f { kernel = d.queues; rows = d.rows; termds = with_termd f.termds slot d })
    termd_takes :
        (slot : ℕ) (scratch : Bytes) (env : Env) (msg : Bytes) (rest : List Bytes) (sev : Severity)
        (d : Termd K)
        → slot < 2 ^ 31
        → length scratch ≡ max_message_len
        → fifo.waits (key (index slot)) f.kernel ≡ msg ∷ rest
        → dispatch (Term.handlers e (fifo.ipc) scratch) env msg (record (f.termds slot) {
          queues = fifo.taken (key (index slot)) f.kernel;
          rows = f.rows;
        })
          ≡ some (sev, d)
        → Step f
            (record f { kernel = d.queues; rows = d.rows; termds = with_termd f.termds slot d })

  pub data Reach (f : Fleet K) : Fleet K → Type 0 where
    here : Reach f f
    later : {g h : Fleet K} → Reach f g → Step g h → Reach f h
