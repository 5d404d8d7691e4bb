-- ===== src/Termd.antt =====
-- termd/main.cpp: the process of one terminal. Its state holds the terminal's row with the rest of
-- the shared table, the kernel's queues, and all the bytes that the kernel took for the terminal.
-- The slot is the positive number that `main` reads from its argument, `slot_argument`.
pub mod Uplink
pub mod Link
pub mod Kept
pub mod Main
use fleetcore.Prelude.{
  ℕ, zero, suc, ◌+◌, ◌%◌, ◌^◌, Bool, true, false, not, ◌||◌, Option, none, some, List, [], ◌∷◌,
  ◌++◌, ◌==◌, if◌then◌else◌, length, take, ◌>>=◌,
}
use fleetcore.Argument.{pos, read_slot}
use fleetcore.Bytes.{Bytes, Endian}
use fleetcore.IpcMessage.{
  IpcLockResponse, ipc_lock_request_of, ipc_lock_response_object, ipc_lock_request,
  ipc_lock_response, idx_gateway, idx_termd_base, term_port_base, sizeof_ipc_lock_request,
}
use fleetcore.Process.{Severity, message, Handlers, register_handler, Ipc, send_to}
use fleetcore.Proto.{max_message_len, zero_header, result_ok}
use fleetcore.ShmTable.{ShmTable, Sem, register_terminal, set_state}
use fleetcore.ShmTable.Open.{Kernel, open_table}
use fleetcore.ShmTable.Rows.{Table, term_state_connected, term_state_disconnected, cap_lock}
use fleetcore.StreamBuffer.{StreamBuffer, append, next, consume, reset, pending}
use fleetcore.TcpServer.{
  TcpServer, ListenCalls, RecvAnswer, SendAnswer, Read, got, nothing, gone, listen, poll_accept,
  poll_read, drop_client, has_client,
}
use fleetcore.TcpServer as Tcp
use fleetcore.Wire.{is_ok, unpack_header, pack_lock_request, make_lock_response}

pub record Termd (K : Type 0) : Type 0 where
  pub tcp : TcpServer
  pub rx : StreamBuffer
  pub slot : ℕ
  pub table : ShmTable
  pub rows : Table
  pub queues : K
  pub sent : Bytes

-- What one round meets: the sockets, the semaphore of the table, once for each operation that may
-- follow, and the wall clock.
pub record Env : Type 0 where
  pub accept : Option ℕ
  pub recv : RecvAnswer
  pub sends : List SendAnswer
  pub sem_up : Sem
  pub sem_down : Sem
  pub now : ℕ

-- The slot that `main` reads from its arguments, the first of which is the program's name; `none` is
-- the return with an error.
unfoldable pub slot_argument : List Bytes → Option ℕ
slot_argument (program ∷ arg ∷ args) = read_slot (pos 0) arg
slot_argument _ = none

-- 1000u + static_cast<uint32_t>(slot_)
unfoldable pub term_no : ℕ → ℕ
term_no slot = (1000 + slot) % 2 ^ 32

-- `Process`'s index, and the port.
unfoldable pub index : ℕ → ℕ
index slot = (idx_termd_base + slot) % 2 ^ 32

unfoldable pub port : ℕ → ℕ
port slot = (term_port_base + slot) % 2 ^ 16

module _ {K : Type 0} (e : Endian) where
  unfoldable pub handle_from_terminal : Bytes → ℕ → Termd K → Termd K
  handle_from_terminal buf len d =
      let (err, h) = unpack_header e buf len zero_header in
      if not (is_ok err) then record d { tcp = drop_client d.tcp; rx = reset d.rx } else d

  -- The loop of `on_idle` over the messages in the buffer.
  unfoldable pub serve : ℕ → Termd K → Termd K
  unfolding handle_from_terminal
  serve zero d = d
  serve (suc fuel) d = elim (next d.rx) [
    | none ↦ d
    | some (msg, len) ↦
        let d' = handle_from_terminal msg len d in serve fuel (record d' { rx = consume len d'.rx })
  ]

  -- `set_state`, whose result is not looked at.
  unfoldable pub report : Sem → ℕ → ℕ → ℕ → Termd K → Option (Termd K)
  report sem now state caps d = do
    (ok, rows) ← set_state d.table sem now (term_no d.slot) state caps d.rows
    some (record d { rows = rows })

  unfoldable pub after_accept : Env → Bool × TcpServer × Option ℕ → Termd K → Option (Termd K)
  unfolding report
  after_accept env (true, t, closed_fd) d =
      report env.sem_up env.now term_state_connected cap_lock
        (record d { tcp = t; rx = reset d.rx })
  after_accept env (false, t, closed_fd) d = some (record d { tcp = t })

  unfoldable pub after_read : Env → Read × TcpServer → Termd K → Option (Termd K)
  unfolding serve report
  after_read env (gone, t) d =
      report env.sem_down env.now term_state_disconnected 0 (record d { tcp = t; rx = reset d.rx })
  after_read env (nothing, t) d = some (record d { tcp = t })
  after_read env (got chunk, t) d =
      let rx = append chunk d.rx in some (serve (pending rx) (record d { tcp = t; rx = rx }))

  unfoldable pub on_idle : Env → Termd K → Option (Termd K)
  unfolding after_accept after_read
  on_idle env d = do
    d' ← after_accept env (poll_accept env.accept d.tcp) d
    after_read env (poll_read env.recv d'.tcp) d'

  -- The downlink half of `on_lock_request`. `scratch` is the buffer on the stack before anything is
  -- written to it.
  unfoldable pub deliver : Bytes → List SendAnswer → Bytes → Termd K → Option (Termd K)
  deliver scratch sends msg d =
      let m = ipc_lock_request_of e msg in
      let (n, out) = pack_lock_request e m.msg scratch max_message_len in
      let delivery = (do
        (ok, t, taken) ← Tcp.send sends (take n out) d.tcp
        some (record d { tcp = t; sent = d.sent ++ taken })) in
      if not (has_client d.tcp) then some d else if n == 0 then some d else delivery

  unfoldable pub on_lock_request :
      Ipc K → Bytes → Env → Bytes → Termd K → Option (Severity × Termd K)
  on_lock_request ipc scratch env msg d =
      let m = ipc_lock_request_of e msg in
      let rsp : IpcLockResponse = record {
        ipc = record { code = ipc_lock_response; dest_index = idx_gateway };
        msg = make_lock_response env.now m.msg.term_no m.msg.header.seq result_ok;
      } in
      let handled = (do
        d' ← deliver scratch env.sends msg d
        some (
          message,
          record d' {
            queues = (send_to ipc idx_gateway (ipc_lock_response_object e rsp) d'.queues).1;
          },
        )) in
      if not (length msg == sizeof_ipc_lock_request) then some (message, d) else handled

  unfoldable pub handlers : Ipc K → Bytes → Handlers Env (Termd K)
  handlers ipc scratch = register_handler ipc_lock_request (on_lock_request ipc scratch) []

-- `on_init`, with what the kernel answers to `listen` and `open`, and the semaphore behind them.
unfoldable pub on_init :
    {K : Type 0} → ListenCalls → Kernel → Sem → Termd K → Option (Bool × Termd K)
on_init calls k sem d =
    let (listening, t) = listen (port d.slot) calls d.tcp in
    let (opened, table) = open_table k d.table in
    let registered = (do
      (ok, rows) ← register_terminal table sem (term_no d.slot) d.rows
      some (ok, record d { tcp = t; table = table; rows = rows })) in
    if not listening
    then some (false, record d { tcp = t })
    else if not opened
    then some (false, record d { tcp = t; table = table })
    else registered
