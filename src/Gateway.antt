-- ===== src/Gateway.antt =====
-- gateway/main.cpp. The state of the process, with the kernel's queues and all the bytes that the
-- kernel took for the maintenance terminal, is a record over the state `K` of the queues.
pub mod Handling
pub mod Downlink
pub mod Uplink
pub mod Bound
pub mod Main
use fleetcore.Prelude.{
  ℕ, zero, suc, Bool, true, false, not, Option, none, some, List, [], ◌∷◌, ◌++◌, ◌||◌, ◌==◌,
  if◌then◌else◌, length, replicate, take, ◌>>=◌,
}
use fleetcore.Bytes.{Bytes, Endian}
use fleetcore.IpcMessage.{
  IpcLockRequest, IpcLockResponse, ipc_lock_request_object, ipc_lock_response_of, ipc_lock_request,
  ipc_lock_response, idx_locator, gateway_port, sizeof_ipc_lock_response,
}
use fleetcore.Process.{
  Severity, message, stream, peer, process, Handlers, register_handler, Ipc, send_to,
}
use fleetcore.Proto.{code_lock_request, max_message_len, zero_header, zero_lock_request}
use fleetcore.StreamBuffer.{StreamBuffer, append, next, consume, reset, pending}
use fleetcore.TcpServer.{
  TcpServer, ListenCalls, RecvAnswer, SendAnswer, Read, got, nothing, gone, listen, poll_accept,
  poll_read, drop_client, has_client,
}
use fleetcore.TcpServer as Tcp
use fleetcore.Wire.{wire_ok, is_ok, unpack_header, unpack_lock_request, pack_lock_response}

pub record Gateway (K : Type 0) : Type 0 where
  pub tcp : TcpServer
  pub rx : StreamBuffer
  pub queues : K
  pub sent : Bytes

-- What one round of the process meets at its sockets.
pub record Sockets : Type 0 where
  pub accept : Option ℕ
  pub recv : RecvAnswer
  pub sends : List SendAnswer

abbrev pub is_stream : Severity → Bool
is_stream stream = true
is_stream _ = false

module _ {K : Type 0} (e : Endian) (ipc : Ipc K) where
  unfoldable pub handle_from_maint : Bytes → ℕ → K → Severity × K
  handle_from_maint buf len k =
      let (err, h) = unpack_header e buf len zero_header in
      let (err2, req) = unpack_lock_request e buf len zero_lock_request in
      let out : IpcLockRequest = record {
        ipc = record { code = ipc_lock_request; dest_index = 0 };
        msg = req;
      } in
      if not (is_ok err)
      then (stream, k)
      else if not (h.code == code_lock_request)
      then (message, k)
      else if not (is_ok err2)
      then (message, k)
      else (message, (send_to ipc idx_locator (ipc_lock_request_object e out) k).1)

  -- The loop of `on_idle` over the messages in the buffer.
  unfoldable pub serve : ℕ → Gateway K → Gateway K
  unfolding handle_from_maint
  serve zero g = g
  serve (suc fuel) g = elim (next g.rx) [
    | none ↦ g
    | some (msg, len) ↦
        let (sev, k) = handle_from_maint msg len g.queues in
        let g' = record g { rx = consume len g.rx; queues = k } in
        elim (is_stream sev) [
          | true ↦ record g' { tcp = drop_client g.tcp; rx = reset g'.rx }
          | false ↦ serve fuel g'
        ]
  ]

  unfoldable pub after_read : Read × TcpServer → Gateway K → Gateway K
  unfolding serve
  after_read (gone, t) g = record g { tcp = t; rx = reset g.rx }
  after_read (nothing, t) g = record g { tcp = t }
  after_read (got chunk, t) g =
      let rx = append chunk g.rx in serve (pending rx) (record g { tcp = t; rx = rx })

  unfoldable pub on_idle : Sockets → Gateway K → Option (Gateway K)
  unfolding after_read
  on_idle env g =
      let (accepted, t, closed_fd) = poll_accept env.accept g.tcp in
      let g' = record g { tcp = t; rx = if accepted then reset g.rx else g.rx } in
      some (after_read (poll_read env.recv t) g')

  -- `scratch` is the buffer on the stack before anything is written to it.
  unfoldable pub on_lock_response :
      Bytes → Sockets → Bytes → Gateway K → Option (Severity × Gateway K)
  on_lock_response scratch env msg g =
      let m = ipc_lock_response_of e msg in
      let (n, out) = pack_lock_response e m.msg scratch max_message_len in
      let reply = (do
        (ok, t, taken) ← Tcp.send env.sends (take n out) g.tcp
        some (message, record g { tcp = t; sent = g.sent ++ taken })) in
      if not (length msg == sizeof_ipc_lock_response)
      then some (message, g)
      else if not (has_client g.tcp)
      then some (message, g)
      else if n == 0
      then some (message, g)
      else reply

  unfoldable pub handlers : Bytes → Handlers Sockets (Gateway K)
  handlers scratch = register_handler ipc_lock_response (on_lock_response scratch) []

  -- `on_init`: the handlers are registered, and the port is listened on.
  unfoldable pub on_init : ListenCalls → Gateway K → Bool × Gateway K
  on_init calls g = let (ok, t) = listen gateway_port calls g.tcp in (ok, record g { tcp = t })
