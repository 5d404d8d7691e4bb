-- ===== src/Termd/Uplink.antt =====
-- What termd/main.cpp does with a lock request from locator.
use fleetcore.Prelude.{
  ℕ, ◌^◌, ◌≤◌, ◌<◌, ◌≡◌, none, some, List, ◌++◌, arith, length, drop, take-length-append,
}
use fleetcore.Bytes.{Bytes, Endian}
use fleetcore.IpcMessage.{
  IpcLockRequest, ipc_lock_request_object, ipc_lock_request_of, ipc_lock_request_of-object,
  ipc_lock_response_object, ipc_lock_response, idx_gateway,
}
use fleetcore.Process.{message, Ipc, send_to}
use fleetcore.Proto.{IsHeader, LockRequest, result_ok}
use fleetcore.TcpServer.{SendAnswer}
use fleetcore.TcpServer.Poll.{has_client-none, has_client-some}
use fleetcore.TcpServer.Send.{Willing, taken, send_total}
use fleetcore.Termd.{Termd, Env, deliver, on_lock_request}
use fleetcore.Wire.{make_lock_response}
use fleetcore.Wire.Layout.{lock_request_wire, pack_lock_request-wire}

-- The queues after the acknowledgement of `m` has been sent to gateway: result 0, with the terminal
-- number and the sequence number of the request.
abbrev pub acknowledged : {K : Type 0} → Endian → Ipc K → ℕ → LockRequest → K → K
acknowledged e ipc now m k =
    (send_to ipc idx_gateway
      (ipc_lock_response_object e (record {
        ipc = record { code = ipc_lock_response; dest_index = idx_gateway };
        msg = make_lock_response now m.term_no m.header.seq result_ok;
      }))
      k).1

module _ {K : Type 0} (e : Endian) (ipc : Ipc K) where
  deliver_sent :
      (scratch : Bytes) (sends : List SendAnswer) (msg : Bytes) (m : IpcLockRequest) (d : Termd K)
      (fd : ℕ)
      → ipc_lock_request_of e msg ≡ m
      → length scratch ≡ 1024
      → d.tcp.client_fd ≡ some fd
      → Willing sends
      → 24 ≤ taken sends
      → deliver e scratch sends msg d ≡ some (record d { sent = d.sent ++ lock_request_wire m.msg })
  unfolding deliver
  deliver_sent scratch sends msg m d fd read size connected w enough =
      let packed =
        pack_lock_request-wire e m.msg scratch 1024 (omega arith) (omega (arith, size)) in
      let front = take-length-append (lock_request_wire m.msg) (drop 24 scratch) in
      simp (read, has_client-some d.tcp fd connected, packed)
        (simp (front, send_total sends (lock_request_wire m.msg) d.tcp fd connected w enough))

  deliver_unreachable :
      (scratch : Bytes) (sends : List SendAnswer) (msg : Bytes) (d : Termd K)
      → d.tcp.client_fd ≡ none
      → deliver e scratch sends msg d ≡ some d
  unfolding deliver
  deliver_unreachable scratch sends msg d gone = rw (has_client-none d.tcp gone)

  pub request_acknowledged :
      (scratch : Bytes) (env : Env) (msg : Bytes) (m : IpcLockRequest) (d d' : Termd K)
      → ipc_lock_request_of e msg ≡ m
      → length msg ≡ 32
      → deliver e scratch env.sends msg d ≡ some d'
      → on_lock_request e ipc scratch env msg d
        ≡ some (message, record d' { queues = acknowledged e ipc env.now m.msg d'.queues })
  unfolding on_lock_request
  request_acknowledged scratch env msg m d d' read long delivered = simp (read, long, delivered)

  -- A lock request whose header fields are in range goes to a connected terminal, whose socket is
  -- ready to take them, as the 24 bytes of its wire form, and is acknowledged to gateway with
  -- result 0 and the request's own terminal and sequence numbers.
  pub on_lock_request_delivers :
      (scratch : Bytes) (env : Env) (m : IpcLockRequest) (d : Termd K) (fd : ℕ)
      → IsHeader m.msg.header
      → m.ipc.dest_index < 2 ^ 32
      → length scratch ≡ 1024
      → d.tcp.client_fd ≡ some fd
      → Willing env.sends
      → 24 ≤ taken env.sends
      → on_lock_request e ipc scratch env (ipc_lock_request_object e m) d
        ≡ some (
          message,
          record d {
            sent = d.sent ++ lock_request_wire m.msg;
            queues = acknowledged e ipc env.now m.msg d.queues;
          },
        )
  on_lock_request_delivers scratch env m d fd v fits size connected w enough =
      let (read, long) = ipc_lock_request_of-object e m v fits in
      request_acknowledged scratch env _ m d _ read long
        (deliver_sent scratch env.sends _ m d fd read size connected w enough)

  -- With no terminal connected, a lock request whose header fields are in range is not sent and not
  -- kept, yet gateway gets the acknowledgement with result 0 that it gets for a request that was
  -- delivered.
  pub on_lock_request_unreachable :
      (scratch : Bytes) (env : Env) (m : IpcLockRequest) (d : Termd K)
      → IsHeader m.msg.header
      → m.ipc.dest_index < 2 ^ 32
      → d.tcp.client_fd ≡ none
      → on_lock_request e ipc scratch env (ipc_lock_request_object e m) d
        ≡ some (message, record d { queues = acknowledged e ipc env.now m.msg d.queues })
  on_lock_request_unreachable scratch env m d v fits gone =
      let (read, long) = ipc_lock_request_of-object e m v fits in
      request_acknowledged scratch env _ m d d read long
        (deliver_unreachable scratch env.sends _ d gone)
