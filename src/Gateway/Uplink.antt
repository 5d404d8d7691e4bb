-- ===== src/Gateway/Uplink.antt =====
-- What gateway/main.cpp does with an acknowledgement.
use fleetcore.Prelude.{
  ℕ, ◌^◌, ◌≤◌, ◌<◌, ◌≡◌, ◌≢◌, ◌⊎◌, inl, inr, none, some, ◌++◌, arith, length, drop,
  take-length-append, ◌==◌, ==_ne, Bool-cases,
}
use fleetcore.Bytes.{Bytes, Endian}
use fleetcore.Gateway.{Gateway, Sockets, on_lock_response}
use fleetcore.IpcMessage.{
  IpcLockResponse, ipc_lock_response_object, ipc_lock_response_of, ipc_lock_response_of-object,
}
use fleetcore.Process.{message, Ipc}
use fleetcore.Proto.{IsHeader}
use fleetcore.TcpServer.Poll.{has_client-none, has_client-some}
use fleetcore.TcpServer.Send.{Willing, taken, send_total}
use fleetcore.Wire.Layout.{lock_response_wire, pack_lock_response-wire}

module _ {K : Type 0} (e : Endian) (ipc : Ipc K) where
  -- Without a maintenance terminal, or with a message of another size, nothing is sent and nothing
  -- changes.
  pub on_lock_response_dropped :
      (scratch : Bytes) (env : Sockets) (msg : Bytes) (g : Gateway K)
      → (length msg ≢ 36) ⊎ (g.tcp.client_fd ≡ none)
      → on_lock_response e ipc scratch env msg g ≡ some (message, g)
  unfolding on_lock_response
  on_lock_response_dropped scratch env msg g (inl size) = rw (==_ne (length msg) 36 size)
  on_lock_response_dropped scratch env msg g (inr gone) =
      rw (has_client-none g.tcp gone)
        (elim (Bool-cases (length msg == 36)) [ inl same ↦ rw same | inr other ↦ rw other ])

  sent_message :
      (scratch : Bytes) (env : Sockets) (msg : Bytes) (m : IpcLockResponse) (g : Gateway K) (fd : ℕ)
      → ipc_lock_response_of e msg ≡ m
      → length msg ≡ 36
      → length scratch ≡ 1024
      → g.tcp.client_fd ≡ some fd
      → Willing env.sends
      → 28 ≤ taken env.sends
      → on_lock_response e ipc scratch env msg g
        ≡ some (message, record g { sent = g.sent ++ lock_response_wire m.msg })
  unfolding on_lock_response
  sent_message scratch env msg m g fd read long size connected w enough =
      let packed =
        pack_lock_response-wire e m.msg scratch 1024 (omega arith) (omega (arith, size)) in
      let front = take-length-append (lock_response_wire m.msg) (drop 28 scratch) in
      simp (read, long, has_client-some g.tcp fd connected, packed)
        (simp (front, send_total env.sends (lock_response_wire m.msg) g.tcp fd connected w enough))

  -- An acknowledgement whose header fields are in range goes to a connected maintenance terminal,
  -- whose socket is ready to take them, as the 28 bytes of its wire form, and the process goes on.
  pub on_lock_response_sent :
      (scratch : Bytes) (env : Sockets) (m : IpcLockResponse) (g : Gateway K) (fd : ℕ)
      → IsHeader m.msg.header
      → m.ipc.dest_index < 2 ^ 32
      → length scratch ≡ 1024
      → g.tcp.client_fd ≡ some fd
      → Willing env.sends
      → 28 ≤ taken env.sends
      → on_lock_response e ipc scratch env (ipc_lock_response_object e m) g
        ≡ some (message, record g { sent = g.sent ++ lock_response_wire m.msg })
  on_lock_response_sent scratch env m g fd v d size connected w enough =
      let (read, long) = ipc_lock_response_of-object e m v d in
      sent_message scratch env _ m g fd read long size connected w enough
