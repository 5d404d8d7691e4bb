-- ===== src/Relay/Whole.antt =====
-- A request and its acknowledgement, all the way through the three processes.
use fleetcore.Prelude.{ℕ, ◌≤◌, ◌<◌, ◌≡◌, none, some, ◌∷◌, ◌++◌, length}
use fleetcore.Bytes.{Bytes, Endian}
use fleetcore.Gateway.{Gateway, Sockets}
use fleetcore.Gateway as Gate
use fleetcore.IpcMessage.{
  ipc_lock_request_object, ipc_lock_response_object, idx_gateway, idx_locator,
}
use fleetcore.Locator.{Locator}
use fleetcore.Locator as Loc
use fleetcore.Locator.Resolve.{IsDigits, number}
use fleetcore.Process.{message, Ipc, dispatch, send_to}
use fleetcore.Proto.{LockRequest}
use fleetcore.ShmTable.{done}
use fleetcore.ShmTable.Locking.{IsOpen, answers}
use fleetcore.ShmTable.Rows.{TermEntry, find_row}
use fleetcore.StreamBuffer.{empty}
use fleetcore.TcpServer.{bytes}
use fleetcore.TcpServer.Send.{Willing, taken}
use fleetcore.Termd.{Termd, Env, term_no, index}
use fleetcore.Termd as Term
use fleetcore.Wire.{make_lock_response}
use fleetcore.Wire.Layout.{lock_request_wire, lock_response_wire}
use fleetcore.Wire.RoundTrip.{IsLockRequest}
use fleetcore.Relay.{
  to_locator, to_termd, to_gateway, from_maintenance, through_locator, through_termd,
  to_maintenance,
}

module _ {K : Type 0} (e : Endian) (ipc : Ipc K) where
  -- What the four processes on the way do with the request and its acknowledgement.
  abbrev pub Relayed :
      (m : LockRequest) (slot : ℕ) (scratch : Bytes) (maint : Sockets) (g : Gateway K)
      (l : Locator K) (a r : ℕ) (env : Env) (d : Termd K) (back : Sockets) (g' : Gateway K)
      → Type 0
  Relayed m slot scratch maint g l a r env d back g' =
      (Gate.on_idle e ipc maint g
        ≡ some (record g {
          rx = empty;
          queues = (send_to ipc idx_locator (ipc_lock_request_object e (to_locator m)) g.queues).1;
        }))
      × (dispatch (Loc.handlers e ipc) (answers a done r) (ipc_lock_request_object e (to_locator m))
            l
          ≡ some (
            message,
            record l {
              queues =
                  (send_to ipc (index slot) (ipc_lock_request_object e (to_termd slot m))
                    l.queues).1;
            },
          ))
      × (dispatch (Term.handlers e ipc scratch) env (ipc_lock_request_object e (to_termd slot m)) d
          ≡ some (
            message,
            record d {
              sent = d.sent ++ lock_request_wire m;
              queues =
                  (send_to ipc idx_gateway (ipc_lock_response_object e (to_gateway env.now m))
                    d.queues).1;
            },
          ))
      × (dispatch (Gate.handlers e ipc scratch) back
            (ipc_lock_response_object e (to_gateway env.now m)) g'
          ≡ some (
            message,
            record g' {
              sent =
                  g'.sent
                  ++ lock_response_wire (make_lock_response env.now m.term_no m.header.seq 0);
            },
          ))

  -- A request goes to its terminal and its acknowledgement comes back. When the bytes of a lock
  -- request that meets the contract are complete, gateway puts a message into the queue of locator;
  -- from that message, if the table is open, the semaphore is got, and the terminal is the one of a
  -- slot below 9000 and has a row, locator puts one into the queue of the terminal's process; from
  -- that one, with the terminal connected, the process sends the terminal the request as it came
  -- and puts an acknowledgement into the queue of gateway; and from that, with a maintenance
  -- terminal connected, gateway sends it a lock response with result 0 and the request's terminal
  -- and sequence numbers. Apart from that each process is in any state; the sockets are ready to
  -- take what is sent.
  pub request-Relayed :
      (m : LockRequest) (slot : ℕ) (scratch : Bytes) (maint : Sockets) (b : ℕ) (chunk : Bytes)
      (g : Gateway K) (gfd : ℕ) (l : Locator K) (id a r : ℕ) (row : TermEntry) (env : Env)
      (d : Termd K) (dfd : ℕ) (back : Sockets) (g' : Gateway K) (gfd' : ℕ)
      → IsLockRequest m
      → IsDigits m.term_no
      → number m.term_no ≡ term_no slot
      → slot < 9000
      → length scratch ≡ 1024
      → g.tcp.client_fd ≡ some gfd
      → maint.accept ≡ none
      → maint.recv ≡ bytes (b ∷ chunk)
      → g.rx.bytes ++ (b ∷ chunk) ≡ lock_request_wire m
      → IsOpen l.table id
      → find_row (number m.term_no) l.rows ≡ some row
      → d.tcp.client_fd ≡ some dfd
      → Willing env.sends
      → 24 ≤ taken env.sends
      → g'.tcp.client_fd ≡ some gfd'
      → Willing back.sends
      → 28 ≤ taken back.sends
      → Relayed m slot scratch maint g l a r env d back g'
  request-Relayed m slot scratch maint b chunk g gfd l id a r row env d dfd back g' gfd' v digits
        serves small size g_up quiet came whole opened found d_up d_will d_room g_up' g_will
        g_room =
      (
        from_maintenance e ipc maint m b chunk gfd g v g_up quiet came whole,
        through_locator e ipc m l id a r slot row v opened digits serves small found,
        through_termd e ipc m slot scratch env d dfd v size d_up d_will d_room,
        to_maintenance e ipc m env.now scratch back g' gfd' v size g_up' g_will g_room,
      )
