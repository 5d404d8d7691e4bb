-- ===== src/Relay.antt =====
-- A lock request from the maintenance terminal to its terminal and the acknowledgement back, through
-- gateway/main.cpp, locator/main.cpp and termd/main.cpp, each behind the `dispatch` of
-- common/process.cpp.
pub mod Whole
use fleetcore.Prelude.{
  ℕ, ◌^◌, ◌≤◌, ◌<◌, ◌≡◌, refl, sym, ◌∙◌, none, some, [], ◌∷◌, ◌++◌, append-nil, arith, length,
}
use fleetcore.Bytes.{Bytes, Endian}
use fleetcore.Gateway.{Gateway, Sockets}
use fleetcore.Gateway as Gate
use fleetcore.Gateway.Downlink.{on_idle_forwards}
use fleetcore.Gateway.Uplink.{on_lock_response_sent}
use fleetcore.IpcMessage.{
  IpcLockRequest, IpcLockResponse, ipc_lock_request_object, ipc_lock_response_object,
  ipc_lock_request_of-object, ipc_lock_response_of-object, idx_gateway, idx_locator,
}
use fleetcore.Locator.{Locator}
use fleetcore.Locator as Loc
use fleetcore.Locator.Resolve.{IsDigits, number}
use fleetcore.Locator.Route.{on_lock_request_routes}
use fleetcore.Process.{message, Ipc, dispatch, find_handler, register_handler, send_to}
use fleetcore.Proto.{LockRequest}
use fleetcore.ShmTable.{Sem, done}
use fleetcore.ShmTable.Locking.{IsOpen, answers}
use fleetcore.ShmTable.Rows.{TermEntry, find_row}
use fleetcore.StreamBuffer.{empty, next}
use fleetcore.TcpServer.{bytes}
use fleetcore.TcpServer.Send.{Willing, taken}
use fleetcore.Termd.{Termd, Env, term_no, index}
use fleetcore.Termd as Term
use fleetcore.Termd.Uplink.{on_lock_request_delivers}
use fleetcore.Wire.{make_lock_response}
use fleetcore.Wire.Layout.{lock_request_wire, lock_response_wire}
use fleetcore.Wire.RoundTrip.{IsLockRequest, make-IsLockMessage}

-- The three internal messages of one request.
abbrev pub to_locator : LockRequest → IpcLockRequest
to_locator m = record { ipc = record { code = 1; dest_index = 0 }; msg = m }

abbrev pub to_termd : ℕ → LockRequest → IpcLockRequest
to_termd slot m = record { ipc = record { code = 1; dest_index = index slot }; msg = m }

abbrev pub to_gateway : ℕ → LockRequest → IpcLockResponse
to_gateway now m = record {
  ipc = record { code = 2; dest_index = 1000 };
  msg = make_lock_response now m.term_no m.header.seq 0;
}

pub nothing_waits : next empty ≡ none
unfolding next
nothing_waits = refl

pub index-lt : (slot : ℕ) → index slot < 2 ^ 32
unfolding index
index-lt slot = omega arith

module _ {K : Type 0} (e : Endian) (ipc : Ipc K) where
  pub dispatch-locator :
      (m : IpcLockRequest) (l : Locator K) (sem : Sem)
      → m.ipc.code ≡ 1
      → length (ipc_lock_request_object e m) ≡ 32
      → dispatch (Loc.handlers e ipc) sem (ipc_lock_request_object e m) l
        ≡ Loc.on_lock_request e ipc sem (ipc_lock_request_object e m) l
  unfolding dispatch Loc.handlers register_handler find_handler
  dispatch-locator m l sem code long = simp (long, code)

  pub dispatch-termd :
      (m : IpcLockRequest) (scratch : Bytes) (env : Env) (d : Termd K)
      → m.ipc.code ≡ 1
      → length (ipc_lock_request_object e m) ≡ 32
      → dispatch (Term.handlers e ipc scratch) env (ipc_lock_request_object e m) d
        ≡ Term.on_lock_request e ipc scratch env (ipc_lock_request_object e m) d
  unfolding dispatch Term.handlers register_handler find_handler
  dispatch-termd m scratch env d code long = simp (long, code)

  pub dispatch-gateway :
      (m : IpcLockResponse) (scratch : Bytes) (env : Sockets) (g : Gateway K)
      → m.ipc.code ≡ 2
      → length (ipc_lock_response_object e m) ≡ 36
      → dispatch (Gate.handlers e ipc scratch) env (ipc_lock_response_object e m) g
        ≡ Gate.on_lock_response e ipc scratch env (ipc_lock_response_object e m) g
  unfolding dispatch Gate.handlers register_handler find_handler
  dispatch-gateway m scratch env g code long = simp (long, code)

  pub from_maintenance :
      (env : Sockets) (m : LockRequest) (b : ℕ) (chunk : Bytes) (fd : ℕ) (g : Gateway K)
      → IsLockRequest m
      → g.tcp.client_fd ≡ some fd
      → env.accept ≡ none
      → env.recv ≡ bytes (b ∷ chunk)
      → g.rx.bytes ++ (b ∷ chunk) ≡ lock_request_wire m
      → Gate.on_idle e ipc env g
        ≡ some (record g {
          rx = empty;
          queues = (send_to ipc idx_locator (ipc_lock_request_object e (to_locator m)) g.queues).1;
        })
  from_maintenance env m b chunk fd g v connected quiet came whole =
      on_idle_forwards e ipc env (m ∷ []) [] b chunk fd g connected quiet came (v, tt) nothing_waits
        (whole
          ∙ sym (append-nil (lock_request_wire m))
          ∙ sym (append-nil (lock_request_wire m ++ [])))

  pub through_locator :
      (m : LockRequest) (l : Locator K) (id a b slot : ℕ) (row : TermEntry)
      → IsLockRequest m
      → IsOpen l.table id
      → IsDigits m.term_no
      → number m.term_no ≡ term_no slot
      → slot < 9000
      → find_row (number m.term_no) l.rows ≡ some row
      → dispatch
          (Loc.handlers e ipc)
          (answers a done b)
          (ipc_lock_request_object e (to_locator m))
          l
        ≡ some (
          message,
          record l {
            queues =
                (send_to ipc (index slot) (ipc_lock_request_object e (to_termd slot m)) l.queues).1;
          },
        )
  through_locator m l id a b slot row v opened digits serves small found =
      dispatch-locator (to_locator m) l (answers a done b) refl
        (ipc_lock_request_of-object e (to_locator m) v.fields (omega arith)).1
      ∙ on_lock_request_routes e ipc (to_locator m) l id a b slot row v.fields (omega arith) opened
          digits serves small found

  pub through_termd :
      (m : LockRequest) (slot : ℕ) (scratch : Bytes) (env : Env) (d : Termd K) (fd : ℕ)
      → IsLockRequest m
      → length scratch ≡ 1024
      → d.tcp.client_fd ≡ some fd
      → Willing env.sends
      → 24 ≤ taken env.sends
      → dispatch (Term.handlers e ipc scratch) env (ipc_lock_request_object e (to_termd slot m)) d
        ≡ some (
          message,
          record d {
            sent = d.sent ++ lock_request_wire m;
            queues =
                (send_to ipc idx_gateway
                  (ipc_lock_response_object e (to_gateway env.now m))
                  d.queues).1;
          },
        )
  through_termd m slot scratch env d fd v size connected w enough =
      dispatch-termd (to_termd slot m) scratch env d refl
        (ipc_lock_request_of-object e (to_termd slot m) v.fields (index-lt slot)).1
      ∙ on_lock_request_delivers e ipc scratch env (to_termd slot m) d fd v.fields (index-lt slot)
          size connected w enough

  pub to_maintenance :
      (m : LockRequest) (now : ℕ) (scratch : Bytes) (env : Sockets) (g : Gateway K) (fd : ℕ)
      → IsLockRequest m
      → length scratch ≡ 1024
      → g.tcp.client_fd ≡ some fd
      → Willing env.sends
      → 28 ≤ taken env.sends
      → dispatch (Gate.handlers e ipc scratch) env (ipc_lock_response_object e (to_gateway now m)) g
        ≡ some (
          message,
          record g {
            sent = g.sent ++ lock_response_wire (make_lock_response now m.term_no m.header.seq 0);
          },
        )
  to_maintenance m now scratch env g fd v size connected w enough =
      let fields = (make-IsLockMessage now m.term_no m.header.seq 0 v.fields.seq_word).1.fields in
      dispatch-gateway (to_gateway now m) scratch env g refl
        (ipc_lock_response_of-object e (to_gateway now m) fields (omega arith)).1
      ∙ on_lock_response_sent e ipc scratch env (to_gateway now m) g fd fields (omega arith) size
          connected w enough
