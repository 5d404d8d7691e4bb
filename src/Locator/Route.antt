-- ===== src/Locator/Route.antt =====
-- Which termd gets a lock request, and which requests go nowhere.
use fleetcore.Prelude.{ℕ, ◌^◌, ◌<◌, ◌≡◌, ◌≢◌, ◌⊎◌, ap, ◌∙◌, none, some, arith}
use fleetcore.Bytes.{Endian}
use fleetcore.IpcMessage.{IpcLockRequest, ipc_lock_request_object, ipc_lock_request_of-object}
use fleetcore.Locator.{Locator, parse_digits, termd_index, on_lock_request}
use fleetcore.Locator.Resolve.{
  IsDigits, number, resolve_registered, resolve_unknown, routed, on_lock_request_resolved,
  on_lock_request_unresolved,
}
use fleetcore.Process.{message, Ipc, send_to}
use fleetcore.Proto.{IsHeader, term_no_bytes}
use fleetcore.ShmTable.{done}
use fleetcore.ShmTable.Locking.{IsOpen, answers}
use fleetcore.ShmTable.Rows.{TermEntry, find_row}
use fleetcore.Termd.{term_no, index}

termd_index-term_no :
    (slot : ℕ) → slot < 9000 → (termd_index (term_no slot) ≡ index slot) × (index slot ≢ 0)
unfolding termd_index term_no index
termd_index-term_no slot h = (omega arith, omega arith)

module _ {K : Type 0} (e : Endian) (ipc : Ipc K) where
  -- With the table open and the semaphore got, a request for the terminal of a slot below 9000 that
  -- has a row in the table, connected or not, is sent to the queue of the termd of that slot: the
  -- same message, with the index filled in.
  pub on_lock_request_routes :
      (m : IpcLockRequest) (l : Locator K) (id a b slot : ℕ) (row : TermEntry)
      → IsHeader m.msg.header
      → m.ipc.dest_index < 2 ^ 32
      → IsOpen l.table id
      → IsDigits m.msg.term_no
      → number m.msg.term_no ≡ term_no slot
      → slot < 9000
      → find_row (number m.msg.term_no) l.rows ≡ some row
      → on_lock_request e ipc (answers a done b) (ipc_lock_request_object e m) l
        ≡ some (
          message,
          record l {
            queues =
                (send_to ipc
                  (index slot)
                  (ipc_lock_request_object e (routed e ipc m (index slot)))
                  l.queues).1;
          },
        )
  on_lock_request_routes m l id a b slot row v d opened digits serves small found =
      let (read, long) = ipc_lock_request_of-object e m v d in
      let (same, nz) = termd_index-term_no slot small in
      on_lock_request_resolved e ipc (answers a done b) (ipc_lock_request_object e m) m l
        (index slot) read long
        (resolve_registered l.table id a b l.rows m.msg.term_no row opened digits found
          ∙ ap some (ap termd_index serves ∙ same))
        nz

  -- With the table open and the semaphore got, a request for a terminal that has no row, or whose
  -- four characters are no number, is dropped.
  pub on_lock_request_unknown :
      (m : IpcLockRequest) (l : Locator K) (id a b : ℕ)
      → IsHeader m.msg.header
      → m.ipc.dest_index < 2 ^ 32
      → IsOpen l.table id
      → (parse_digits (term_no_bytes m.msg.term_no) 0 ≡ none)
        ⊎ (IsDigits m.msg.term_no × (find_row (number m.msg.term_no) l.rows ≡ none))
      → on_lock_request e ipc (answers a done b) (ipc_lock_request_object e m) l ≡ some (message, l)
  on_lock_request_unknown m l id a b v d opened why =
      let (read, long) = ipc_lock_request_of-object e m v d in
      on_lock_request_unresolved e ipc (answers a done b) (ipc_lock_request_object e m) m l read
        long (resolve_unknown l.table id a b l.rows m.msg.term_no opened why)
