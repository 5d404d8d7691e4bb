-- ===== src/Locator/Zero.antt =====
-- The terminal number 0000, which stands for no terminal: the table marks its free rows with it.
use fleetcore.Prelude.{
  ℕ, ◌^◌, ◌<◌, ◌≡◌, inl, inr, refl, ap, ◌∙◌, true, some, [], ◌∷◌, arith, ◌==◌, Bool-cases,
}
use fleetcore.Bytes.{Endian}
use fleetcore.IpcMessage.{
  IpcLockRequest, ipc_lock_request_object, ipc_lock_request_of-object, idx_locator,
}
use fleetcore.Locator.{Locator, termd_index, on_lock_request}
use fleetcore.Locator.Resolve.{
  IsDigits, number, resolve_registered, routed, on_lock_request_resolved,
}
use fleetcore.Process.{message, Ipc, send_to}
use fleetcore.Proto.{TermNo, IsHeader}
use fleetcore.ShmTable.{done}
use fleetcore.ShmTable.Locking.{IsOpen, answers}
use fleetcore.ShmTable.Lookup.{has_free}
use fleetcore.ShmTable.Rows.{TermEntry, Table, find_row}

abbrev pub zeros : TermNo
zeros = record { c0 = b'0'; c1 = b'0'; c2 = b'0'; c3 = b'0' }

-- `find` has no guard for 0: it finds a free row, if there is one.
find_row-zero :
    (rows : Table) → has_free rows ≡ true → (row : TermEntry) × (find_row 0 rows ≡ some row)
unfolding find_row
find_row-zero [] h = cc
find_row-zero (r ∷ rows) h = elim (Bool-cases (r.term_no == 0)) [
  | inl free ↦ (r, rw free)
  | inr used ↦ rw used (find_row-zero rows (rw used at h))
]

zeros-IsDigits : IsDigits zeros
zeros-IsDigits = record {
  first = omega arith;
  second = omega arith;
  third = omega arith;
  fourth = omega arith;
}

-- 3000 + (0 - 1000), where the subtraction wraps and the cast takes it back: locator's own index.
termd_index-zero : termd_index (number zeros) ≡ idx_locator
unfolding termd_index
termd_index-zero = refl

module _ {K : Type 0} (e : Endian) (ipc : Ipc K) where
  -- With the table open and the semaphore got, and while the table has a free row, locator sends a
  -- lock request for terminal 0000 to its own queue, with its own index filled in; and on the
  -- message that it has sent it sends the very same message to its own queue again.
  pub on_lock_request_zero :
      (m : IpcLockRequest) (l : Locator K) (id a b : ℕ)
      → IsHeader m.msg.header
      → m.ipc.dest_index < 2 ^ 32
      → IsOpen l.table id
      → m.msg.term_no ≡ zeros
      → has_free l.rows ≡ true
      → (on_lock_request e ipc (answers a done b) (ipc_lock_request_object e m) l
          ≡ some (
            message,
            record l {
              queues =
                  (send_to ipc idx_locator
                    (ipc_lock_request_object e (routed e ipc m idx_locator))
                    l.queues).1;
            },
          ))
        × (on_lock_request e ipc
              (answers a done b)
              (ipc_lock_request_object e (routed e ipc m idx_locator))
              l
            ≡ some (
              message,
              record l {
                queues =
                    (send_to ipc idx_locator
                      (ipc_lock_request_object e (routed e ipc m idx_locator))
                      l.queues).1;
              },
            ))
  on_lock_request_zero m l id a b v d opened zero_term free =
      (sends m d zero_term v, sends (routed e ipc m idx_locator) (omega arith) zero_term v)
    where
      sends :
          (n : IpcLockRequest)
          → n.ipc.dest_index < 2 ^ 32
          → n.msg.term_no ≡ zeros
          → IsHeader n.msg.header
          → on_lock_request e ipc (answers a done b) (ipc_lock_request_object e n) l
            ≡ some (
              message,
              record l {
                queues =
                    (send_to ipc idx_locator
                      (ipc_lock_request_object e (routed e ipc n idx_locator))
                      l.queues).1;
              },
            )
      sends n fits z w =
          let (read, long) = ipc_lock_request_of-object e n w fits in
          let (row, found) = find_row-zero l.rows free in
          on_lock_request_resolved e ipc (answers a done b) (ipc_lock_request_object e n) n l
            idx_locator read long
            (rw z (
              resolve_registered l.table id a b l.rows zeros row opened zeros-IsDigits found
              ∙ ap some termd_index-zero))
            (omega arith)
