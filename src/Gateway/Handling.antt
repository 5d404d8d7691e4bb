-- ===== src/Gateway/Handling.antt =====
-- What gateway/main.cpp does with one message of the maintenance terminal.
use fleetcore.Prelude.{
  ℕ, ◌≤◌, ◌≡◌, ◌≢◌, ◌⊎◌, inl, inr, ap, ◌∙◌, ◌++◌, append_assoc, arith, length, drop, Bool-cases,
  ◌==◌,
}
use fleetcore.Bytes.{Bytes, AreBytes, Endian}
use fleetcore.Gateway.{handle_from_maint}
use fleetcore.IpcMessage.{ipc_lock_request_object, idx_locator}
use fleetcore.Process.{message, stream, Ipc, send_to}
use fleetcore.Proto.{LockRequest, zero_header, zero_lock_request, term_no_bytes}
use fleetcore.Wire.Decode.{ok-cases}
use fleetcore.Wire.Decode.{is_ok_ne}
use fleetcore.Wire.{wire_ok, unpack_header, unpack_lock_request}
use fleetcore.Wire.Decode.{unpack_header_complete}
use fleetcore.Wire.Layout.{header_wire, lock_request_wire}
use fleetcore.Wire.RoundTrip.{
  IsLockRequest, unpack_lock_request_complete, unpack_lock_request_sound,
}

-- What the queues are after a request has been sent to locator.
abbrev pub forwarded : {K : Type 0} → Endian → Ipc K → LockRequest → K → K
forwarded e ipc m k =
    (send_to ipc idx_locator
      (ipc_lock_request_object e (record { ipc = record { code = 0x01; dest_index = 0 }; msg = m }))
      k).1

module _ {K : Type 0} (e : Endian) (ipc : Ipc K) where
  pub handle_request :
      (m : LockRequest) (rest : Bytes) (len : ℕ) (k : K)
      → IsLockRequest m
      → 24 ≤ len
      → handle_from_maint e ipc (lock_request_wire m ++ rest) len k ≡ (message, forwarded e ipc m k)
  unfolding handle_from_maint
  handle_request m rest len k v room = rw (
    unpack_lock_request_complete e m zero_lock_request rest len v room,
    append_assoc (header_wire m.header) (term_no_bytes m.term_no) rest,
    unpack_header_complete e m.header zero_header (term_no_bytes m.term_no ++ rest) len v.fields
        v.accepted (omega arith),
    v.code_is,
  )

  pub handle_bad :
      (buf : Bytes) (len : ℕ) (k : K)
      → (unpack_header e buf len zero_header).0 ≢ wire_ok
      → handle_from_maint e ipc buf len k ≡ (stream, k)
  unfolding handle_from_maint
  handle_bad buf len k bad = rw (is_ok_ne _ bad)

  handle_skips :
      (buf : Bytes) (len : ℕ) (k : K)
      → (unpack_header e buf len zero_header).0 ≡ wire_ok
      → (unpack_lock_request e buf len zero_lock_request).0 ≢ wire_ok
      → handle_from_maint e ipc buf len k ≡ (message, k)
  unfolding handle_from_maint
  handle_skips buf len k good bad =
      rw (good, is_ok_ne _ bad)
        (elim (Bool-cases ((unpack_header e buf len zero_header).1.code == 0x10)) [
          | inl same ↦ rw same
          | inr other ↦ rw other
        ])

  pub handle_from_maint_cases :
      (buf : Bytes) (len : ℕ) (k : K)
      → AreBytes buf
      → len ≤ length buf
      → (((unpack_header e buf len zero_header).0 ≢ wire_ok)
          × (handle_from_maint e ipc buf len k ≡ (stream, k)))
        ⊎ ((((unpack_header e buf len zero_header).0 ≡ wire_ok)
              × ((unpack_lock_request e buf len zero_lock_request).0 ≢ wire_ok)
              × (handle_from_maint e ipc buf len k ≡ (message, k)))
            ⊎ ((m : LockRequest) × IsLockRequest m
                × (24 ≤ len)
                × (buf ≡ lock_request_wire m ++ drop 24 buf)
                × (handle_from_maint e ipc buf len k ≡ (message, forwarded e ipc m k))))
  handle_from_maint_cases buf len k bs fits =
      elim (ok-cases (unpack_header e buf len zero_header).0) [
        | inr bad ↦ inl (bad, handle_bad buf len k bad)
        | inl good ↦ elim (ok-cases (unpack_lock_request e buf len zero_lock_request).0) [
          | inr bad ↦ inr (inl (good, bad, handle_skips buf len k good bad))
          | inl whole ↦
              let m = (unpack_lock_request e buf len zero_lock_request).1 in
              let (room, v, split) =
                unpack_lock_request_sound e buf len zero_lock_request m bs fits
                  (λ i. (whole i, m)) in
              inr (
                inr (
                  m,
                  v,
                  room,
                  split,
                  ap (λ (b : Bytes). handle_from_maint e ipc b len k) split
                      ∙ handle_request m (drop 24 buf) len k v room,
                ))
        ]
      ]
