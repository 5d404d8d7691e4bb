-- ===== src/Fleet/Reads.antt =====
-- What gateway makes of the bytes that it reads, for any property of what was heard from the
-- maintenance terminal, the bytes in the buffer and the queues.
use fleetcore.Prelude.{
  ℕ, zero, suc, ◌≤◌, ◌≡◌, refl, sym, subst, inl, inr, Bool, true, false, some, [], ◌++◌, append-nil,
  arith, length, drop, drop-length-le, leb, if◌then◌else◌, Bool-cases, Option-cases,
}
use fleetcore.Bytes.{Bytes, AreBytes, Endian}
use fleetcore.Bytes.Order.{AreBytes-append, AreBytes-drop}
use fleetcore.Fleet.{chunk_of, read_by}
use fleetcore.Gateway.{Gateway, Sockets, is_stream, handle_from_maint, serve, after_read, on_idle}
use fleetcore.Gateway.Handling.{forwarded, handle_from_maint_cases}
use fleetcore.Process.{Ipc}
use fleetcore.Proto.{LockRequest}
use fleetcore.StreamBuffer.{StreamBuffer, append, consume, next, pending, reset}
use fleetcore.StreamBuffer.Progress.{next-cases}
use fleetcore.TcpServer.{TcpServer, Read, got, nothing, gone, poll_accept, poll_read}
use fleetcore.Wire.Layout.{lock_request_wire}
use fleetcore.Wire.RoundTrip.{IsLockRequest}

consume-drop : (len : ℕ) (b : StreamBuffer) → (consume len b).bytes ≡ drop len b.bytes
unfolding consume
consume-drop len b = elim (Bool-cases (leb (length b.bytes) len)) [
  | inl all ↦ rw all (sym (drop-length-le len b.bytes (ground (arith, all))))
  | inr more ↦ rw more
]

-- What the property has to allow.
pub record Reading {K : Type 0} (e : Endian) (ipc : Ipc K) (R : Bytes → Bytes → K → Type 0)
    : Type 0 where
  pub forwards :
      (heard buf : Bytes) (len : ℕ) (m : LockRequest) (k : K)
      → IsLockRequest m
      → 24 ≤ len
      → buf ≡ lock_request_wire m ++ drop 24 buf
      → R heard buf k
      → R heard (drop len buf) (forwarded e ipc m k)
  pub skips : (heard buf : Bytes) (len : ℕ) (k : K) → R heard buf k → R heard (drop len buf) k
  pub resets : (heard buf : Bytes) (k : K) → R heard buf k → R heard [] k
  pub hears :
      (heard buf chunk : Bytes) (k : K) → R heard buf k → R (heard ++ chunk) (buf ++ chunk) k

module _ {K : Type 0} {e : Endian} {ipc : Ipc K} {R : Bytes → Bytes → K → Type 0}
    (allows : Reading e ipc R) where
  handle_kept :
      (heard buf : Bytes) (len : ℕ) (k : K)
      → AreBytes buf
      → len ≤ length buf
      → R heard buf k
      → R heard (drop len buf) (handle_from_maint e ipc buf len k).1
  handle_kept heard buf len k bs fits v = elim (handle_from_maint_cases e ipc buf len k bs fits) [
    | inl (bad, same) ↦ rw same (allows.skips heard buf len k v)
    | inr (inl (good, bad, same)) ↦ rw same (allows.skips heard buf len k v)
    | inr (inr (m, contract, room, split, same)) ↦
        rw same (allows.forwards heard buf len m k contract room split v)
  ]

  abbrev Reads : Bytes → Bytes → Gateway K → Type 0
  Reads heard sent g = AreBytes g.rx.bytes × R heard g.rx.bytes g.queues × (g.sent ≡ sent)

  serve-Reads :
      (heard sent : Bytes) (fuel : ℕ) (g : Gateway K)
      → Reads heard sent g
      → Reads heard sent (serve e ipc fuel g)
  unfolding serve reset
  serve-Reads heard sent zero g h = h
  serve-Reads heard sent (suc fuel) g (bs, v, kept) = elim (Option-cases (next g.rx)) [
    | inl n ↦ rw (n, serve) (bs, v, kept)
    | inr ((out, len), n) ↦
        let (front, least, most, why) = next-cases g.rx out len n in
        let k = (handle_from_maint e ipc out len g.queues).1 in
        let left = consume len g.rx in
        let bs' : AreBytes left.bytes =
          subst AreBytes (sym (consume-drop len g.rx)) (AreBytes-drop len g.rx.bytes bs) in
        let v' : R heard left.bytes k =
          subst (λ (b : Bytes). R heard b k) (sym (consume-drop len g.rx))
            (subst
              (λ (b : Bytes).
                R heard (drop len g.rx.bytes) (handle_from_maint e ipc b len g.queues).1)
              (sym front) (handle_kept heard g.rx.bytes len g.queues bs most v)) in
        let later =
          serve-Reads heard sent fuel (record g { rx = left; queues = k }) (bs', v', kept) in
        rw (n, serve)
          (elim (Bool-cases (is_stream (handle_from_maint e ipc out len g.queues).0)) [
            | inl broken ↦ rw broken (tt, allows.resets heard left.bytes k v', kept)
            | inr fine ↦ rw fine later
          ])
  ]

  after_read-Reads :
      (heard sent : Bytes) (r : Read × TcpServer) (g : Gateway K)
      → AreBytes (chunk_of r.0)
      → Reads heard sent g
      → Reads (heard ++ chunk_of r.0) sent (after_read e ipc r g)
  unfolding after_read append reset
  after_read-Reads heard sent (gone, t) g chunk_bytes (bs, v, kept) =
      (tt, allows.hears heard [] [] g.queues (allows.resets heard g.rx.bytes g.queues v), kept)
  after_read-Reads heard sent (nothing, t) g chunk_bytes (bs, v, kept) =
      (bs, subst (λ (b : Bytes). R b g.rx.bytes g.queues) (sym (append-nil heard)) v, kept)
  after_read-Reads heard sent (got chunk, t) g chunk_bytes (bs, v, kept) =
      let rx = append chunk g.rx in
      serve-Reads (heard ++ chunk) sent (pending rx) (record g { tcp = t; rx = rx })
        (
          AreBytes-append g.rx.bytes chunk bs chunk_bytes,
          allows.hears heard g.rx.bytes chunk g.queues v,
          kept,
        )

  if_reset :
      (heard : Bytes) (accepted : Bool) (b : StreamBuffer) (k : K)
      → AreBytes b.bytes × R heard b.bytes k
      → AreBytes (if accepted then reset b else b).bytes
        × R heard (if accepted then reset b else b).bytes k
  unfolding reset
  if_reset heard true b k (bs, v) = (tt, allows.resets heard b.bytes k v)
  if_reset heard false b k v = v

  -- A round of gateway at its socket keeps the property, if it may read, forward and skip.
  pub on_idle-Reads :
      (heard : Bytes) (env : Sockets) (g g' : Gateway K)
      → AreBytes (read_by env g)
      → AreBytes g.rx.bytes
      → R heard g.rx.bytes g.queues
      → on_idle e ipc env g ≡ some g'
      → AreBytes g'.rx.bytes × R (heard ++ read_by env g) g'.rx.bytes g'.queues × (g'.sent ≡ g.sent)
  unfolding on_idle
  on_idle-Reads heard env g g' read bs v returns =
      let (accepted, t, closed_fd) = poll_accept env.accept g.tcp in
      let g0 = record g { tcp = t; rx = if accepted then reset g.rx else g.rx } in
      let (bs', v') = if_reset heard accepted g.rx g.queues (bs, v) in
      let after = after_read-Reads heard g.sent (poll_read env.recv t) g0 read (bs', v', refl) in
      let is : after_read e ipc (poll_read env.recv t) g0 ≡ g' = cc returns in
      subst (Reads (heard ++ chunk_of (poll_read env.recv t).0) g.sent) is after
