-- ===== src/Fleet/Order/Taken.antt =====
-- What a termd that takes a request does to the way of the requests for one terminal.
use fleetcore.Prelude.{ℕ, ◌<◌, ◌^◌, ◌≡◌, ◌≢◌, sym, ap, ◌∙◌, subst, some, List, ◌∷◌, arith, length}
use fleetcore.Bytes.{Bytes, Endian}
use fleetcore.Fleet.{Fifo, key, Fleet, with_termd}
use fleetcore.Fleet.Origin.Queues.{Request, from_gateway}
use fleetcore.Fleet.Sent.{Extends}
use fleetcore.IpcMessage.{
  IpcLockRequest, ipc_lock_request_of, ipc_lock_request_object, ipc_lock_response_object,
  ipc_lock_request_of-object, ipc_lock_response_of-object, idx_gateway, idx_locator,
}
use fleetcore.Process.{Severity, dispatch}
use fleetcore.Proto.{LockRequest}
use fleetcore.Relay.{to_gateway}
use fleetcore.StreamBuffer.Serve.{All}
use fleetcore.Termd.{Termd, Env, index, term_no}
use fleetcore.Termd as Term
use fleetcore.Wire.Layout.{lock_request_wire}
use fleetcore.Wire.RoundTrip.{IsLockRequest, make-IsLockMessage}
use fleetcore.Fleet.Origin.Kept.{Honest}
use fleetcore.Fleet.Order.Delivered.{line_delivered}
use fleetcore.Fleet.Order.Steps.{LineOf, with-Line}
use fleetcore.Fleet.Order.Way.{Carries, Carries-front, Line, Line-kept}
use fleetcore.Fleet.Routed.{termd_took}
use fleetcore.Fleet.Waits.{keys_differ, sent_other}
use fleetcore.Termd.Uplink.{acknowledged}

same_slot : (a b : ℕ) → a < 2 ^ 31 → b < 2 ^ 31 → key (index a) ≡ key (index b) → a ≡ b
unfolding index
same_slot a b small fits same = omega arith

-- A message carries one request.
sent_once :
    (e : Endian) (m m' : LockRequest) (idx idx' : ℕ)
    → IsLockRequest m
    → IsLockRequest m'
    → idx < 2 ^ 32
    → idx' < 2 ^ 32
    → ipc_lock_request_object e (from_gateway m idx)
      ≡ ipc_lock_request_object e (from_gateway m' idx')
    → m ≡ m'
sent_once e m m' idx idx' v v' fits fits' same =
    ap (λ (o : IpcLockRequest). o.msg)
      (sym (ipc_lock_request_of-object e (from_gateway m idx) v.fields fits).0
        ∙ ap (ipc_lock_request_of e) same
        ∙ (ipc_lock_request_of-object e (from_gateway m' idx') v'.fields fits').0)

module _ (e : Endian) {K : Type 0} (fifo : Fifo K) (slot : ℕ) (small : slot < 2 ^ 31) where
  acknowledged_waits :
      (now : ℕ) (m : LockRequest) (k : K) (other : ℕ)
      → IsLockRequest m
      → other ≢ key idx_gateway
      → fifo.waits other (acknowledged e fifo.ipc now m k) ≡ fifo.waits other k
  acknowledged_waits now m k other contract differ =
      let fields =
        (make-IsLockMessage now m.term_no m.header.seq 0 contract.fields.seq_word).1.fields in
      let long = (ipc_lock_response_of-object e (to_gateway now m) fields (omega arith)).1 in
      sent_other fifo idx_gateway other (ipc_lock_response_object e (to_gateway now m)) k
        (omega (arith, long)) differ

  -- This termd takes a request.
  own_takes-Line :
      (so_far rx : Bytes) (k k' : K) (sent sent' : Bytes) (msg : Bytes) (rest : List Bytes)
      (m : LockRequest) (idx now : ℕ)
      → fifo.waits (key (index slot)) k ≡ msg ∷ rest
      → IsLockRequest m
      → idx < 2 ^ 32
      → msg ≡ ipc_lock_request_object e (from_gateway m idx)
      → Extends (lock_request_wire m) sent sent'
      → k' ≡ acknowledged e fifo.ipc now m (fifo.taken (key (index slot)) k)
      → Line e fifo slot so_far rx k sent
      → Line e fifo slot so_far rx k' sent'
  own_takes-Line so_far rx k k' sent sent' msg rest m idx now front contract fits is grown queues
        v =
      let (gl, gs, lg, lt, sg, sl) = keys_differ slot small in
      let k0 = fifo.taken (key (index slot)) k in
      let (m', rs, routed, (idx', fits', contract', is'), carries) =
        Carries-front e msg rest v.routed
          (subst (λ (w : List Bytes). Carries e w v.routed) front v.at_termd) in
      let same : m ≡ m' = sent_once e m m' idx idx' contract contract' fits fits' (sym is ∙ is') in
      line_delivered e fifo slot so_far rx sent k v m' rs rest k' sent'
        (ap (fifo.waits (key idx_locator)) queues
          ∙ acknowledged_waits now m k0 (key idx_locator) contract lg
          ∙ fifo.taken_other (key (index slot)) (key idx_locator) k lt)
        (ap (fifo.waits (key (index slot))) queues
          ∙ acknowledged_waits now m k0 (key (index slot)) contract sg
          ∙ fifo.taken_waits (key (index slot)) msg rest k front)
        routed carries
        (subst (λ (n : LockRequest). Extends (lock_request_wire n) sent sent') same grown)

  pub termd_takes-Line :
      (so_far : Bytes) (f : Fleet K) (other : ℕ) (scratch : Bytes) (env : Env) (msg : Bytes)
      (rest : List Bytes) (sev : Severity) (d : Termd K)
      → other < 2 ^ 31
      → length scratch ≡ 1024
      → fifo.waits (key (index other)) f.kernel ≡ msg ∷ rest
      → dispatch (Term.handlers e fifo.ipc scratch) env msg (record (f.termds other) {
        queues = fifo.taken (key (index other)) f.kernel;
        rows = f.rows;
      })
        ≡ some (sev, d)
      → Honest e fifo so_far f
      → LineOf e fifo slot small so_far f
      → LineOf e fifo slot small so_far
          (record f { kernel = d.queues; rows = d.rows; termds = with_termd f.termds other d })
  termd_takes-Line so_far f other scratch env msg rest sev d fit size front returns h v =
      let k0 = fifo.taken (key (index other)) f.kernel in
      let d0 = record (f.termds other) { queues = k0; rows = f.rows } in
      let ((m, idx, fits, asked, is), _) =
        subst (All (Request e so_far)) front (h.queues.at_termd other fit) in
      let contract = asked.contract in
      let (grown, queues) =
        termd_took e fifo scratch env msg m idx d0 d sev contract fits size is returns in
      let (gl, gs, lg, lt, sg, sl) = keys_differ slot small in
      let (ol, os, ml, mt, ug, ul) = keys_differ other fit in
      let rx = f.gateway.rx.bytes in
      with-Line e fifo slot small so_far f other d
        (λ same.
          own_takes-Line so_far rx f.kernel d.queues (f.termds slot).sent d.sent msg rest m idx
            env.now (ap (λ (n : ℕ). fifo.waits (key (index n)) f.kernel) same ∙ front) contract fits
            is
            (subst (λ (n : ℕ). Extends (lock_request_wire m) (f.termds n).sent d.sent) (sym same)
              grown)
            (queues
              ∙ ap
                  (λ (n : ℕ).
                    acknowledged e fifo.ipc env.now m (fifo.taken (key (index n)) f.kernel))
                  (sym same))
            v)
        (λ differ.
          Line-kept e fifo slot so_far rx f.kernel d.queues (f.termds slot).sent
            (ap (fifo.waits (key idx_locator)) queues
              ∙ acknowledged_waits env.now m k0 (key idx_locator) contract lg
              ∙ fifo.taken_other (key (index other)) (key idx_locator) f.kernel mt)
            (ap (fifo.waits (key (index slot))) queues
              ∙ acknowledged_waits env.now m k0 (key (index slot)) contract sg
              ∙ fifo.taken_other (key (index other)) (key (index slot)) f.kernel
                  (λ same. differ (same_slot slot other small fit same)))
            v)
