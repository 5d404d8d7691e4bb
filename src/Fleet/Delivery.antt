-- ===== src/Fleet/Delivery.antt =====
-- A request and its acknowledgement through the queues of one host.
use fleetcore.Prelude.{
  ◌≢◌, ◌∙◌, refl, arith, ap, List, [], ℕ, ◌≤◌, ◌<◌, ◌≡◌, none, some, ◌∷◌, ◌++◌, length,
}
use fleetcore.Bytes.{Bytes, AreBytes, Endian}
use fleetcore.Fleet.{read_by}
use fleetcore.Gateway.{Gateway}
use fleetcore.TcpServer.Poll.{poll_accept-none, poll_read-bytes}
use fleetcore.Bytes.Order.{AreBytes-end}
use fleetcore.Prelude.{subst, sym}
use fleetcore.Gateway.{Sockets}
use fleetcore.IpcMessage.{
  ipc_lock_request_object, ipc_lock_response_object, idx_gateway, idx_locator,
}
use fleetcore.Locator.Resolve.{IsDigits, number}
use fleetcore.Process.{message, send_to}
use fleetcore.Proto.{LockRequest}
use fleetcore.ShmTable.{done}
use fleetcore.ShmTable.Locking.{IsOpen, answers}
use fleetcore.ShmTable.Rows.{TermEntry, find_row}
use fleetcore.StreamBuffer.{empty}
use fleetcore.TcpServer.{bytes}
use fleetcore.TcpServer.Send.{Willing, taken}
use fleetcore.Termd.{Termd, Env, term_no, index}
use fleetcore.Wire.{make_lock_response}
use fleetcore.Wire.Layout.{lock_request_wire, lock_response_wire}
use fleetcore.Wire.RoundTrip.{IsLockRequest}
use fleetcore.Relay.{
  to_locator, to_termd, to_gateway, index-lt, from_maintenance, through_locator, through_termd,
  to_maintenance,
}
use fleetcore.IpcMessage.{ipc_lock_request_of-object, ipc_lock_response_of-object}
use fleetcore.Wire.RoundTrip.{make-IsLockMessage}
use fleetcore.Fleet.Waits.{its_own, keys_differ, sent_waits, sent_other}
use fleetcore.Fleet.{
  Fifo, key, Fleet, gateway_idles, gateway_takes, locator_takes, termd_takes, Reach, here, later,
}

AreBytes-wire :
    (m : LockRequest) → IsLockRequest m → IsDigits m.term_no → AreBytes (lock_request_wire m)
AreBytes-wire m v d =
    let magic_0 = v.fields.magic_0_byte in
    let magic_1 = v.fields.magic_1_byte in
    let version = v.fields.version_byte in let code = v.fields.code_byte in omega arith

-- What gateway reads when the end of a request comes.
read_by-came :
    {K : Type 0} (env : Sockets) (g : Gateway K) (b : ℕ) (chunk : Bytes) (fd : ℕ)
    → g.tcp.client_fd ≡ some fd
    → env.accept ≡ none
    → env.recv ≡ bytes (b ∷ chunk)
    → read_by env g ≡ b ∷ chunk
read_by-came env g b chunk fd up quiet came =
    simp (quiet, came, poll_accept-none g.tcp, poll_read-bytes b chunk g.tcp fd up)

module _ {K : Type 0} (fifo : Fifo K) (e : Endian) where
  -- The kernel when a message has been sent and taken.
  abbrev through : ℕ → Bytes → K → K
  through dest msg k = fifo.taken (key dest) (send_to (fifo.ipc) dest msg k).1

  sent_alone :
      (dest : ℕ) (msg : Bytes) (k : K)
      → length msg ≤ 1024
      → fifo.waits (key dest) k ≡ []
      → (fifo.waits (key dest) (send_to (fifo.ipc) dest msg k).1 ≡ msg ∷ [])
        × (fifo.waits (key dest) (through dest msg k) ≡ [])
  sent_alone dest msg k short idle =
      let alone =
        sent_waits fifo dest msg k short ∙ ap (λ (l : List Bytes). l ++ (msg ∷ [])) idle in
      (alone, fifo.taken_waits (key dest) msg [] (send_to (fifo.ipc) dest msg k).1 alone)

  through_other :
      (dest other : ℕ) (msg : Bytes) (k : K)
      → length msg ≤ 1024
      → other ≢ key dest
      → fifo.waits other k ≡ []
      → fifo.waits other (through dest msg k) ≡ []
  through_other dest other msg k short differ idle =
      fifo.taken_other (key dest) other (send_to (fifo.ipc) dest msg k).1 differ
      ∙ sent_other fifo dest other msg k short differ
      ∙ idle

  -- Nothing waits in the queues of gateway, locator and the termd of this slot.
  abbrev pub Idle : ℕ → K → Type 0
  Idle slot k =
      (fifo.waits (key idx_gateway) k ≡ [])
      × (fifo.waits (key idx_locator) k ≡ [])
      × (fifo.waits (key (index slot)) k ≡ [])

  -- A request travels through the queues of one host and its acknowledgement comes back. If nothing
  -- waits for gateway, locator and the termd of a slot below 9000, whose terminal and a maintenance
  -- terminal are connected, the terminal, whose number is four digits, has a row in the table,
  -- which locator has open, and gateway reads the last bytes of a lock request for it that meets
  -- the contract, then the processes can go on, with the semaphore got and sockets that take what
  -- is sent, so that the terminal has been sent the request as it came, the maintenance terminal a
  -- response with result 0 and the request's numbers, and again nothing waits for the three.
  pub request_travels :
      (f : Fleet K) (m : LockRequest) (slot : ℕ) (scratch : Bytes) (maint back : Sockets) (b : ℕ)
      (chunk : Bytes) (gfd dfd id a r : ℕ) (row : TermEntry) (env : Env)
      → Idle slot f.kernel
      → IsLockRequest m
      → IsDigits m.term_no
      → number m.term_no ≡ term_no slot
      → slot < 9000
      → length scratch ≡ 1024
      → f.gateway.tcp.client_fd ≡ some gfd
      → maint.accept ≡ none
      → maint.recv ≡ bytes (b ∷ chunk)
      → f.gateway.rx.bytes ++ (b ∷ chunk) ≡ lock_request_wire m
      → IsOpen f.locator.table id
      → find_row (number m.term_no) f.rows ≡ some row
      → (f.termds slot).tcp.client_fd ≡ some dfd
      → Willing env.sends
      → 24 ≤ taken env.sends
      → Willing back.sends
      → 28 ≤ taken back.sends
      → (f' : Fleet K) × Reach fifo e f f'
        × ((f'.termds slot).sent ≡ (f.termds slot).sent ++ lock_request_wire m)
        × (f'.gateway.sent
            ≡ f.gateway.sent
              ++ lock_response_wire (make_lock_response env.now m.term_no m.header.seq 0))
        × Idle slot f'.kernel
  request_travels f m slot scratch maint back b chunk gfd dfd id a r row env (gw, lo, ts) v digits
        serves small size g_up quiet came whole opened found d_up d_will d_room g_will g_room =
      let o1 = ipc_lock_request_object e (to_locator m) in
      let o2 = ipc_lock_request_object e (to_termd slot m) in
      let o3 = ipc_lock_response_object e (to_gateway env.now m) in
      let short1 : length o1 ≤ 1024 =
        omega (arith, (ipc_lock_request_of-object e (to_locator m) v.fields (omega arith)).1) in
      let short2 : length o2 ≤ 1024 =
        omega
          (arith, (ipc_lock_request_of-object e (to_termd slot m) v.fields (index-lt slot)).1) in
      let back_fields =
        (make-IsLockMessage env.now m.term_no m.header.seq 0 v.fields.seq_word).1.fields in
      let short3 : length o3 ≤ 1024 = omega (
        arith,
        (ipc_lock_response_of-object e (to_gateway env.now m) back_fields (omega arith)).1,
      ) in
      let k1 = through idx_locator o1 f.kernel in
      let k2 = through (index slot) o2 k1 in
      let k3 = through idx_gateway o3 k2 in
      let (gl, gs, lg, ls, sg, sl) = keys_differ slot (omega arith) in
      let gw1 = through_other idx_locator (key idx_gateway) o1 f.kernel short1 gl gw in
      let ts1 = through_other idx_locator (key (index slot)) o1 f.kernel short1 sl ts in
      let gw2 = through_other (index slot) (key idx_gateway) o2 k1 short2 gs gw1 in
      let at_locator = sent_alone idx_locator o1 f.kernel short1 lo in
      let at_termd = sent_alone (index slot) o2 k1 short2 ts1 in
      let at_gateway = sent_alone idx_gateway o3 k2 short3 gw2 in
      let lo2 = through_other (index slot) (key idx_locator) o2 k1 short2 ls at_locator.1 in
      let g0 = record f.gateway { queues = f.kernel } in
      let g1 = record g0 { rx = empty; queues = (send_to (fifo.ipc) idx_locator o1 f.kernel).1 } in
      let l0 = record f.locator { queues = k1; rows = f.rows } in
      let d0 = record (f.termds slot) { queues = k2; rows = f.rows } in
      let g3 = record g1 { queues = k3 } in
      let read = subst AreBytes (sym (read_by-came maint f.gateway b chunk gfd g_up quiet came)) (
        AreBytes-end f.gateway.rx.bytes (b ∷ chunk)
          (subst AreBytes (sym whole) (AreBytes-wire m v digits))) in
      let step1 = from_maintenance e fifo.ipc maint m b chunk gfd g0 v g_up quiet came whole in
      let step2 =
        through_locator e fifo.ipc m l0 id a r slot row v opened digits serves small found in
      let step3 = through_termd e fifo.ipc m slot scratch env d0 dfd v size d_up d_will d_room in
      let step4 =
        to_maintenance e fifo.ipc m env.now scratch back g3 gfd v size g_up g_will g_room in
      (
        _,
        later
            (later
              (later (later here (gateway_idles maint _ read gw step1))
                (locator_takes (answers a done r) o1 [] message _ at_locator.0 step2))
              (termd_takes slot scratch env o2 [] message _ (omega arith) size at_termd.0 step3))
            (gateway_takes scratch back o3 [] message _ size at_gateway.0 step4),
        ap (λ (d : Termd K). d.sent) (its_own f.termds slot _),
        refl,
        (
          at_gateway.1,
          through_other idx_gateway (key idx_locator) o3 k2 short3 lg lo2,
          through_other idx_gateway (key (index slot)) o3 k2 short3 sg at_termd.1,
        ),
      )
