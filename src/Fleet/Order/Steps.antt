-- ===== src/Fleet/Order/Steps.antt =====
-- What each process of one host does to the way of the requests for one terminal.
use fleetcore.Prelude.{
  ==_iff, ℕ, ◌<◌, ◌^◌, ◌≡◌, ◌≢◌, refl, sym, ap, ◌∙◌, subst, inl, inr, some, List, ◌∷◌, ◌++◌, arith,
  length, ◌==◌, ==_iff, Bool-cases,
}
use fleetcore.Bytes.{Bytes, AreBytes, Endian}
use fleetcore.Fleet.{read_by, Fifo, key, Fleet, with_termd}
use fleetcore.Fleet.Origin.Queues.{Ack, from_gateway}
use fleetcore.Fleet.Quiet.{Quiet, on_idle-Quiet}
use fleetcore.Gateway.{Gateway, Sockets}
use fleetcore.Gateway as Gate
use fleetcore.IpcMessage.{ipc_lock_request_of-object, idx_gateway, idx_locator}
use fleetcore.Locator.{Locator, termd_index}
use fleetcore.Locator as Loc
use fleetcore.Process.{Severity, dispatch}
use fleetcore.Process.Kept.{KeepsIdle}
use fleetcore.Relay.{dispatch-locator}
use fleetcore.ShmTable.{Sem}
use fleetcore.StreamBuffer.{StreamBuffer}
use fleetcore.StreamBuffer.Serve.{All}
use fleetcore.Termd.{Termd, Env, index, term_no}
use fleetcore.Termd as Term
use fleetcore.Fleet.Origin.Kept.{Honest}
use fleetcore.Fleet.Order.Handover.{line_routed}
use fleetcore.Fleet.Order.Way.{Carries, Carries-front, Line, Line-Reading, Line-kept}
use fleetcore.Fleet.Reads.{on_idle-Reads}
use fleetcore.Fleet.Routed.{locator-cases, gateway_took}
use fleetcore.Fleet.Waits.{keys_differ}

module _ (e : Endian) {K : Type 0} (fifo : Fifo K) (slot : ℕ) (small : slot < 2 ^ 31) where
  -- The requests for this terminal are on their way.
  abbrev pub LineOf : Bytes → Fleet K → Type 0
  LineOf so_far f = Line e fifo slot so_far f.gateway.rx.bytes f.kernel (f.termds slot).sent

  pub idles-Line :
      (so_far : Bytes) (f : Fleet K) (env : Sockets) (g : Gateway K)
      → AreBytes (read_by env f.gateway)
      → Gate.on_idle e fifo.ipc env (record f.gateway { queues = f.kernel }) ≡ some g
      → Honest e fifo so_far f
      → LineOf so_far f
      → LineOf (so_far ++ read_by env f.gateway) (record f { kernel = g.queues; gateway = g })
  idles-Line so_far f env g read returns h v =
      let (bs, line, kept) =
        on_idle-Reads (Line-Reading e fifo slot (f.termds slot).sent small) so_far env
          (record f.gateway { queues = f.kernel }) g read h.bytes v returns in
      line

  pub takes-Line :
      (so_far : Bytes) (f : Fleet K) (scratch : Bytes) (env : Sockets) (msg : Bytes)
      (rest : List Bytes) (sev : Severity) (g : Gateway K)
      → length scratch ≡ 1024
      → fifo.waits (key idx_gateway) f.kernel ≡ msg ∷ rest
      → dispatch
          (Gate.handlers e fifo.ipc scratch)
          env
          msg
          (record f.gateway { queues = fifo.taken (key idx_gateway) f.kernel })
        ≡ some (sev, g)
      → Honest e fifo so_far f
      → LineOf so_far f
      → LineOf so_far (record f { kernel = g.queues; gateway = g })
  takes-Line so_far f scratch env msg rest sev g size front returns h v =
      let k0 = fifo.taken (key idx_gateway) f.kernel in
      let ((m, now, asked, is), _) = subst (All (Ack e so_far)) front h.queues.at_gateway in
      let (grown, kept, same) =
        gateway_took e fifo scratch env msg m now (record f.gateway { queues = k0 }) g sev
          asked.contract size is returns in
      let (gl, gs, lg, lt, sg, sl) = keys_differ slot small in
      subst (λ (k : K). Line e fifo slot so_far g.rx.bytes k (f.termds slot).sent) (sym kept)
        (subst (λ (b : Bytes). Line e fifo slot so_far b k0 (f.termds slot).sent)
          (sym (ap (λ (b : StreamBuffer). b.bytes) same))
          (Line-kept e fifo slot so_far f.gateway.rx.bytes f.kernel k0 (f.termds slot).sent
            (fifo.taken_other (key idx_gateway) (key idx_locator) f.kernel lg)
            (fifo.taken_other (key idx_gateway) (key (index slot)) f.kernel sg) v))

  pub locator-Line :
      (so_far : Bytes) (f : Fleet K) (sem : Sem) (msg : Bytes) (rest : List Bytes) (sev : Severity)
      (l : Locator K)
      → fifo.waits (key idx_locator) f.kernel ≡ msg ∷ rest
      → dispatch
          (Loc.handlers e fifo.ipc)
          sem
          msg
          (record f.locator { queues = fifo.taken (key idx_locator) f.kernel; rows = f.rows })
        ≡ some (sev, l)
      → LineOf so_far f
      → LineOf so_far (record f { kernel = l.queues; rows = l.rows; locator = l })
  locator-Line so_far f sem msg rest sev l front returns v =
      let l0 = record f.locator { queues = fifo.taken (key idx_locator) f.kernel; rows = f.rows } in
      let (m, ls, routing, (idx, fits, contract, is), carries) =
        Carries-front e msg rest v.routing
          (subst (λ (w : List Bytes). Carries e w v.routing) front v.at_locator) in
      let long = (ipc_lock_request_of-object e (from_gateway m idx) contract.fields fits).1 in
      line_routed e fifo slot so_far f.gateway.rx.bytes (f.termds slot).sent f.kernel l.queues m ls
        msg rest v small front routing carries contract
        (locator-cases e fifo sem m idx l0 l sev contract.fields fits (
          sym (dispatch-locator e fifo.ipc (from_gateway m idx) l0 sem refl long)
          ∙ ap (λ (b : Bytes). dispatch (Loc.handlers e fifo.ipc) sem b l0) (sym is)
          ∙ returns))

  not_its_own :
      (f : ℕ → Termd K) (other : ℕ) (d : Termd K)
      → slot ≢ other
      → with_termd f other d slot ≡ f slot
  not_its_own f other d differ = elim (Bool-cases (slot == other)) [
    | inl same ↦ absurd (differ ((==_iff slot other).0 same))
    | inr differs ↦ rw differs
  ]

  -- What holds of the way with the termd of some slot changed.
  pub with-Line :
      (so_far : Bytes) (f : Fleet K) (other : ℕ) (d : Termd K)
      → (slot ≡ other → Line e fifo slot so_far f.gateway.rx.bytes d.queues d.sent)
      → (slot ≢ other → Line e fifo slot so_far f.gateway.rx.bytes d.queues (f.termds slot).sent)
      → LineOf so_far
          (record f { kernel = d.queues; rows = d.rows; termds = with_termd f.termds other d })
  with-Line so_far f other d ours others = elim (Bool-cases (slot == other)) [
    | inl same ↦ rw same (ours ((==_iff slot other).0 same))
    | inr differ ↦ rw differ (others (λ is. ground (arith, differ, is)))
  ]

  pub termd_idles-Line :
      (so_far : Bytes) (f : Fleet K) (other : ℕ) (env : Env) (d : Termd K)
      → Term.on_idle e env (record (f.termds other) { queues = f.kernel; rows = f.rows }) ≡ some d
      → LineOf so_far f
      → LineOf so_far
          (record f { kernel = d.queues; rows = d.rows; termds = with_termd f.termds other d })
  termd_idles-Line so_far f other env d returns v =
      let d0 = record (f.termds other) { queues = f.kernel; rows = f.rows } in
      let (sent, queues) = subst (KeepsIdle (Quiet e d0)) returns (on_idle-Quiet e env d0) in
      let rx = f.gateway.rx.bytes in
      let kept =
        subst (λ (k : K). Line e fifo slot so_far rx k (f.termds slot).sent) (sym queues) v in
      with-Line so_far f other d
        (λ same.
          subst (Line e fifo slot so_far rx d.queues)
            (ap (λ (n : ℕ). (f.termds n).sent) same ∙ sym sent) kept)
        (λ _. kept)
