-- ===== src/Fleet/Origin/Kept.antt =====
-- What each process of one host keeps true of the queues and of what the terminals have been sent.
use fleetcore.Prelude.{
  ℕ, ◌<◌, ◌^◌, ◌≡◌, refl, sym, ap, ◌∙◌, subst, some, List, [], ◌∷◌, ◌++◌, length,
}
use fleetcore.Bytes.{Bytes, AreBytes, Endian}
use fleetcore.Fleet.{read_by, Fifo, key, Fleet, with_termd}
use fleetcore.Fleet.Origin.Heard.{Hears-Reading}
use fleetcore.StreamBuffer.Heard.{Ends}
use fleetcore.Fleet.Reads.{on_idle-Reads}
use fleetcore.Fleet.Origin.Queues.{
  Asked, Asked-append, Request, Ack, Genuine, Genuine-taken, from_gateway,
}
use fleetcore.Fleet.Quiet.{Quiet, on_idle-Quiet}
use fleetcore.Fleet.Routed.{locator-Genuine, acknowledged-Genuine, termd_took, gateway_took}
use fleetcore.Fleet.Sent.{Extends}
use fleetcore.Gateway.{Gateway, Sockets}
use fleetcore.Gateway as Gate
use fleetcore.IpcMessage.{ipc_lock_request_of-object, idx_gateway, idx_locator}
use fleetcore.Locator.{Locator, termd_index}
use fleetcore.Locator as Loc
use fleetcore.Process.{Severity, dispatch}
use fleetcore.Process.Kept.{KeepsIdle}
use fleetcore.Proto.{LockRequest, LockResponse}
use fleetcore.Relay.{dispatch-locator}
use fleetcore.ShmTable.{Sem}
use fleetcore.StreamBuffer.{StreamBuffer}
use fleetcore.StreamBuffer.Serve.{All}
use fleetcore.Termd.{Termd, Env, index, term_no}
use fleetcore.Termd as Term
use fleetcore.Wire.{make_lock_response}
use fleetcore.Wire.Layout.{lock_response_wire}

-- Bytes that are made of beginnings of messages that `P` admits.
pub data Pieces {A : Type 0} (P : A → Type 0) (wire : A → Bytes) : Bytes → Type 0 where
  no_piece : {bs : Bytes} → bs ≡ [] → Pieces P wire bs
  piece :
      {before bs : Bytes} (a : A)
      → P a
      → Pieces P wire before
      → Extends (wire a) before bs
      → Pieces P wire bs

Pieces-map :
    {A : Type 0} {P Q : A → Type 0} {wire : A → Bytes} {bs : Bytes}
    → ((a : A) → P a → Q a)
    → Pieces P wire bs
    → Pieces Q wire bs
Pieces-map f (no_piece e) = no_piece e
Pieces-map f (piece a p before grown) = piece a (f a p) (Pieces-map f before) grown

-- A response with result 0 to a request that was heard.
abbrev pub Answers : Bytes → LockResponse → Type 0
Answers heard r =
    (m : LockRequest) × (now : ℕ) × Asked heard m
    × (r ≡ make_lock_response now m.term_no m.header.seq 0)

Answers-append :
    {heard : Bytes} (more : Bytes) (r : LockResponse) → Answers heard r → Answers (heard ++ more) r
Answers-append more r (m, now, asked, is) = (m, now, Asked-append more asked, is)

module _ (e : Endian) {K : Type 0} (fifo : Fifo K) where
  -- Only what was asked for waits in the queues, and only that has been answered.
  pub record Honest (heard : Bytes) (f : Fleet K) : Type 0 where
    pub bytes : AreBytes f.gateway.rx.bytes
    pub ends : Ends heard f.gateway.rx.bytes
    pub queues : Genuine e fifo heard f.kernel
    pub answered : Pieces (Answers heard) lock_response_wire f.gateway.sent

  pub idles-Honest :
      (heard : Bytes) (f : Fleet K) (env : Sockets) (g : Gateway K)
      → AreBytes (read_by env f.gateway)
      → Gate.on_idle e fifo.ipc env (record f.gateway { queues = f.kernel }) ≡ some g
      → Honest heard f
      → Honest (heard ++ read_by env f.gateway) (record f { kernel = g.queues; gateway = g })
  idles-Honest heard f env g read returns v =
      let g0 = record f.gateway { queues = f.kernel } in
      let more = read_by env f.gateway in
      let (bs, (ends, queues), kept) =
        on_idle-Reads (Hears-Reading e fifo) heard env g0 g read v.bytes (v.ends, v.queues)
          returns in
      record {
        bytes = bs;
        ends = ends;
        queues = queues;
        answered =
            subst (Pieces (Answers (heard ++ more)) lock_response_wire) (sym kept)
              (Pieces-map (Answers-append more) v.answered);
      }

  pub takes-Honest :
      (heard : Bytes) (f : Fleet K) (scratch : Bytes) (env : Sockets) (msg : Bytes)
      (rest : List Bytes) (sev : Severity) (g : Gateway K)
      → length scratch ≡ 1024
      → fifo.waits (key idx_gateway) f.kernel ≡ msg ∷ rest
      → dispatch
          (Gate.handlers e fifo.ipc scratch)
          env
          msg
          (record f.gateway { queues = fifo.taken (key idx_gateway) f.kernel })
        ≡ some (sev, g)
      → Honest heard f
      → Honest heard (record f { kernel = g.queues; gateway = g })
  takes-Honest heard f scratch env msg rest sev g size front returns v =
      let k0 = fifo.taken (key idx_gateway) f.kernel in
      let g0 = record f.gateway { queues = k0 } in
      let left = Genuine-taken e fifo (key idx_gateway) msg rest front v.queues in
      let ((m, now, asked, is), _) = subst (All (Ack e heard)) front v.queues.at_gateway in
      let (grown, kept, same) =
        gateway_took e fifo scratch env msg m now g0 g sev asked.contract size is returns in
      record {
        bytes = subst (λ (b : StreamBuffer). AreBytes b.bytes) (sym same) v.bytes;
        ends = subst (λ (b : StreamBuffer). Ends heard b.bytes) (sym same) v.ends;
        queues = subst (Genuine e fifo heard) (sym kept) left;
        answered = piece _ (m, now, asked, refl) v.answered grown;
      }

  pub locator-Honest :
      (heard : Bytes) (f : Fleet K) (sem : Sem) (msg : Bytes) (rest : List Bytes) (sev : Severity)
      (l : Locator K)
      → fifo.waits (key idx_locator) f.kernel ≡ msg ∷ rest
      → dispatch
          (Loc.handlers e fifo.ipc)
          sem
          msg
          (record f.locator { queues = fifo.taken (key idx_locator) f.kernel; rows = f.rows })
        ≡ some (sev, l)
      → Honest heard f
      → Honest heard (record f { kernel = l.queues; rows = l.rows; locator = l })
  locator-Honest heard f sem msg rest sev l front returns v =
      let k0 = fifo.taken (key idx_locator) f.kernel in
      let l0 = record f.locator { queues = k0; rows = f.rows } in
      let left = Genuine-taken e fifo (key idx_locator) msg rest front v.queues in
      let ((m, idx, fits, asked, is), _) =
        subst (All (Request e heard)) front v.queues.at_locator in
      let long = (ipc_lock_request_of-object e (from_gateway m idx) asked.contract.fields fits).1 in
      record {
        bytes = v.bytes;
        ends = v.ends;
        queues =
            locator-Genuine e fifo heard sem m idx l0 l sev asked fits
              (sym (dispatch-locator e fifo.ipc (from_gateway m idx) l0 sem refl long)
                ∙ ap (λ (b : Bytes). dispatch (Loc.handlers e fifo.ipc) sem b l0) (sym is)
                ∙ returns)
              left;
        answered = v.answered;
      }

  termd-Honest :
      (heard : Bytes) (f : Fleet K) (slot : ℕ) (d : Termd K)
      → Genuine e fifo heard d.queues
      → Honest heard f
      → Honest heard
          (record f { kernel = d.queues; rows = d.rows; termds = with_termd f.termds slot d })
  termd-Honest heard f slot d queues v = record {
    bytes = v.bytes;
    ends = v.ends;
    queues = queues;
    answered = v.answered;
  }

  pub termd_idles-Honest :
      (heard : Bytes) (f : Fleet K) (slot : ℕ) (env : Env) (d : Termd K)
      → Term.on_idle e env (record (f.termds slot) { queues = f.kernel; rows = f.rows }) ≡ some d
      → Honest heard f
      → Honest heard
          (record f { kernel = d.queues; rows = d.rows; termds = with_termd f.termds slot d })
  termd_idles-Honest heard f slot env d returns v =
      let d0 = record (f.termds slot) { queues = f.kernel; rows = f.rows } in
      let (sent, queues) = subst (KeepsIdle (Quiet e d0)) returns (on_idle-Quiet e env d0) in
      termd-Honest heard f slot d (subst (Genuine e fifo heard) (sym queues) v.queues) v

  pub termd_takes-Honest :
      (heard : Bytes) (f : Fleet K) (slot : ℕ) (scratch : Bytes) (env : Env) (msg : Bytes)
      (rest : List Bytes) (sev : Severity) (d : Termd K)
      → slot < 2 ^ 31
      → length scratch ≡ 1024
      → fifo.waits (key (index slot)) f.kernel ≡ msg ∷ rest
      → dispatch (Term.handlers e fifo.ipc scratch) env msg (record (f.termds slot) {
        queues = fifo.taken (key (index slot)) f.kernel;
        rows = f.rows;
      })
        ≡ some (sev, d)
      → Honest heard f
      → Honest heard
          (record f { kernel = d.queues; rows = d.rows; termds = with_termd f.termds slot d })
  termd_takes-Honest heard f slot scratch env msg rest sev d small size front returns v =
      let k0 = fifo.taken (key (index slot)) f.kernel in
      let d0 = record (f.termds slot) { queues = k0; rows = f.rows } in
      let left = Genuine-taken e fifo (key (index slot)) msg rest front v.queues in
      let ((m, idx, fits, asked, is), _) =
        subst (All (Request e heard)) front (v.queues.at_termd slot small) in
      let (grown, queues) =
        termd_took e fifo scratch env msg m idx d0 d sev asked.contract fits size is returns in
      termd-Honest heard f slot d
        (subst (Genuine e fifo heard) (sym queues)
          (acknowledged-Genuine e fifo heard env.now m k0 asked left))
        v
