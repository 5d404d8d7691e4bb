-- ===== src/Gateway/Bound.antt =====
-- What gateway keeps of the stream between its rounds.
use fleetcore.Prelude.{
  ℕ, zero, suc, ◌≤◌, ◌<◌, ◌≡◌, inl, inr, Bool, true, false, not, Option, none, some, List, ◌++◌,
  ◌==◌, arith, length, take, Bool-cases, Option-cases, if◌then◌else◌, ◌>>=◌,
}
use fleetcore.Bytes.{Bytes, Endian}
use fleetcore.Gateway.{
  Gateway, Sockets, is_stream, handle_from_maint, serve, after_read, on_idle, on_lock_response,
  handlers,
}
use fleetcore.IpcMessage.{ipc_lock_response_of}
use fleetcore.Process.{Severity, message, Ipc, Event, Running, register_handler, run}
use fleetcore.Process.Kept.{Keeps, KeepsIdle, HandlerKeeps, run_keeps}
use fleetcore.StreamBuffer.{StreamBuffer, append, next, consume, reset, pending}
use fleetcore.StreamBuffer.Progress.{next-cases, next-none-lt, length-consume}
use fleetcore.TcpServer.{
  TcpServer, Read, got, nothing, gone, poll_accept, poll_read, has_client, send,
}
use fleetcore.StreamBuffer.Progress.{next-reset}
use fleetcore.Wire.{pack_lock_response}

-- No message waits in the buffer.
abbrev pub Served : {K : Type 0} → Gateway K → Type 0
Served g = next g.rx ≡ none

if_reset :
    (accepted : Bool) (b : StreamBuffer)
    → next b ≡ none
    → next (if accepted then reset b else b) ≡ none
if_reset true b h = next-reset b
if_reset false b h = h

module _ {K : Type 0} (e : Endian) (ipc : Ipc K) where
  serve-Served : (fuel : ℕ) (g : Gateway K) → length g.rx.bytes ≤ fuel → Served (serve e ipc fuel g)
  unfolding serve
  serve-Served zero g h = elim (Option-cases (next g.rx)) [
    | inl done ↦ done
    | inr ((out, len), n) ↦ absurd (omega (arith, next-cases g.rx out len n))
  ]
  serve-Served (suc fuel) g h = elim (Option-cases (next g.rx)) [
    | inl done ↦ rw (done, serve) done
    | inr ((out, len), n) ↦
        let later =
          serve-Served fuel
            (record g {
              rx = consume len g.rx;
              queues = (handle_from_maint e ipc out len g.queues).1;
            })
            (omega (arith, next-cases g.rx out len n, length-consume len g.rx)) in
        rw (n, serve)
          (elim (Bool-cases (is_stream (handle_from_maint e ipc out len g.queues).0)) [
            | inl broken ↦ rw (broken) (next-reset (consume len g.rx))
            | inr fine ↦ rw (fine) later
          ])
  ]

  after_read-Served :
      (r : Read × TcpServer) (g : Gateway K) → Served g → Served (after_read e ipc r g)
  unfolding after_read append pending
  after_read-Served (gone, t) g v = next-reset g.rx
  after_read-Served (nothing, t) g v = v
  after_read-Served (got chunk, t) g v =
      serve-Served (pending (append chunk g.rx)) (record g { tcp = t; rx = append chunk g.rx })
        (omega arith)

  pub on_idle-Served :
      (env : Sockets) (g : Gateway K) → Served g → KeepsIdle Served (on_idle e ipc env g)
  unfolding on_idle
  on_idle-Served env g v =
      let (accepted, t, closed_fd) = poll_accept env.accept g.tcp in
      after_read-Served (poll_read env.recv t)
        (record g { tcp = t; rx = if accepted then reset g.rx else g.rx })
        (if_reset accepted g.rx v)

  abbrev after_send : Option (Bool × TcpServer × Bytes) → Gateway K → Option (Severity × Gateway K)
  after_send o g = do
    (ok, t, taken) ← o
    some (message, record g { tcp = t; sent = g.sent ++ taken })

  guarded_send-Keeps :
      (a b c : Bool) (o : Option (Bool × TcpServer × Bytes)) (g : Gateway K)
      → Served g
      → Keeps Served (
          if a
          then some (message, g)
          else if b
          then some (message, g)
          else if c
          then some (message, g)
          else after_send o g)
  guarded_send-Keeps true b c o g v = v
  guarded_send-Keeps false true c o g v = v
  guarded_send-Keeps false false true o g v = v
  guarded_send-Keeps false false false none g v = tt
  guarded_send-Keeps false false false (some r) g v = v

  module _ (scratch : Bytes) where
    pub on_lock_response-Served : HandlerKeeps Served (on_lock_response e ipc scratch)
    unfolding on_lock_response
    on_lock_response-Served env msg g v =
        let (n, out) = pack_lock_response e (ipc_lock_response_of e msg).msg scratch 1024 in
        guarded_send-Keeps (not (length msg == 36)) (not (has_client g.tcp)) (n == 0)
          (send env.sends (take n out) g.tcp) g v

    -- A gateway that starts with no message waiting in its buffer leaves none waiting and keeps less
    -- than MAX_MESSAGE_LEN bytes, whatever comes from its queue and its sockets, however the sockets
    -- answer, and however the process ends.
    pub run_keeps_Served :
        (events : List (Event Sockets)) (r : Running (Gateway K))
        → Served r.inner
        → Served (run (handlers e ipc scratch) (on_idle e ipc) events r).1.inner
          × (pending (run (handlers e ipc scratch) (on_idle e ipc) events r).1.inner.rx < 1024)
    unfolding handlers register_handler pending
    run_keeps_Served events r v =
        let served =
          run_keeps (handlers e ipc scratch) (on_idle e ipc) Served events r
            (on_lock_response-Served, tt) on_idle-Served v in
        (served, next-none-lt _ served)
