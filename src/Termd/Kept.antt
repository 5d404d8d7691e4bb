-- ===== src/Termd/Kept.antt =====
-- termd/main.cpp: what it keeps of the shared table and of its buffer. Within a run of one termd the
-- rows change by its own operations only.
use fleetcore.Prelude.{
  ℕ, zero, suc, ◌≤◌, ◌<◌, ◌≡◌, arith, Bool, true, false, not, Option, none, some, List, ◌++◌, ◌==◌,
  length, inl, inr, Bool-cases, Option-cases, take, if◌then◌else◌, ◌>>=◌,
}
use fleetcore.Bytes.{Bytes, Endian}
use fleetcore.IpcMessage.{ipc_lock_request_of}
use fleetcore.Termd.Uplink.{acknowledged}
use fleetcore.Process.{Severity, message, Ipc, Event, Running, register_handler, run}
use fleetcore.Process.Kept.{Keeps, KeepsIdle, HandlerKeeps, run_keeps}
use fleetcore.ShmTable.{Sem}
use fleetcore.ShmTable.Locking.{KeepsTable, set_state-KeepsTable}
use fleetcore.ShmTable.Whole.{IsTable}
use fleetcore.ShmTable.Rows.{Table}
use fleetcore.Proto.{zero_header}
use fleetcore.StreamBuffer.Progress.{next-reset}
use fleetcore.Wire.{is_ok, pack_lock_request, unpack_header}
use fleetcore.StreamBuffer.{append, next, consume, reset, pending}
use fleetcore.StreamBuffer.Progress.{next-cases, next-none-lt, length-consume}
use fleetcore.TcpServer.{
  TcpServer, SendAnswer, Read, got, nothing, gone, poll_accept, poll_read, send, has_client,
}
use fleetcore.Termd.{
  Termd, Env, term_no, handle_from_terminal, serve, report, after_accept, after_read, on_idle,
  deliver, on_lock_request, handlers,
}

-- The table as this process finds it is a table, and no message waits in its buffer.
abbrev pub Tidy : {K : Type 0} → Termd K → Type 0
Tidy d = IsTable d.rows × (next d.rx ≡ none)

module _ {K : Type 0} (e : Endian) where
  stated_then :
      (d : Termd K) (o : Option (Bool × Table))
      → KeepsTable o
      → next d.rx ≡ none
      → KeepsIdle Tidy (do (ok, rows) ← o; some (record d { rows = rows }))
  stated_then d none v n = tt
  stated_then d (some (ok, rows)) v n = (v, n)

  report-Tidy :
      (s : Sem) (now state caps : ℕ) (d : Termd K)
      → Tidy d
      → KeepsIdle Tidy (report e s now state caps d)
  unfolding report
  report-Tidy s now state caps d (v, n) =
      stated_then d _ (set_state-KeepsTable d.table s now (term_no d.slot) state caps d.rows v) n

  -- A message from the terminal leaves the table alone, and at most empties the buffer.
  handle-rows :
      (out : Bytes) (len : ℕ) (d : Termd K)
      → IsTable d.rows
      → IsTable (handle_from_terminal e out len d).rows
        × (length (handle_from_terminal e out len d).rx.bytes ≤ length d.rx.bytes)
  unfolding handle_from_terminal reset
  handle-rows out len d v = elim (Bool-cases (is_ok (unpack_header e out len zero_header).0)) [
    | inl ok ↦ rw (ok) (v, omega arith)
    | inr bad ↦ rw (bad) (v, omega arith)
  ]

  serve-Tidy :
      (fuel : ℕ) (d : Termd K) → IsTable d.rows → length d.rx.bytes ≤ fuel → Tidy (serve e fuel d)
  unfolding serve
  serve-Tidy zero d v h = elim (Option-cases (next d.rx)) [
    | inl none_left ↦ (v, none_left)
    | inr ((msg, len), found) ↦ absurd (omega (arith, next-cases d.rx msg len found))
  ]
  serve-Tidy (suc fuel) d v h = elim (Option-cases (next d.rx)) [
    | inl none_left ↦ rw (none_left, serve) (v, none_left)
    | inr ((msg, len), found) ↦
        let (rows, shrunk) = handle-rows msg len d v in
        let d' = handle_from_terminal e msg len d in
        rw (found, serve)
          (serve-Tidy fuel (record d' { rx = consume len d'.rx }) rows
            (omega (arith, next-cases d.rx msg len found, length-consume len d'.rx, shrunk)))
  ]

  after_accept-Tidy :
      (env : Env) (r : Bool × TcpServer × Option ℕ) (d : Termd K)
      → Tidy d
      → KeepsIdle Tidy (after_accept e env r d)
  unfolding after_accept
  after_accept-Tidy env (true, t, fd) d (v, n) =
      report-Tidy env.sem_up env.now 2 1 (record d { tcp = t; rx = reset d.rx })
        (v, next-reset d.rx)
  after_accept-Tidy env (false, t, fd) d v = v

  after_read-Tidy :
      (env : Env) (r : Read × TcpServer) (d : Termd K)
      → Tidy d
      → KeepsIdle Tidy (after_read e env r d)
  unfolding after_read append pending
  after_read-Tidy env (gone, t) d (v, n) =
      report-Tidy env.sem_down env.now 1 0 (record d { tcp = t; rx = reset d.rx })
        (v, next-reset d.rx)
  after_read-Tidy env (nothing, t) d v = v
  after_read-Tidy env (got chunk, t) d (v, n) =
      serve-Tidy (pending (append chunk d.rx)) (record d { tcp = t; rx = append chunk d.rx }) v
        (omega arith)

  both_halves :
      (o : Option (Termd K)) (f : Termd K → Option (Termd K))
      → KeepsIdle Tidy o
      → ((d : Termd K) → Tidy d → KeepsIdle Tidy (f d))
      → KeepsIdle Tidy (do d ← o; f d)
  both_halves none f v w = tt
  both_halves (some d) f v w = w d v

  pub on_idle-Tidy : (env : Env) (d : Termd K) → Tidy d → KeepsIdle Tidy (on_idle e env d)
  unfolding on_idle
  on_idle-Tidy env d v =
      both_halves (after_accept e env (poll_accept env.accept d.tcp) d) _
        (after_accept-Tidy env (poll_accept env.accept d.tcp) d v)
        (λ d' v'. after_read-Tidy env (poll_read env.recv d'.tcp) d' v')

  abbrev after_send : Option (Bool × TcpServer × Bytes) → Termd K → Option (Termd K)
  after_send o d = do (ok, t, taken) ← o; some (record d { tcp = t; sent = d.sent ++ taken })

  sent_keeps :
      (o : Option (Bool × TcpServer × Bytes)) (d : Termd K)
      → Tidy d
      → KeepsIdle Tidy (after_send o d)
  sent_keeps none d v = tt
  sent_keeps (some r) d v = v

  if_keeps :
      (a b : Bool) (d : Termd K) (o : Option (Termd K))
      → Tidy d
      → KeepsIdle Tidy o
      → KeepsIdle Tidy (if a then some d else if b then some d else o)
  if_keeps true b d o v w = v
  if_keeps false true d o v w = v
  if_keeps false false d o v w = w

  deliver-Tidy :
      (scratch : Bytes) (sends : List SendAnswer) (msg : Bytes) (d : Termd K)
      → Tidy d
      → KeepsIdle Tidy (deliver e scratch sends msg d)
  unfolding deliver
  deliver-Tidy scratch sends msg d v =
      let (n, out) = pack_lock_request e (ipc_lock_request_of e msg).msg scratch 1024 in
      let answer = send sends (take n out) d.tcp in
      if_keeps (not (has_client d.tcp)) (n == 0) d (after_send answer d) v (sent_keeps answer d v)

  abbrev after_deliver : (K → K) → Option (Termd K) → Option (Severity × Termd K)
  after_deliver f o = do d' ← o; some (message, record d' { queues = f d'.queues })

  queued-Keeps :
      (b : Bool) (f : K → K) (o : Option (Termd K)) (d : Termd K)
      → Tidy d
      → KeepsIdle Tidy o
      → Keeps Tidy (if b then some (message, d) else after_deliver f o)
  queued-Keeps true f o d v w = v
  queued-Keeps false f none d v w = tt
  queued-Keeps false f (some d') d v w = w

  module _ (ipc : Ipc K) (scratch : Bytes) where
    pub on_lock_request-Tidy : HandlerKeeps Tidy (on_lock_request e ipc scratch)
    unfolding on_lock_request
    on_lock_request-Tidy env msg d v =
        queued-Keeps (not (length msg == 32))
          (acknowledged e ipc env.now (ipc_lock_request_of e msg).msg)
          (deliver e scratch env.sends msg d) d v (deliver-Tidy scratch env.sends msg d v)

    -- A process of a terminal that finds the shared table with one row at most for each terminal
    -- number, and no message waiting in its buffer, keeps both so and keeps less than MAX_MESSAGE_LEN
    -- bytes, whatever comes from its queue and its sockets, however the semaphore and the sockets
    -- answer, and however the process ends.
    pub run_keeps_table :
        (events : List (Event Env)) (r : Running (Termd K))
        → Tidy r.inner
        → Tidy (run (handlers e ipc scratch) (on_idle e) events r).1.inner
          × (pending (run (handlers e ipc scratch) (on_idle e) events r).1.inner.rx < 1024)
    unfolding handlers register_handler pending
    run_keeps_table events r v =
        let tidy =
          run_keeps (handlers e ipc scratch) (on_idle e) Tidy events r (on_lock_request-Tidy, tt)
            on_idle-Tidy v in
        (tidy, next-none-lt _ tidy.1)
