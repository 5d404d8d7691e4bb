-- ===== src/Fleet/Quiet.antt =====
-- What a round of termd at its socket leaves alone.
use fleetcore.Prelude.{
  ℕ, zero, suc, ◌≡◌, refl, ◌∙◌, inl, inr, Bool, true, false, Option, none, some, ◌>>=◌, Bool-cases,
  Option-cases,
}
use fleetcore.Bytes.{Bytes, Endian}
use fleetcore.Process.Kept.{KeepsIdle}
use fleetcore.Proto.{zero_header}
use fleetcore.ShmTable.{Sem, set_state}
use fleetcore.ShmTable.Rows.{Table}
use fleetcore.StreamBuffer.{next, consume, append, pending}
use fleetcore.TcpServer.{TcpServer, Read, got, nothing, gone, poll_accept, poll_read}
use fleetcore.Termd.{
  Termd, Env, term_no, handle_from_terminal, serve, report, after_accept, after_read, on_idle,
}
use fleetcore.Wire.{is_ok, unpack_header}

module _ {K : Type 0} (e : Endian) where
  -- A round of termd at its socket sends nothing, to the terminal or to a queue.
  abbrev pub Quiet : Termd K → Termd K → Type 0
  Quiet d d' = (d'.sent ≡ d.sent) × (d'.queues ≡ d.queues)

  handle-Quiet : (out : Bytes) (len : ℕ) (d : Termd K) → Quiet d (handle_from_terminal e out len d)
  unfolding handle_from_terminal
  handle-Quiet out len d = elim (Bool-cases (is_ok (unpack_header e out len zero_header).0)) [
    | inl ok ↦ rw ok (refl, refl)
    | inr bad ↦ rw bad (refl, refl)
  ]

  serve-Quiet : (fuel : ℕ) (d : Termd K) → Quiet d (serve e fuel d)
  unfolding serve
  serve-Quiet zero d = (refl, refl)
  serve-Quiet (suc fuel) d = elim (Option-cases (next d.rx)) [
    | inl none_left ↦ rw (none_left, serve) (refl, refl)
    | inr ((msg, len), found) ↦
        let (s, q) = handle-Quiet msg len d in
        let d' = handle_from_terminal e msg len d in
        let (s', q') = serve-Quiet fuel (record d' { rx = consume len d'.rx }) in
        rw (found, serve) (s' ∙ s, q' ∙ q)
  ]

  reported :
      (d d0 : Termd K) (o : Option (Bool × Table))
      → Quiet d d0
      → KeepsIdle (Quiet d) (do (ok, rows) ← o; some (record d0 { rows = rows }))
  reported d d0 none q = tt
  reported d d0 (some (ok, rows)) q = q

  report-Quiet :
      (s : Sem) (now state caps : ℕ) (d d0 : Termd K)
      → Quiet d d0
      → KeepsIdle (Quiet d) (report e s now state caps d0)
  unfolding report
  report-Quiet s now state caps d d0 q =
      reported d d0 (set_state d0.table s now (term_no d0.slot) state caps d0.rows) q

  after_accept-Quiet :
      (env : Env) (r : Bool × TcpServer × Option ℕ) (d : Termd K)
      → KeepsIdle (Quiet d) (after_accept e env r d)
  unfolding after_accept
  after_accept-Quiet env (true, t, fd) d = report-Quiet env.sem_up env.now 2 1 d _ (refl, refl)
  after_accept-Quiet env (false, t, fd) d = (refl, refl)

  after_read-Quiet :
      (env : Env) (r : Read × TcpServer) (d d0 : Termd K)
      → Quiet d d0
      → KeepsIdle (Quiet d) (after_read e env r d0)
  unfolding after_read
  after_read-Quiet env (gone, t) d d0 q = report-Quiet env.sem_down env.now 1 0 d _ q
  after_read-Quiet env (nothing, t) d d0 q = q
  after_read-Quiet env (got chunk, t) d d0 (s, q) =
      let rx = append chunk d0.rx in
      let (s', q') = serve-Quiet (pending rx) (record d0 { tcp = t; rx = rx }) in (s' ∙ s, q' ∙ q)

  pub on_idle-Quiet : (env : Env) (d : Termd K) → KeepsIdle (Quiet d) (on_idle e env d)
  unfolding on_idle
  on_idle-Quiet env d =
      both (after_accept e env (poll_accept env.accept d.tcp) d)
        (after_accept-Quiet env (poll_accept env.accept d.tcp) d)
    where
      both :
          (o : Option (Termd K))
          → KeepsIdle (Quiet d) o
          → KeepsIdle (Quiet d) (do d' ← o; after_read e env (poll_read env.recv d'.tcp) d')
      both none q = tt
      both (some d') q = after_read-Quiet env (poll_read env.recv d'.tcp) d d' q
