-- ===== src/Termd/Link.antt =====
-- The terminal's connection, and what the shared table says of it.
use fleetcore.Prelude.{
  ℕ, zero, suc, ◌-◌, ◌≡◌, ◌≢◌, ◌⊎◌, refl, ap, ◌∙◌, none, some, [], ◌∷◌, ◌++◌, arith, length,
}
use fleetcore.Bytes.{Bytes, Endian}
use fleetcore.Proto.{zero_header}
use fleetcore.ShmTable.{Sem, done}
use fleetcore.ShmTable.Locking.{IsOpen, answers, set_state_locked}
use fleetcore.ShmTable.Rows.{set_row}
use fleetcore.StreamBuffer.{empty, append, next, consume, reset, pending}
use fleetcore.StreamBuffer.Framing.{buffer}
use fleetcore.StreamBuffer.Progress.{next-cases}
use fleetcore.TcpServer.{TcpServer, bytes, would_block, broken, drop_client}
use fleetcore.TcpServer.Poll.{
  poll_accept-none, poll_accept-some, poll_read-bytes, poll_read-gone, poll_read-nothing,
  poll_read-unconnected,
}
use fleetcore.Termd.{
  Termd, Env, term_no, handle_from_terminal, serve, report, after_accept, after_read, on_idle,
}
use fleetcore.Wire.Decode.{is_ok_ne}
use fleetcore.Wire.{wire_ok, unpack_header}

consume-empty : (len : ℕ) → consume len empty ≡ empty
unfolding consume
consume-empty len = ground arith

module _ {K : Type 0} (e : Endian) where
  report_locked :
      (d : Termd K) (s : Sem) (id a b now state caps : ℕ)
      → IsOpen d.table id
      → s ≡ answers a done b
      → report e s now state caps d
        ≡ some (record d { rows = (set_row now (term_no d.slot) state caps d.rows).1 })
  unfolding report
  report_locked d s id a b now state caps opened sem =
      simp (sem, set_state_locked d.table id a b now (term_no d.slot) state caps d.rows opened)

  -- When a terminal connects, in a round that reads nothing, and with the table open and the
  -- semaphore got, the terminal's row says connected, with the capability to lock and the time, and
  -- the bytes of an earlier connection are forgotten.
  pub on_idle_connects :
      (env : Env) (d : Termd K) (id a b l fd : ℕ)
      → IsOpen d.table id
      → d.tcp.listen_fd ≡ some l
      → env.accept ≡ some fd
      → env.recv ≡ would_block
      → env.sem_up ≡ answers a done b
      → on_idle e env d
        ≡ some (record d {
          tcp = record { listen_fd = some l; client_fd = some fd };
          rx = empty;
          rows = (set_row env.now (term_no d.slot) 2 1 d.rows).1;
        })
  unfolding on_idle after_accept after_read reset
  on_idle_connects env d id a b l fd opened listening new quiet sem =
      let fresh : TcpServer = record { listen_fd = some l; client_fd = some fd } in
      let d' = record d { tcp = fresh; rx = empty } in
      simp (new, quiet, poll_accept-some d.tcp l fd listening)
        (simp (report_locked d' env.sem_up id a b env.now 2 1 opened sem)
          (simp (poll_read-nothing fresh)))

  -- When the peer shuts the connection down or recv fails, in a round without a new connection, and
  -- with the table open and the semaphore got, the terminal's row says disconnected, with no
  -- capability and the time, the client is dropped and the buffer is emptied.
  pub on_idle_disconnects :
      (env : Env) (d : Termd K) (id a b fd : ℕ)
      → IsOpen d.table id
      → d.tcp.client_fd ≡ some fd
      → env.accept ≡ none
      → (env.recv ≡ bytes []) ⊎ (env.recv ≡ broken)
      → env.sem_down ≡ answers a done b
      → on_idle e env d
        ≡ some (record d {
          tcp = drop_client d.tcp;
          rx = empty;
          rows = (set_row env.now (term_no d.slot) 1 0 d.rows).1;
        })
  unfolding on_idle after_accept after_read reset
  on_idle_disconnects env d id a b fd opened connected none_new ended sem =
      let d' = record d { tcp = drop_client d.tcp; rx = empty } in
      simp (none_new, poll_accept-none d.tcp)
        (simp (poll_read-gone env.recv d.tcp fd connected ended)
          (report_locked d' env.sem_down id a b env.now 1 0 opened sem))

  serve-empty :
      (fuel : ℕ) (d : Termd K) → serve e fuel (record d { rx = empty }) ≡ record d { rx = empty }
  unfolding serve next
  serve-empty zero d = refl
  serve-empty (suc fuel) d = refl

  handle_bad :
      (out : Bytes) (len : ℕ) (d : Termd K)
      → (unpack_header e out len zero_header).0 ≢ wire_ok
      → handle_from_terminal e out len d ≡ record d { tcp = drop_client d.tcp; rx = empty }
  unfolding handle_from_terminal reset
  handle_bad out len d bad = rw (is_ok_ne _ bad)

  serve-broken :
      (fuel : ℕ) (out : Bytes) (len : ℕ) (d : Termd K)
      → next d.rx ≡ some (out, len)
      → (unpack_header e out len zero_header).0 ≢ wire_ok
      → serve e (suc fuel) d ≡ record d { tcp = drop_client d.tcp; rx = empty }
  unfolding serve
  serve-broken fuel out len d n bad =
      rw (n, serve)
        (rw (handle_bad out len d bad, consume-empty len)
          (serve-empty fuel (record d { tcp = drop_client d.tcp })))

  on_idle-chunk :
      (env : Env) (b : ℕ) (chunk : Bytes) (fd : ℕ) (d : Termd K)
      → d.tcp.client_fd ≡ some fd
      → env.accept ≡ none
      → env.recv ≡ bytes (b ∷ chunk)
      → on_idle e env d
        ≡ some (
            serve e
              (length (d.rx.bytes ++ (b ∷ chunk)))
              (record d { rx = buffer (d.rx.bytes ++ (b ∷ chunk)) }))
  unfolding on_idle after_accept after_read append pending
  on_idle-chunk env b chunk fd d connected none_new came =
      simp (none_new, came, poll_accept-none d.tcp)
        (simp (poll_read-bytes b chunk d.tcp fd connected))

  -- Without a new connection, a round of a process with no client changes nothing.
  on_idle-unconnected :
      (env : Env) (d : Termd K)
      → d.tcp.client_fd ≡ none
      → env.accept ≡ none
      → on_idle e env d ≡ some d
  unfolding on_idle after_accept after_read
  on_idle-unconnected env d absent none_new =
      simp (none_new, poll_accept-none d.tcp) (simp (poll_read-unconnected env.recv d.tcp absent))

  -- If `next` hands out something that unpack_header refuses, from what has arrived on the
  -- connection in a round without a new connection, the round drops the connection and empties the
  -- buffer but leaves the terminal's row as it was; and a later round in which no terminal connects
  -- changes nothing, whatever else the sockets answer.
  pub on_idle_stale :
      (env later : Env) (d : Termd K) (fd b len : ℕ) (chunk out : Bytes)
      → d.tcp.client_fd ≡ some fd
      → env.accept ≡ none
      → env.recv ≡ bytes (b ∷ chunk)
      → next (buffer (d.rx.bytes ++ (b ∷ chunk))) ≡ some (out, len)
      → (unpack_header e out len zero_header).0 ≢ wire_ok
      → later.accept ≡ none
      → (on_idle e env d ≡ some (record d { tcp = drop_client d.tcp; rx = empty }))
        × (on_idle e later (record d { tcp = drop_client d.tcp; rx = empty })
            ≡ some (record d { tcp = drop_client d.tcp; rx = empty }))
  on_idle_stale env later d fd b len chunk out connected none_new came n bad quiet = (
    on_idle-chunk env b chunk fd d connected none_new came
        ∙ ap some (
            ap (λ (f : ℕ). serve e f (record d { rx = buffer (d.rx.bytes ++ (b ∷ chunk)) })) enough
            ∙ serve-broken _ out len (record d { rx = buffer (d.rx.bytes ++ (b ∷ chunk)) }) n bad),
    on_idle-unconnected later (record d { tcp = drop_client d.tcp; rx = empty }) (dropped d.tcp)
        quiet,
  )
    where
      enough : length (d.rx.bytes ++ (b ∷ chunk)) ≡ suc (length (d.rx.bytes ++ (b ∷ chunk)) - 1)
      enough = omega (arith, next-cases (buffer (d.rx.bytes ++ (b ∷ chunk))) out len n)

      dropped : (t : TcpServer) → (drop_client t).client_fd ≡ none
      dropped t = unfold drop_client in refl
