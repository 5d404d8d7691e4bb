-- ===== src/CommWorker/Genuine.antt =====
-- What the vehicle terminal's worker hands to the screen.
use fleetcore.Prelude.{
  ℕ, ◌≤◌, ◌≡◌, true, false, some, List, [], ◌∷◌, ◌++◌, ◌∙◌, drop, Bool-cases, Option-cases, inl,
  inr, length, subst, sym,
}
use fleetcore.Bytes.{Bytes, AreBytes, Endian}
use fleetcore.CommWorker.{
  CommWorker, Signal, lock_received, link_state_changed, held, try_reconnect, on_connected,
  on_disconnected, abort_socket, handle_message, on_ready_read, call,
}
use fleetcore.CommWorker.Receive.{handle_message_cases}
use fleetcore.Qt.{
  QtSocket, read_by, is_unconnected, Call, connected_signal, disconnected_signal, ready_read_signal,
  unheard_signal, socket_signal, time_out,
}
use fleetcore.StreamBuffer.{append, consume, reset, next, pending}
use fleetcore.StreamBuffer.Invariant.{serve-invariant}
use fleetcore.StreamBuffer.Progress.{next-cases}
use fleetcore.StreamBuffer.Serve.{All, All-append, All-map}
use fleetcore.StreamBuffer.Heard.{
  Rest, Rest-nothing, Rest-append, Rest-consume, StandsIn, StandsIn-append, StandsIn-front,
  nothing_heard,
}
use fleetcore.Proto.{LockRequest}
use fleetcore.Wire.Layout.{lock_request_wire}
use fleetcore.Wire.RoundTrip.{IsLockRequest}

-- A request that is handed over meets the contract, and stands in what was read.
abbrev pub Asked : Bytes → LockRequest → Type 0
Asked heard m = IsLockRequest m × StandsIn (lock_request_wire m) heard

abbrev pub MeetsContract : Bytes → Signal → Type 0
MeetsContract heard (lock_received m) = Asked heard m
MeetsContract heard (link_state_changed connected) = Unit {0}

pub Asked-append :
    (heard chunk : Bytes) (m : LockRequest) → Asked heard m → Asked (heard ++ chunk) m
Asked-append heard chunk m (meets, stands) =
    (meets, StandsIn-append (lock_request_wire m) heard chunk stands)

more_heard :
    (heard chunk : Bytes) (sig : Signal)
    → MeetsContract heard sig
    → MeetsContract (heard ++ chunk) sig
more_heard heard chunk (lock_received m) asked = Asked-append heard chunk m asked
more_heard heard chunk (link_state_changed connected) h = tt

pub record Queued (heard left : Bytes) (emitted : List Signal) : Type 0 where
  pub rest : Rest heard left
  pub meet : All (MeetsContract heard) emitted

module _ {heard left : Bytes} {emitted : List Signal} where
  Queued-emit :
      (sig : Signal)
      → MeetsContract heard sig
      → Queued heard left emitted
      → Queued heard left (emitted ++ (sig ∷ []))
  Queued-emit sig p v = record {
    rest = v.rest;
    meet = All-append (MeetsContract heard) emitted (sig ∷ []) v.meet (p, tt);
  }

  Queued-Rest :
      (left' : Bytes) → Rest heard left' → Queued heard left emitted → Queued heard left' emitted
  Queued-Rest left' r v = record { rest = r; meet = v.meet }

  Queued-append :
      (chunk : Bytes)
      → AreBytes chunk
      → Queued heard left emitted
      → Queued (heard ++ chunk) (left ++ chunk) emitted
  Queued-append chunk p v = record {
    rest = Rest-append heard left chunk p v.rest;
    meet =
        All-map (MeetsContract heard) (MeetsContract (heard ++ chunk)) (more_heard heard chunk)
          emitted v.meet;
  }

module _ {S : Type 0} where
  abbrev pub Genuine : Bytes → CommWorker S → Type 0
  Genuine heard w = Queued heard w.rx.bytes w.emitted

  module _ (heard : Bytes) (qt : QtSocket S) where
    pub try_reconnect-Genuine :
        (w : CommWorker S) → Genuine heard w → Genuine heard (try_reconnect qt w)
    unfolding try_reconnect
    try_reconnect-Genuine w v = elim (Option-cases w.socket) [
      | inl gone ↦ rw (gone, try_reconnect) v
      | inr (s, has) ↦
          rw (has, try_reconnect)
            (elim (Bool-cases (is_unconnected (qt.state s))) [
              | inl idle ↦ rw idle v
              | inr busy ↦ rw busy v
            ])
    ]

    on_disconnected-Genuine :
        (w : CommWorker S) → Genuine heard w → Genuine heard (on_disconnected qt w)
    unfolding on_disconnected reset
    on_disconnected-Genuine w v =
        Queued-Rest [] (Rest-nothing heard) (Queued-emit (link_state_changed false) tt v)

    pub abort_socket-Genuine :
        (w : CommWorker S) → Genuine heard w → Genuine heard (abort_socket qt w)
    unfolding abort_socket
    abort_socket-Genuine w v = elim (Option-cases w.socket) [
      | inl gone ↦ rw (gone, abort_socket) v
      | inr (s, has) ↦
          let w' = record w { socket = some (qt.abort s).1 } in
          rw (has, abort_socket)
            (elim (Bool-cases (qt.abort s).0) [
              | inl emits ↦ rw emits (on_disconnected-Genuine w' v)
              | inr quiet ↦ rw quiet v
            ])
    ]

    handle-Genuine :
        (e : Endian) (out : Bytes) (len : ℕ) (w : CommWorker S)
        → next w.rx ≡ some (out, len)
        → Genuine heard w
        → Genuine heard (handle_message qt e out len w)
    handle-Genuine e out len w n v =
        let (whole, least, fits, rest) = next-cases w.rx out len n in
        elim (handle_message_cases qt e out len w (subst AreBytes (sym whole) v.rest.are_bytes)
          (subst (λ (o : Bytes). len ≤ length o) (sym whole) fits)) [
            | inl (bad, is) ↦ rw is (
                abort_socket-Genuine (record w { rx = record { bytes = [] } })
                  (Queued-Rest [] (Rest-nothing heard) v))
            | inr (inl (good, bad, is)) ↦ rw is v
            | inr (inr (m, meets, split, is)) ↦ rw is (
                Queued-emit (lock_received m)
                  (
                    meets,
                    StandsIn-front (lock_request_wire m) (drop 24 out) heard w.rx.bytes v.rest
                        (sym whole ∙ split),
                  )
                  v)
          ]

  module _ (heard : Bytes) (qt : QtSocket S) (e : Endian)
      (reads : (s : S) → AreBytes (qt.read_all s).0) where
    ready_read-Genuine :
        (s : S) (w : CommWorker S)
        → Genuine heard w
        → Genuine (heard ++ (qt.read_all s).0) (on_ready_read qt e (record w { socket = some s }))
    unfolding on_ready_read append
    ready_read-Genuine s w v =
        let (chunk, s') = qt.read_all s in
        let rx = append chunk w.rx in
        let all = heard ++ chunk in
        serve-invariant (held S) (handle_message qt e) (Genuine all) (handle-Genuine all qt e)
          (λ len w v. Queued-Rest (consume len w.rx).bytes (Rest-consume all len w.rx v.rest) v)
          (pending rx) (record w { socket = some s'; rx = rx }) (Queued-append chunk (reads s) v)

    fired-Genuine :
        (timers : List ℕ) (w : CommWorker S)
        → Genuine heard w
        → Genuine heard
            (elim timers [ [] ↦ w | t ∷ ts ↦ try_reconnect qt (record w { timers = ts }) ])
    fired-Genuine [] w v = v
    fired-Genuine (t ∷ ts) w v = try_reconnect-Genuine heard qt (record w { timers = ts }) v

    pub call-Genuine :
        (c : Call S) (w : CommWorker S)
        → Genuine heard w
        → Genuine (heard ++ read_by qt c) (call qt e c w)
    unfolding call on_connected reset
    call-Genuine (socket_signal connected_signal s) w v =
        nothing_heard (λ (b : Bytes). Genuine b (call qt e (socket_signal connected_signal s) w))
          heard (Queued-Rest [] (Rest-nothing heard) (Queued-emit (link_state_changed true) tt v))
    call-Genuine (socket_signal disconnected_signal s) w v =
        nothing_heard (λ (b : Bytes). Genuine b (call qt e (socket_signal disconnected_signal s) w))
          heard (on_disconnected-Genuine heard qt (record w { socket = some s }) v)
    call-Genuine (socket_signal ready_read_signal s) w v = ready_read-Genuine s w v
    call-Genuine (socket_signal unheard_signal s) w v =
        nothing_heard (λ (b : Bytes). Genuine b (call qt e (socket_signal unheard_signal s) w))
          heard v
    call-Genuine time_out w v =
        nothing_heard (λ (b : Bytes). Genuine b (call qt e time_out w)) heard
          (fired-Genuine w.timers w v)
