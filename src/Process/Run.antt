-- ===== src/Process/Run.antt =====
-- The loop of a process: how it stops, and what it leaves out.
use fleetcore.Prelude.{
  ◌<◌, ◌≡◌, ◌⊎◌, inl, inr, refl, ap, true, false, Option, none, some, List, [], ◌∷◌, arith, length,
  ltb, Bool-cases, lt→ltb,
}
use fleetcore.Bytes.{Bytes, byte_at}
use fleetcore.Process.{
  Severity, message, stream, peer, process, Handler, Handlers, find_handler, dispatch, Running,
  Event, arrived, timed_out, receive_failed, request_job_end, request_system_end, Ending, goes_on,
  exits, stuck, is_stopping, after_handler, after_idle, after_round, round, run,
}

-- What an exit code says: 0 that a flag is up, 1 that receiving failed or a handler gave up. No other
-- code is returned, and a process that goes on has its flags down.
abbrev pub Ends : {S : Type 0} → Ending × Running S → Type 0
Ends (goes_on, r) = is_stopping r ≡ false
Ends (exits c, r) = ((c ≡ 0) × (is_stopping r ≡ true)) ⊎ (c ≡ 1)
Ends (stuck, r) = Unit {0}

-- A round ends the process with code 1 or not at all.
abbrev GivesUp : {S : Type 0} → Ending × Running S → Type 0
GivesUp (exits c, r) = c ≡ 1
GivesUp (_, r) = Unit {0}

after_handler-GivesUp :
    {S : Type 0} (o : Option (Severity × S)) (r : Running S) → GivesUp (after_handler o r)
unfolding after_handler
after_handler-GivesUp none r = tt
after_handler-GivesUp (some (message, s)) r = tt
after_handler-GivesUp (some (stream, s)) r = tt
after_handler-GivesUp (some (peer, s)) r = tt
after_handler-GivesUp (some (process, s)) r = refl

after_idle-GivesUp : {S : Type 0} (o : Option S) (r : Running S) → GivesUp (after_idle o r)
unfolding after_idle
after_idle-GivesUp none r = tt
after_idle-GivesUp (some s) r = tt

module _ {E S : Type 0} (hs : Handlers E S) (on_idle : E → S → Option S) where
  -- Once a flag is set the process exits with code 0 before it handles anything more.
  pub run_stops :
      (events : List (Event E)) (r : Running S)
      → is_stopping r ≡ false
      → (run hs on_idle (request_job_end ∷ events) r ≡ (exits 0, record r { job_end = true }))
        × (run hs on_idle (request_system_end ∷ events) r
            ≡ (exits 0, record r { system_end = true }))
  unfolding run
  run_stops [] r going = ground arith
  run_stops (e ∷ events) r going = ground arith

  round-GivesUp : (e : Event E) (r : Running S) → GivesUp (round hs on_idle e r)
  unfolding round
  round-GivesUp (arrived msg env) r = after_handler-GivesUp (dispatch hs env msg r.inner) r
  round-GivesUp (timed_out env) r = after_idle-GivesUp (on_idle env r.inner) r
  round-GivesUp receive_failed r = refl
  round-GivesUp request_job_end r = tt
  round-GivesUp request_system_end r = tt

  after_round-Ends :
      (o rest : Ending × Running S) → GivesUp o → Ends rest → Ends (after_round o rest)
  unfolding after_round
  after_round-Ends (goes_on, r') rest g h = h
  after_round-Ends (exits c, r') rest g h = inr g
  after_round-Ends (stuck, r') rest g h = tt

  -- A process exits with 0 only with a flag up, and with no other code but 1; one that goes on has
  -- both flags down.
  pub run-Ends : (events : List (Event E)) (r : Running S) → Ends (run hs on_idle events r)
  unfolding run
  run-Ends [] r = elim (Bool-cases (is_stopping r)) [
    | inl up ↦ rw up (inl (refl, up))
    | inr down ↦ rw down down
  ]
  run-Ends (e ∷ events) r = elim (Bool-cases (is_stopping r)) [
    | inl up ↦ rw up (inl (refl, up))
    | inr down ↦ rw down (
        after_round-Ends (round hs on_idle e r) _ (round-GivesUp e r)
          (run-Ends events (round hs on_idle e r).1))
  ]

  dispatch_drops :
      (msg : Bytes) (env : E) (s : S)
      → (length msg < 8) ⊎ (find_handler (byte_at msg 0) hs ≡ none)
      → dispatch hs env msg s ≡ some (message, s)
  unfolding dispatch
  dispatch_drops msg env s (inl short) = rw (lt→ltb (length msg) 8 short)
  dispatch_drops msg env s (inr unknown) =
      let handled =
        ap
          (λ (o : Option (Handler E S)).
            let r : Option (Severity × S) = elim o [
              | none ↦ some (message, s)
              | some h ↦ h env msg s
            ] in
            r)
          unknown in
      elim (Bool-cases (ltb (length msg) 8)) [ inl short ↦ rw short | inr long ↦ rw long handled ]

  -- A message that is shorter than the internal header, or whose code has no handler, is dropped: the
  -- process goes on as if it had not come.
  pub run_drops :
      (msg : Bytes) (env : E) (events : List (Event E)) (r : Running S)
      → is_stopping r ≡ false
      → (length msg < 8) ⊎ (find_handler (byte_at msg 0) hs ≡ none)
      → run hs on_idle (arrived msg env ∷ events) r ≡ run hs on_idle events r
  unfolding run round after_handler after_round
  run_drops msg env events r going why = rw (going, dispatch_drops msg env r.inner why)

-- The events of a queue that is never empty.
abbrev pub Busy : {E : Type 0} → List (Event E) → Type 0
Busy [] = Unit {0}
Busy (arrived msg env ∷ events) = Busy events
Busy (_ ∷ events) = ⊥

-- Through events that are all messages, the process does the same with any other `on_idle`: it is
-- not called while messages keep coming.
pub run-Busy :
    {E S : Type 0} (hs : Handlers E S) (idle idle' : E → S → Option S) (events : List (Event E))
    (r : Running S)
    → Busy events
    → run hs idle events r ≡ run hs idle' events r
unfolding run round
run-Busy hs idle idle' [] r b = refl
run-Busy hs idle idle' (arrived msg env ∷ events) r b =
    rw (run-Busy hs idle idle' events (after_handler (dispatch hs env msg r.inner) r).1 b)
run-Busy hs idle idle' (timed_out env ∷ events) r b = absurd b
run-Busy hs idle idle' (receive_failed ∷ events) r b = absurd b
run-Busy hs idle idle' (request_job_end ∷ events) r b = absurd b
run-Busy hs idle idle' (request_system_end ∷ events) r b = absurd b
