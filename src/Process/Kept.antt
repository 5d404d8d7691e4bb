-- ===== src/Process/Kept.antt =====
-- Invariants of a process: what its handlers and `on_idle` keep.
use fleetcore.Prelude.{
  ℕ, inl, inr, true, false, Option, none, some, List, [], ◌∷◌, length, ltb, ◌==◌, if◌then◌else◌,
  Bool-cases,
}
use fleetcore.Bytes.{Bytes, byte_at}
use fleetcore.Process.{
  Severity, message, stream, peer, process, Handler, Handlers, find_handler, dispatch, Running,
  Event, arrived, timed_out, receive_failed, request_job_end, request_system_end, Ending, goes_on,
  exits, stuck, is_stopping, after_handler, after_idle, after_round, round, run,
}

-- A property of the state behind a handler, if it returns.
abbrev pub Keeps : {S : Type 0} → (S → Type 0) → Option (Severity × S) → Type 0
Keeps P none = Unit {0}
Keeps P (some (sev, s)) = P s

abbrev pub KeepsIdle : {S : Type 0} → (S → Type 0) → Option S → Type 0
KeepsIdle P none = Unit {0}
KeepsIdle P (some s) = P s

abbrev pub HandlerKeeps : {E S : Type 0} → (S → Type 0) → Handler E S → Type 0
HandlerKeeps {E} {S} P h = (env : E) (msg : Bytes) (s : S) → P s → Keeps P (h env msg s)

abbrev pub HandlersKeep : {E S : Type 0} → (S → Type 0) → Handlers E S → Type 0
HandlersKeep P [] = Unit {0}
HandlersKeep P ((c, h) ∷ hs) = HandlerKeeps P h × HandlersKeep P hs

abbrev FoundKeeps : {E S : Type 0} → (S → Type 0) → Option (Handler E S) → Type 0
FoundKeeps P none = Unit {0}
FoundKeeps P (some h) = HandlerKeeps P h

find_handler-Keeps :
    {E S : Type 0} (P : S → Type 0) (code : ℕ) (hs : Handlers E S)
    → HandlersKeep P hs
    → FoundKeeps P (find_handler code hs)
unfolding find_handler
find_handler-Keeps P code [] keep = tt
find_handler-Keeps P code ((c, h) ∷ hs) (kh, keep) =
    let rest = find_handler-Keeps P code hs keep in
    elim (c == code) as (λ b. FoundKeeps P (if b then some h else find_handler code hs)) [
      | true ↦ kh
      | false ↦ rest
    ]

found_keeps :
    {E S : Type 0} (P : S → Type 0) (found : Option (Handler E S)) (env : E) (msg : Bytes) (s : S)
    → FoundKeeps P found
    → P s
    → Keeps P (elim found [ none ↦ some (message, s) | some h ↦ h env msg s ])
found_keeps P none env msg s keep p = p
found_keeps P (some h) env msg s keep p = keep env msg s p

dispatch_keeps :
    {E S : Type 0} (P : S → Type 0) (hs : Handlers E S)
    → HandlersKeep P hs
    → HandlerKeeps P (dispatch hs)
unfolding dispatch
dispatch_keeps P hs keep env msg s p = elim (Bool-cases (ltb (length msg) 8)) [
  | inl short ↦ rw short p
  | inr long ↦ rw long (
      found_keeps P (find_handler (byte_at msg 0) hs) env msg s
        (find_handler-Keeps P (byte_at msg 0) hs keep) p)
]

after_handler_keeps :
    {S : Type 0} (P : S → Type 0) (o : Option (Severity × S)) (r : Running S)
    → Keeps P o
    → P r.inner
    → P (after_handler o r).1.inner
unfolding after_handler
after_handler_keeps P none r k p = p
after_handler_keeps P (some (message, s)) r k p = k
after_handler_keeps P (some (stream, s)) r k p = k
after_handler_keeps P (some (peer, s)) r k p = k
after_handler_keeps P (some (process, s)) r k p = k

after_idle_keeps :
    {S : Type 0} (P : S → Type 0) (o : Option S) (r : Running S)
    → KeepsIdle P o
    → P r.inner
    → P (after_idle o r).1.inner
unfolding after_idle
after_idle_keeps P none r k p = p
after_idle_keeps P (some s) r k p = k

after_round_keeps :
    {S : Type 0} (P : S → Type 0) (o rest : Ending × Running S)
    → P o.1.inner
    → P rest.1.inner
    → P (after_round o rest).1.inner
unfolding after_round
after_round_keeps P (goes_on, r) rest p q = q
after_round_keeps P (exits c, r) rest p q = p
after_round_keeps P (stuck, r) rest p q = p

module _ {E S : Type 0} (hs : Handlers E S) (on_idle : E → S → Option S) where
  round_keeps :
      (P : S → Type 0)
      → HandlersKeep P hs
      → ((env : E) (s : S) → P s → KeepsIdle P (on_idle env s))
      → (e : Event E) (r : Running S) → P r.inner
      → P (round hs on_idle e r).1.inner
  unfolding round
  round_keeps P keep idle (arrived msg env) r p =
      after_handler_keeps P _ r (dispatch_keeps P hs keep env msg r.inner p) p
  round_keeps P keep idle (timed_out env) r p = after_idle_keeps P _ r (idle env r.inner p) p
  round_keeps P keep idle receive_failed r p = p
  round_keeps P keep idle request_job_end r p = p
  round_keeps P keep idle request_system_end r p = p

  -- What every handler and `on_idle` keep, the process keeps, whatever it meets and however it ends.
  pub run_keeps :
      (P : S → Type 0) (events : List (Event E)) (r : Running S)
      → HandlersKeep P hs
      → ((env : E) (s : S) → P s → KeepsIdle P (on_idle env s))
      → P r.inner
      → P (run hs on_idle events r).1.inner
  unfolding run
  run_keeps P [] r keep idle p = p
  run_keeps P (e ∷ events) r keep idle p =
      let later =
        run_keeps P events (round hs on_idle e r).1 keep idle (round_keeps P keep idle e r p) in
      elim (Bool-cases (is_stopping r)) [
        | inl up ↦ rw up p
        | inr down ↦
            rw down
              (after_round_keeps P (round hs on_idle e r) _ (round_keeps P keep idle e r p) later)
      ]
