-- ===== src/Process/Stream.antt =====
-- common/process.cpp, `Process::poll_queue_once` and `StreamProcess::run_stream`. What the
-- queue answers to each poll, and what the process meets beside it, is listed; the flags are those
-- that the test at the head of each round finds.
use fleetcore.Prelude.{
  ℕ, ◌≤◌, ◌≡◌, Bool, true, false, ◌||◌, Option, none, some, List, [], ◌∷◌, length, le→ltb,
  if◌then◌else◌, ◌>>=◌, Option-cases, inl, inr,
}
use fleetcore.Bytes.{Bytes}
use fleetcore.MsgQueue.{
  MsgQueue, MsgRcv, got, enomsg, RecvResult, received, recv_timeout, recv_loop,
}
use fleetcore.Process.{Severity, stream, process, Handlers, dispatch}

-- What a poll does with what came out of the queue; the severity is not looked at.
unfoldable pub after_poll :
    {E S : Type 0} → Handlers E S → E → Option (RecvResult × ℕ) → S → Option (Bool × S)
unfolding dispatch
after_poll hs env none s = none
after_poll hs env (some (received msg, waited)) s = do
  (sev, s') ← dispatch hs env msg s
  some (true, s')
after_poll hs env (some (_, waited)) s = some (false, s)

unfoldable pub poll_queue_once :
    {E S : Type 0} → Handlers E S → E → MsgQueue → List MsgRcv → S → Option (Bool × S)
unfolding after_poll recv_timeout
poll_queue_once hs env q answers s = after_poll hs env (recv_timeout q 1024 0 answers) s

-- `while (poll_queue_once()) {}`
unfoldable pub drain_queue :
    {E S : Type 0} → Handlers E S → MsgQueue → List (List MsgRcv × E) → S → Option S
unfolding poll_queue_once
drain_queue hs q [] s = none
drain_queue hs q ((answers, env) ∷ polls) s = do
  (handled, s') ← poll_queue_once hs env q answers s
  if handled then drain_queue hs q polls s' else some s'

pub record StreamRound (E : Type 0) : Type 0 where
  pub job_end : Bool
  pub system_end : Bool
  pub polls : List (List MsgRcv × E)
  pub env : E

-- What `run_stream` does behind `on_stream_data`: `rest` is how it goes on.
unfoldable pub after_data : {S : Type 0} → Severity × S → Option (ℕ × S) → Option (ℕ × S)
after_data (stream, s) rest = some (0, s)
after_data (process, s) rest = some (1, s)
after_data (_, s) rest = rest

unfoldable pub run_stream :
    {E S : Type 0}
    → Handlers E S
    → (E → S → Option (Severity × S))
    → MsgQueue
    → List (StreamRound E)
    → S
    → Option (ℕ × S)
unfolding drain_queue after_data
run_stream hs on_stream_data q [] s = none
run_stream hs on_stream_data q (r ∷ rounds) s =
    let going = (do
      s' ← drain_queue hs q r.polls s
      (sev, s'') ← on_stream_data r.env s'
      after_data (sev, s'') (run_stream hs on_stream_data q rounds s'')) in
    if r.system_end || r.job_end then some (0, s) else going

-- The handlers run on messages in order.
abbrev pub dispatch_all : {E S : Type 0} → Handlers E S → E → List Bytes → S → Option S
dispatch_all hs env [] s = some s
dispatch_all hs env (msg ∷ msgs) s = do
  (sev, s') ← dispatch hs env msg s
  dispatch_all hs env msgs s'

-- The polls of a queue with these messages in it, and then none.
abbrev pub waiting_polls : {E : Type 0} → E → List Bytes → List (List MsgRcv × E)
waiting_polls env [] = (enomsg ∷ [], env) ∷ []
waiting_polls env (msg ∷ msgs) = (got msg ∷ [], env) ∷ waiting_polls env msgs

abbrev pub Fit : List Bytes → Type 0
Fit [] = Unit {0}
Fit (msg ∷ msgs) = (length msg ≤ 1024) × Fit msgs

module _ {E S : Type 0} (hs : Handlers E S) (q : MsgQueue) (id : ℕ) where
  poll-empty :
      (env : E) (s : S)
      → q.id ≡ some id
      → poll_queue_once hs env q (enomsg ∷ []) s ≡ some (false, s)
  unfolding poll_queue_once recv_timeout recv_loop after_poll
  poll-empty env s opened = rw (opened, recv_timeout)

  poll-got :
      (env : E) (msg : Bytes) (s : S)
      → q.id ≡ some id
      → length msg ≤ 1024
      → poll_queue_once hs env q (got msg ∷ []) s
        ≡ (do (sev, s') ← dispatch hs env msg s; some (true, s'))
  unfolding poll_queue_once recv_timeout recv_loop after_poll
  poll-got env msg s opened fits = rw (opened, recv_timeout) (rw (le→ltb 1024 (length msg) fits))

  -- Every message that waits in an open queue, and fits the buffer, is handled in the order of the
  -- queue, whatever severity its handler reports, and then the draining ends.
  pub drain_queue_waiting :
      (env : E) (msgs : List Bytes) (s : S)
      → q.id ≡ some id
      → Fit msgs
      → drain_queue hs q (waiting_polls env msgs) s ≡ dispatch_all hs env msgs s
  unfolding drain_queue
  drain_queue_waiting env [] s opened fit = rw (poll-empty env s opened)
  drain_queue_waiting env (msg ∷ msgs) s opened (fits, fit) =
      rw (poll-got env msg s opened fits) (elim (Option-cases (dispatch hs env msg s)) [
        | inl stuck ↦ rw (stuck)
        | inr ((sev, s'), returned) ↦ rw (returned) (drain_queue_waiting env msgs s' opened fit)
      ])
