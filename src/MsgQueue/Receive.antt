-- ===== src/MsgQueue/Receive.antt =====
-- common/msgq.cpp: how long `recv_timeout` waits, and what it receives.
use fleetcore.Prelude.{
  ℕ, suc, ◌+◌, ◌*◌, ◌-◌, ◌≤◌, ◌<◌, ◌≡◌, ◌⊎◌, inl, inr, ◌∙◌, some, List, [], ◌∷◌, ◌++◌, arith,
  length,
}
use native.Mathlib.Decide.{dec_le}
use fleetcore.Bytes.{Bytes}
use fleetcore.MsgQueue.{
  MsgQueue, MsgRcv, got, enomsg, eintr, failed, received, timeout, recv_loop, recv_timeout,
}

-- How often the queue was seen empty.
abbrev pub empties : List MsgRcv → ℕ
empties [] = 0
empties (enomsg ∷ answers) = suc (empties answers)
empties (_ ∷ answers) = empties answers

-- Only interruptions and empty queues.
abbrev pub Quiet : List MsgRcv → Type 0
Quiet [] = Unit {0}
Quiet (enomsg ∷ answers) = Quiet answers
Quiet (eintr ∷ answers) = Quiet answers
Quiet (got msg ∷ answers) = ⊥
Quiet (failed ∷ answers) = ⊥

recv_loop-Quiet :
    (room t n : ℕ) (answers : List MsgRcv)
    → Quiet answers
    → t ≤ 50 * n + 50 * (empties answers - 1)
    → 0 < empties answers
    → 50 * n < t + 50
    → (sleeps : ℕ) × (recv_loop room t (50 * n) answers ≡ some (timeout, 50 * sleeps))
      × (t ≤ 50 * sleeps)
      × (50 * sleeps < t + 50)
unfolding recv_loop
recv_loop-Quiet room t n [] q h p b = elim p [ ]
recv_loop-Quiet room t n (got msg ∷ answers) q h p b = absurd q
recv_loop-Quiet room t n (failed ∷ answers) q h p b = absurd q
recv_loop-Quiet room t n (eintr ∷ answers) q h p b = recv_loop-Quiet room t n answers q h p b
recv_loop-Quiet room t n (enomsg ∷ answers) q h p b = elim (dec_le t (50 * n)) [
  | yes late ↦ (n, ground arith, late, b)
  | no early ↦
      let next_is : 50 * n + 50 ≡ 50 * (n + 1) = omega arith in
      let (sleeps, e, low, high) =
        recv_loop-Quiet room t (n + 1) answers q (omega arith) (omega arith) (omega arith) in
      (sleeps, ground (arith, e, next_is), low, high)
]

recv_loop-got :
    (room t w : ℕ) (before after : List MsgRcv) (msg : Bytes)
    → Quiet before
    → length msg ≤ room
    → (empties before ≡ 0) ⊎ (w + 50 * (empties before - 1) < t)
    → recv_loop room t w (before ++ (got msg ∷ after))
      ≡ some (received msg, w + 50 * empties before)
unfolding recv_loop
recv_loop-got room t w [] after msg q fits h = ground arith
recv_loop-got room t w (got m ∷ before) after msg q fits h = absurd q
recv_loop-got room t w (failed ∷ before) after msg q fits h = absurd q
recv_loop-got room t w (eintr ∷ before) after msg q fits h =
    recv_loop-got room t w before after msg q fits h
recv_loop-got room t w (enomsg ∷ before) after msg q fits (inl none_seen) = absurd (omega arith)
recv_loop-got room t w (enomsg ∷ before) after msg q fits (inr early) =
    ground (arith, recv_loop-got room t (w + 50) before after msg q fits (still before early))
  where
    still :
        (before : List MsgRcv)
        → w + 50 * (suc (empties before) - 1) < t
        → (empties before ≡ 0) ⊎ (w + 50 + 50 * (empties before - 1) < t)
    still before e = elim (dec_le (empties before) 0) [
      | yes z ↦ inl (omega arith)
      | no nz ↦ inr (omega arith)
    ]

-- On an open queue that stays empty, `recv_timeout` gives up after the least number of calls of
-- nanosleep that would reach the time it was given if each lasted its 50 ms, however many signals
-- interrupt msgrcv, once the queue has been seen empty often enough. How long the calls really
-- last is not looked at, so where a signal cuts one short it gives up before that time.
pub recv_timeout-Quiet :
    (q : MsgQueue) (id room t : ℕ) (answers : List MsgRcv)
    → q.id ≡ some id
    → Quiet answers
    → t ≤ 50 * (empties answers - 1)
    → 0 < empties answers
    → (sleeps : ℕ) × (recv_timeout q room t answers ≡ some (timeout, 50 * sleeps))
      × (t ≤ 50 * sleeps)
      × (50 * sleeps < t + 50)
unfolding recv_timeout
recv_timeout-Quiet q id room t answers e quiet h p =
    rw (e, recv_timeout) (recv_loop-Quiet room t 0 answers quiet (omega arith) p (omega arith))

-- On an open queue, a message that fits the buffer is received by the look that finds it, if only
-- empty looks and interruptions come before and the empty looks have not used the time up: with the
-- first look always, so that a timeout of 0 still takes a message that is there.
pub recv_timeout_got :
    (q : MsgQueue) (id room t : ℕ) (before after : List MsgRcv) (msg : Bytes)
    → q.id ≡ some id
    → Quiet before
    → length msg ≤ room
    → (empties before ≡ 0) ⊎ (50 * (empties before - 1) < t)
    → recv_timeout q room t (before ++ (got msg ∷ after)) ≡ some (received msg, 50 * empties before)
unfolding recv_timeout
recv_timeout_got q id room t before after msg e quiet fits (inl z) =
    rw (e, recv_timeout) (recv_loop-got room t 0 before after msg quiet fits (inl z) ∙ ground arith)
recv_timeout_got q id room t before after msg e quiet fits (inr h) =
    rw (e, recv_timeout)
      (recv_loop-got room t 0 before after msg quiet fits (inr (omega arith)) ∙ ground arith)
