-- ===== src/Fleet/Waits.antt =====
-- The queues of one host: which are different, and what waits in them after a message has been sent
-- or taken.
use fleetcore.Prelude.{
  ==_iff, ◌^◌, ◌≢◌, ◌∙◌, arith, ap, le→ltb, List, Bool-cases, inl, inr, ◌==◌, [], ℕ, ◌≤◌, ◌<◌, ◌≡◌,
  ◌∷◌, ◌++◌, length,
}
use fleetcore.Bytes.{Bytes}
use fleetcore.Prelude.{subst, sym}
use fleetcore.IpcMessage.{idx_gateway, idx_locator}
use fleetcore.Process.{send_to}
use fleetcore.Termd.{Termd, index}
use fleetcore.Fleet.{Fifo, key, with_termd}
use fleetcore.MsgQueue.{open_queue}
use fleetcore.Process.{send_queue}

pub its_own : {K : Type 0} (f : ℕ → Termd K) (slot : ℕ) (d : Termd K) → with_termd f slot d slot ≡ d
its_own f slot d = elim (Bool-cases (slot == slot)) [
  | inl same ↦ rw same
  | inr other ↦ absurd (ground (arith, other))
]

-- The keys of the three queues are different.
pub keys_differ :
    (slot : ℕ)
    → slot < 2 ^ 31
    → (key idx_gateway ≢ key idx_locator)
      × (key idx_gateway ≢ key (index slot))
      × (key idx_locator ≢ key idx_gateway)
      × (key idx_locator ≢ key (index slot))
      × (key (index slot) ≢ key idx_gateway)
      × (key (index slot) ≢ key idx_locator)
unfolding index
keys_differ slot small = (
  (λ same. omega (arith, same)),
  (λ same. omega (arith, same)),
  (λ same. omega (arith, same)),
  (λ same. omega (arith, same)),
  (λ same. omega (arith, same)),
  (λ same. omega (arith, same)),
)

module _ {K : Type 0} (fifo : Fifo K) where
  pub sent_waits :
      (dest : ℕ) (msg : Bytes) (k : K)
      → length msg ≤ 1024
      → fifo.waits (key dest) (send_to (fifo.ipc) dest msg k).1
        ≡ fifo.waits (key dest) k ++ (msg ∷ [])
  unfolding send_to send_queue open_queue
  sent_waits dest msg k short =
      let (id, found) = fifo.msgget_some (key dest) k in
      rw (found) (rw (le→ltb 1024 (length msg) short) (fifo.msgsnd_waits (key dest) id msg k found))

  pub sent_other :
      (dest other : ℕ) (msg : Bytes) (k : K)
      → length msg ≤ 1024
      → other ≢ key dest
      → fifo.waits other (send_to (fifo.ipc) dest msg k).1 ≡ fifo.waits other k
  unfolding send_to send_queue open_queue
  sent_other dest other msg k short differ =
      let (id, found) = fifo.msgget_some (key dest) k in
      rw (found) (
        rw (le→ltb 1024 (length msg) short)
          (fifo.msgsnd_other (key dest) id other msg k found differ))

  -- What holds of a queue behind a send, and behind a message taken from any queue.
  pub queue_sent :
      (Q : List Bytes → Type 0) (dest other : ℕ) (msg : Bytes) (k : K)
      → length msg ≤ 1024
      → (other ≡ key dest → Q (fifo.waits other k ++ (msg ∷ [])))
      → (other ≢ key dest → Q (fifo.waits other k))
      → Q (fifo.waits other (send_to (fifo.ipc) dest msg k).1)
  queue_sent Q dest other msg k short there elsewhere = elim (Bool-cases (other == key dest)) [
    | inl same ↦
        let is = (==_iff other (key dest)).0 same in
        subst (λ (q : ℕ). Q (fifo.waits q (send_to (fifo.ipc) dest msg k).1)) (sym is)
          (subst Q (sym (sent_waits dest msg k short))
            (subst (λ (q : ℕ). Q (fifo.waits q k ++ (msg ∷ []))) is (there is)))
    | inr differ ↦
        let other_queue : other ≢ key dest = λ is. ground (arith, differ, is) in
        subst Q (sym (sent_other dest other msg k short other_queue)) (elsewhere other_queue)
  ]

  pub queue_taken :
      (Q : List Bytes → Type 0) (from other : ℕ) (msg : Bytes) (rest : List Bytes) (k : K)
      → fifo.waits from k ≡ msg ∷ rest
      → (other ≡ from → Q rest)
      → (other ≢ from → Q (fifo.waits other k))
      → Q (fifo.waits other (fifo.taken from k))
  queue_taken Q from other msg rest k front there elsewhere = elim (Bool-cases (other == from)) [
    | inl same ↦
        let is = (==_iff other from).0 same in
        subst Q
          (sym (
            ap (λ (q : ℕ). fifo.waits q (fifo.taken from k)) is
            ∙ fifo.taken_waits from msg rest k front))
          (there is)
    | inr differ ↦
        let other_queue : other ≢ from = λ is. ground (arith, differ, is) in
        subst Q (sym (fifo.taken_other from other k other_queue)) (elsewhere other_queue)
  ]
