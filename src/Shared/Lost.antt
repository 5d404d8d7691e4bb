-- ===== src/Shared/Lost.antt =====
-- What hold_lock leaves behind without SEM_UNDO.
use fleetcore.Prelude.{[], ℕ, ◌≡◌, ◌≢◌, inl, inr, refl, ap, sym, ◌∙◌, false, Bool-cases, arith}
use fleetcore.Shared.{
  Shared, hold_op, Pc, outside, killed, locking, holding, holds, update, undone, after_death, Step,
  calls, locks, interrupted, fails, works, unlocks, dies, Reach, here, later, initial,
}
use fleetcore.Shared.Exclusion.{update-cases, false-true, undone-cases, Exclusive, Reach-Exclusive}
use fleetcore.ShmTable.Whole.{IsTable}
use fleetcore.ShmTable.Rows.{Table}

-- Nobody holds the semaphore and nobody can get it.
record Lost (rows : Table) (s : Shared) : Type 0 where
  pub none_holds : (p : ℕ) → holds (s.pc p) ≡ false
  pub taken : s.semval ≡ 0
  pub same_rows : s.rows ≡ rows

none_held :
    (f : ℕ → Pc) (p : ℕ) (c : Pc)
    → holds c ≡ false
    → ((q : ℕ) → q ≢ p → holds (f q) ≡ false)
    → (q : ℕ) → holds (update f p c q) ≡ false
none_held f p c no_more others q = elim (update-cases f p q c) [
  | inl (same, is) ↦ ap holds is ∙ no_more
  | inr (other, is) ↦ ap holds is ∙ others q other
]

Step-Lost : {rows : Table} {s t : Shared} → Step s t → Lost rows s → Lost rows t
Step-Lost {rows} {s} (calls p op at) v = record {
  none_holds = none_held s.pc p (locking op) refl (λ q other. v.none_holds q);
  taken = v.taken;
  same_rows = v.same_rows;
}
Step-Lost {rows} {s} (locks p op at free) v = absurd (omega (arith, free, v.taken))
Step-Lost (interrupted p op at) v = v
Step-Lost {rows} {s} (fails p op at) v = record {
  none_holds = none_held s.pc p outside refl (λ q other. v.none_holds q);
  taken = v.taken;
  same_rows = v.same_rows;
}
Step-Lost {rows} {s} (works p op write left at) v =
    absurd (false-true (sym (v.none_holds p) ∙ ap holds at))
Step-Lost {rows} {s} (unlocks p op at gives) v =
    absurd (false-true (sym (v.none_holds p) ∙ ap holds at))
Step-Lost {rows} {s} (dies p) v = record {
  none_holds = none_held s.pc p killed refl (λ q other. v.none_holds q);
  taken = elim (undone-cases (s.pc p)) [
    | inl (now, small) ↦ absurd (false-true (sym (v.none_holds p) ∙ now))
    | inr (not_now, nothing) ↦ omega (arith, nothing, v.taken)
  ];
  same_rows = v.same_rows;
}

Reach-Lost : {rows : Table} {s t : Shared} → Reach s t → Lost rows s → Lost rows t
Reach-Lost here v = v
Reach-Lost (later r step) v = Step-Lost step (Reach-Lost r v)

death-Lost :
    (s : Shared) (p : ℕ)
    → Exclusive s
    → s.pc p ≡ holding (hold_op false) []
    → Lost s.rows (after_death s p)
unfolding undone
death-Lost s p x at = record {
  none_holds = none_held s.pc p killed refl (λ q other. elim (Bool-cases (holds (s.pc q))) [
    | inl now ↦ absurd (other (x.one q p now (ap holds at)))
    | inr not_now ↦ not_now
  ]);
  taken = omega (arith, x.taken p (ap holds at), ap undone at);
  same_rows = refl;
}

-- If a process that holds the semaphore without SEM_UNDO is killed, at any moment that processes
-- can come to from a free semaphore and a table, as in the control run of hold_lock, then whatever
-- the processes do afterwards none gets the semaphore again: its value stays 0, nobody is behind
-- `lock`, and the rows stay as they were.
pub Reach-lost :
    (rows : Table) (s t : Shared) (p q : ℕ)
    → IsTable rows
    → Reach (initial rows) s
    → s.pc p ≡ holding (hold_op false) []
    → Reach (after_death s p) t
    → (t.semval ≡ 0) × (t.rows ≡ s.rows) × (holds (t.pc q) ≡ false)
Reach-lost rows s t p q table r at on =
    let v = Reach-Lost on (death-Lost s p (Reach-Exclusive table r) at) in
    (v.taken, v.same_rows, v.none_holds q)
