-- ===== src/Shared/Undo.antt =====
-- What SEM_UNDO is for: what is left of the semaphore when its holder is killed.
use fleetcore.Prelude.{ℕ, ◌+◌, ◌≡◌, ◌⊎◌, inl, inr, refl, ap, sym, subst, ◌∙◌, true, false, arith}
use fleetcore.Shared.{
  Shared, Pc, outside, killed, locking, holding, holds, update, undone, undoes, after_death, Step,
  calls, locks, interrupted, fails, works, unlocks, dies, Reach, initial, apply, writes,
}
use fleetcore.Shared.Exclusion.{
  update-cases, update_same, false-true, undone-cases, Exclusive, Reach-Exclusive,
}
use fleetcore.ShmTable.Whole.{IsTable}
use fleetcore.ShmTable.Rows.{Table}

-- The operation of a process is one with SEM_UNDO.
abbrev Undoes : Pc → Type 0
Undoes (locking op) = undoes op ≡ true
Undoes (holding op left) = undoes op ≡ true
Undoes _ = Unit {0}

-- The step is no call of an operation without SEM_UNDO.
abbrev pub WithUndo : {s t : Shared} → Step s t → Type 0
WithUndo (calls p op at) = undoes op ≡ true
WithUndo _ = Unit {0}

-- Only operations with SEM_UNDO are called on the way.
pub data UndoReach (s : Shared) : Shared → Type 0 where
  here : UndoReach s s
  later : {t u : Shared} → UndoReach s t → (step : Step t u) → WithUndo step → UndoReach s u

record Kept (s : Shared) : Type 0 where
  pub each : (p : ℕ) → Undoes (s.pc p)
  pub free_or_held : (s.semval ≡ 1) ⊎ ((p : ℕ) × (holds (s.pc p) ≡ true))

all_Undoes :
    (f : ℕ → Pc) (p : ℕ) (c : Pc)
    → ((q : ℕ) → Undoes (f q))
    → Undoes c
    → (q : ℕ) → Undoes (update f p c q)
all_Undoes f p c each u q = elim (update-cases f p q c) [
  | inl (same, is) ↦ subst Undoes (sym is) u
  | inr (other, is) ↦ subst Undoes (sym is) (each q)
]

-- The process that moves does not hold the semaphore, before and after.
still :
    (s : Shared) (p : ℕ) (c : Pc)
    → Kept s
    → Undoes c
    → holds (s.pc p) ≡ false
    → Kept (record s { pc = update s.pc p c })
still s p c v u not_now = record {
  each = all_Undoes s.pc p c v.each u;
  free_or_held = elim v.free_or_held [
    | inl free ↦ inl free
    | inr (q, h) ↦ elim (update-cases s.pc p q c) [
      | inl (same, is) ↦
          absurd (false-true (sym not_now ∙ sym (ap (λ (a : ℕ). holds (s.pc a)) same) ∙ h))
      | inr (other, is) ↦ inr (q, ap holds is ∙ h)
    ]
  ];
}

-- It holds it afterwards.
has :
    (s : Shared) (p n : ℕ) (c : Pc) (rows : Table)
    → Kept s
    → Undoes c
    → holds c ≡ true
    → Kept (record { semval = n; rows = rows; pc = update s.pc p c })
has s p n c rows v u now = record {
  each = all_Undoes s.pc p c v.each u;
  free_or_held = inr (p, ap holds (update_same s.pc p c) ∙ now);
}

-- It has given it up.
free_again :
    (s : Shared) (p n : ℕ) (c : Pc)
    → Kept s
    → Undoes c
    → n ≡ 1
    → Kept (record s { semval = n; pc = update s.pc p c })
free_again s p n c v u one = record { each = all_Undoes s.pc p c v.each u; free_or_held = inl one }

undone_held : (c : Pc) → holds c ≡ true → Undoes c → undone c ≡ 1
unfolding undone
undone_held (holding op left) h u = rw u
undone_held outside h u = absurd (false-true h)
undone_held killed h u = absurd (false-true h)
undone_held (locking op) h u = absurd (false-true h)

Step-Kept : {s t : Shared} (step : Step s t) → WithUndo step → Exclusive s → Kept s → Kept t
Step-Kept {s} (calls p op at) u x v = still s p (locking op) v u (ap holds at)
Step-Kept {s} (locks p op at free) u x v =
    has s p 0 (holding op (writes op)) s.rows v (subst Undoes at (v.each p)) refl
Step-Kept (interrupted p op at) u x v = v
Step-Kept {s} (fails p op at) u x v = still s p outside v tt (ap holds at)
Step-Kept {s} (works p op write left at) u x v =
    has s p s.semval (holding op left) (apply write s.rows) v (subst Undoes at (v.each p)) refl
Step-Kept {s} (unlocks p op at gives) u x v =
    free_again s p (s.semval + 1) outside v tt (omega (arith, x.taken p (ap holds at)))
Step-Kept {s} (dies p) u x v = elim (undone-cases (s.pc p)) [
  | inl (now, small) ↦
      free_again s p (s.semval + undone (s.pc p)) killed v tt
        (omega (arith, x.taken p now, undone_held (s.pc p) now (v.each p)))
  | inr (not_now, nothing) ↦
      subst (λ (n : ℕ). Kept (record s { semval = n; pc = update s.pc p killed }))
        (omega (arith, nothing)) (still s p killed v tt not_now)
]

UndoReach-Reach : {s t : Shared} → UndoReach s t → Reach s t
UndoReach-Reach here = Reach.here
UndoReach-Reach (later r step u) = Reach.later (UndoReach-Reach r) step

UndoReach-Kept : {rows : Table} {s : Shared} → IsTable rows → UndoReach (initial rows) s → Kept s
UndoReach-Kept table here = record { each = λ p. tt; free_or_held = inl refl }
UndoReach-Kept table (later r step u) =
    Step-Kept step u (Reach-Exclusive table (UndoReach-Reach r)) (UndoReach-Kept table r)

-- From a free semaphore and a table, where every operation called has SEM_UNDO, at every moment the
-- semaphore is free or some process holds it, and if that process is killed, wherever it is between
-- `lock` and the end of `unlock`, the semaphore is free again.
pub UndoReach-free :
    (rows : Table) (s : Shared)
    → IsTable rows
    → UndoReach (initial rows) s
    → (s.semval ≡ 1)
      ⊎ ((p : ℕ) × (holds (s.pc p) ≡ true)
          × Step s (after_death s p)
          × ((after_death s p).semval ≡ 1))
UndoReach-free rows s table r =
    let v = UndoReach-Kept table r in
    let x = Reach-Exclusive table (UndoReach-Reach r) in
    elim v.free_or_held [
      | inl free ↦ inl free
      | inr (p, h) ↦
          inr (p, h, dies p, omega (arith, x.taken p h, undone_held (s.pc p) h (v.each p)))
    ]
