-- ===== src/Shared/Exclusion.antt =====
-- The semaphore keeps the processes on the table apart.
use fleetcore.Prelude.{
  ℕ, ◌+◌, ◌≤◌, ◌≡◌, ◌≢◌, ◌⊎◌, inl, inr, refl, ap, sym, subst, ◌∙◌, true, false, Bool-cases, arith,
  ◌==◌, List,
}
use fleetcore.Shared.{
  Shared, Op, Write, claim, state_field, capabilities_field, last_seen_field, apply, writes, Pc,
  outside, killed, locking, holding, holds, update, undone, Step, calls, locks, interrupted, fails,
  works, unlocks, dies, Reach, here, later, initial,
}
use fleetcore.ShmTable.Whole.{IsTable, operations-IsTable, change_row-IsTable}
use fleetcore.ShmTable.Rows.{Table}

pub false-true : false ≢ true
false-true e = cc

pub update-cases :
    (f : ℕ → Pc) (p q : ℕ) (c : Pc)
    → ((q ≡ p) × (update f p c q ≡ c)) ⊎ ((q ≢ p) × (update f p c q ≡ f q))
update-cases f p q c = elim (Bool-cases (q == p)) [
  | inl same ↦ inl (ground (arith, same), rw same)
  | inr other ↦ inr ((λ e. ground (arith, other, e)), rw other)
]

pub update_same : (f : ℕ → Pc) (p : ℕ) (c : Pc) → update f p c p ≡ c
update_same f p c = elim (update-cases f p p c) [
  | inl (same, is) ↦ is
  | inr (other, is) ↦ absurd (other refl)
]

-- One process at most is behind its `lock`, and while one is the value is 0.
pub record Exclusive (s : Shared) : Type 0 where
  pub one : (p q : ℕ) → holds (s.pc p) ≡ true → holds (s.pc q) ≡ true → p ≡ q
  pub taken : (p : ℕ) → holds (s.pc p) ≡ true → s.semval ≡ 0
  pub binary : s.semval ≤ 1
  pub table : IsTable s.rows

pub held_before :
    (f : ℕ → Pc) (p q : ℕ) (c : Pc)
    → holds c ≡ false
    → holds (update f p c q) ≡ true
    → (q ≢ p) × (holds (f q) ≡ true)
held_before f p q c no_more h = elim (update-cases f p q c) [
  | inl (same, is) ↦ absurd (true_false (sym h ∙ ap holds is ∙ no_more))
  | inr (other, is) ↦ (other, sym (ap holds is) ∙ h)
]
  where
    true_false : true ≢ false
    true_false e = cc

-- A process that does not hold the semaphore moves on and does not hold it.
stays_out :
    (s : Shared) (p : ℕ) (c : Pc)
    → Exclusive s
    → holds c ≡ false
    → holds (s.pc p) ≡ false
    → Exclusive (record s { pc = update s.pc p c })
stays_out s p c v no_more not_now = record {
  one = λ a b ha hb.
      v.one a b (held_before s.pc p a c no_more ha).1 (held_before s.pc p b c no_more hb).1;
  taken = λ a ha. v.taken a (held_before s.pc p a c no_more ha).1;
  binary = v.binary;
  table = v.table;
}

-- The holder gives the semaphore up, or is killed, when `n` goes back.
gives_up :
    (s : Shared) (p n : ℕ) (c : Pc)
    → Exclusive s
    → holds c ≡ false
    → holds (s.pc p) ≡ true
    → n ≤ 1
    → Exclusive (record s { semval = s.semval + n; pc = update s.pc p c })
gives_up s p n c v no_more now small = record {
  one = λ a b ha hb.
      v.one a b (held_before s.pc p a c no_more ha).1 (held_before s.pc p b c no_more hb).1;
  taken = λ a ha.
      let (other, h) = held_before s.pc p a c no_more ha in absurd (other (v.one a p h now));
  binary = omega (arith, v.taken p now);
  table = v.table;
}

apply-IsTable : (w : Write) (rows : Table) → IsTable rows → IsTable (apply w rows)
unfolding apply
apply-IsTable (claim term) rows v = (operations-IsTable 0 term 0 0 rows v).0
apply-IsTable (state_field term value) rows v = change_row-IsTable _ term rows (λ row. refl) v
apply-IsTable (capabilities_field term value) rows v =
    change_row-IsTable _ term rows (λ row. refl) v
apply-IsTable (last_seen_field term value) rows v = change_row-IsTable _ term rows (λ row. refl) v

takes :
    (s : Shared) (p : ℕ) (op : Op) (left : List Write)
    → Exclusive s
    → s.semval ≡ 1
    → Exclusive (record s { semval = 0; pc = update s.pc p (holding op left) })
takes s p op left v free = record {
  one = λ a b ha hb. only a ha ∙ sym (only b hb);
  taken = λ a ha. refl;
  binary = omega arith;
  table = v.table;
}
  where
    only : (a : ℕ) → holds (update s.pc p (holding op left) a) ≡ true → a ≡ p
    only a h = elim (update-cases s.pc p a (holding op left)) [
      | inl (same, is) ↦ same
      | inr (other, is) ↦ absurd (omega (arith, v.taken a (sym (ap holds is) ∙ h), free))
    ]

does_work :
    (s : Shared) (p : ℕ) (op : Op) (left : List Write) (rows : Table)
    → Exclusive s
    → holds (s.pc p) ≡ true
    → IsTable rows
    → Exclusive (record s { rows = rows; pc = update s.pc p (holding op left) })
does_work s p op left rows v now table = record {
  one = λ a b ha hb. v.one a b (before a ha) (before b hb);
  taken = λ a ha. v.taken a (before a ha);
  binary = v.binary;
  table = table;
}
  where
    before : (a : ℕ) → holds (update s.pc p (holding op left) a) ≡ true → holds (s.pc a) ≡ true
    before a h = elim (update-cases s.pc p a (holding op left)) [
      | inl (same, is) ↦ ap (λ (q : ℕ). holds (s.pc q)) same ∙ now
      | inr (other, is) ↦ sym (ap holds is) ∙ h
    ]

pub undone-cases :
    (c : Pc) → ((holds c ≡ true) × (undone c ≤ 1)) ⊎ ((holds c ≡ false) × (undone c ≡ 0))
unfolding undone
undone-cases outside = inr (refl, refl)
undone-cases killed = inr (refl, refl)
undone-cases (locking op) = inr (refl, refl)
undone-cases (holding op left) = inl (refl, ground arith)

Step-Exclusive : {s t : Shared} → Step s t → Exclusive s → Exclusive t
Step-Exclusive {s} (calls p op at) v = stays_out s p (locking op) v refl (ap holds at)
Step-Exclusive {s} (locks p op at free) v = takes s p op (writes op) v free
Step-Exclusive (interrupted p op at) v = v
Step-Exclusive {s} (fails p op at) v = stays_out s p outside v refl (ap holds at)
Step-Exclusive {s} (works p op write left at) v =
    does_work s p op left (apply write s.rows) v (ap holds at) (apply-IsTable write s.rows v.table)
Step-Exclusive {s} (unlocks p op at gives) v =
    gives_up s p 1 outside v refl (ap holds at) (omega arith)
Step-Exclusive {s} (dies p) v = elim (undone-cases (s.pc p)) [
  | inl (now, small) ↦ gives_up s p (undone (s.pc p)) killed v refl now small
  | inr (not_now, nothing) ↦
      subst (λ (n : ℕ). Exclusive (record s { semval = n; pc = update s.pc p killed }))
        (omega (arith, nothing)) (stays_out s p killed v refl not_now)
]

pub Reach-Exclusive :
    {rows : Table} {s : Shared} → IsTable rows → Reach (initial rows) s → Exclusive s
Reach-Exclusive table here = record {
  one = λ p q hp hq. absurd (false-true hp);
  taken = λ p hp. absurd (false-true hp);
  binary = omega arith;
  table = table;
}
Reach-Exclusive table (later r step) = Step-Exclusive step (Reach-Exclusive table r)

-- From a free semaphore and a table, with every process outside, whatever the processes do, in any
-- order, and whichever are killed: if two are between `lock` and the end of `unlock`, they are one
-- and the same, the semaphore has the value 0, and the rows are a table: 64 rows, no terminal in
-- two of them.
pub Reach-one :
    (rows : Table) (s : Shared) (p q : ℕ)
    → IsTable rows
    → Reach (initial rows) s
    → holds (s.pc p) ≡ true
    → holds (s.pc q) ≡ true
    → (p ≡ q) × (s.semval ≡ 0) × IsTable s.rows
Reach-one rows s p q table r hp hq =
    let v = Reach-Exclusive table r in (v.one p q hp hq, v.taken p hp, v.table)
