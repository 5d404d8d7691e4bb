-- ===== src/Tests/Processes.antt =====
-- Two processes on the table of terminal 1003, and hold_lock.
use fleetcore.Prelude.{[], ℕ, ◌≡◌, ◌⊎◌, refl, true, false}
use fleetcore.Shared.{
  Shared, Op, touch_op, hold_op, locking, holding, writes, holds, update, after_death, undone, Step,
  calls, locks, works, apply, last_seen_field, work, Reach, here, later, initial,
}
use fleetcore.Shared.Atomic.{begins, goes_on, section_atomic}
use fleetcore.Shared.Exclusion.{Reach-one}
use fleetcore.Shared.Lost.{Reach-lost}
use fleetcore.Shared.Undo.{UndoReach, UndoReach-free}
use fleetcore.Shared.Undo as Undo
use fleetcore.Tests.{whole_table}
use fleetcore.Tests.Shared.{whole_table-IsTable}
use fleetcore.ShmTable.Whole.{IsTable}

-- Process `1` in the section of this operation, after two steps.
abbrev taken : Op → Shared
taken op = record {
  semval = 0;
  rows = whole_table;
  pc = update (update (initial whole_table).pc 1 (locking op)) 1 (holding op (writes op));
}

get_there : (op : Op) → Reach (initial whole_table) (taken op)
get_there op = later (later here (calls 1 op refl)) (locks 1 op refl refl)

Reach-one_example : (◌≡◌ {A = ℕ} 1 1) × (◌≡◌ {A = ℕ} 0 0) × IsTable whole_table
Reach-one_example =
    Reach-one whole_table (taken (touch_op 5 1003)) 1 1 whole_table-IsTable
      (get_there (touch_op 5 1003)) refl refl

-- Process `1` has done its one write, and process `2` waits.
abbrev touched_by : Op → Shared
touched_by op = record {
  semval = 0;
  rows = apply (last_seen_field 1003 5) whole_table;
  pc = update (update (taken op).pc 2 (locking (touch_op 6 1003))) 1 (holding op []);
}

-- Process `1` does its writes, and process `2` calls between them.
section_atomic_example : (touched_by (touch_op 5 1003)).rows ≡ work (touch_op 5 1003) whole_table
unfolding writes
section_atomic_example =
    section_atomic whole_table (taken (touch_op 5 1003)) (touched_by (touch_op 5 1003)) 1
      (touch_op 5 1003) whole_table-IsTable (get_there (touch_op 5 1003)) refl
      (goes_on (goes_on begins (calls 2 (touch_op 6 1003) refl) refl)
        (works 1 (touch_op 5 1003) (last_seen_field 1003 5) [] refl) refl)
      refl

UndoReach-free_example :
    (◌≡◌ {A = ℕ} 0 1)
    ⊎ ((p : ℕ) × (holds ((taken (touch_op 5 1003)).pc p) ≡ true)
        × Step (taken (touch_op 5 1003)) (after_death (taken (touch_op 5 1003)) p)
        × ((after_death (taken (touch_op 5 1003)) p).semval ≡ 1))
UndoReach-free_example = UndoReach-free whole_table (taken (touch_op 5 1003)) whole_table-IsTable (
    Undo.later (Undo.later Undo.here (calls 1 (touch_op 5 1003) refl) refl)
      (locks 1 (touch_op 5 1003) refl refl) tt)

-- Process `2` wants the table after process `1`, which was hold_lock without SEM_UNDO, is killed.
Reach-lost_example :
    (◌≡◌ {A = ℕ} 0 0) × (whole_table ≡ whole_table) × (holds (locking (touch_op 6 1003)) ≡ false)
unfolding undone writes
Reach-lost_example =
    Reach-lost whole_table (taken (hold_op false)) _ 1 2 whole_table-IsTable
      (get_there (hold_op false)) refl (later here (calls 2 (touch_op 6 1003) refl))
