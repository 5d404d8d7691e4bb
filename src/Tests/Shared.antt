-- ===== src/Tests/Shared.antt =====
-- A table with one terminal.
use fleetcore.Prelude.{◌%◌, ◌^◌, ◌≡◌, ◌↔◌, refl, true, ◌||◌, ◌==◌, if◌then◌else◌, some, arith}
use fleetcore.ShmTable.Lookup.{
  row_with, row_seen, has_free, is_registered, registered, changed, register_row_refines,
  set_row_refines,
}
use fleetcore.ShmTable.Whole.{IsTable}
use fleetcore.ShmTable.Open.{Kernel, exists, unset, isset, Seen, open_table, open_table_waits}
use fleetcore.ShmTable.Rows.{find_row, register_row, set_row, touch_row}
use fleetcore.Tests.{open_one, small_table, whole_table}

-- Terminal 1007 is not in the table, which has room for it.
register_row_refines_example :
    ((register_row 1007 small_table).0
      ≡ (is_registered (find_row 1007 small_table) || has_free small_table))
    × (find_row 1003 (register_row 1007 small_table).1 ≡ (
        if 1003 == 1007
        then registered (has_free small_table) 1007 (find_row 1007 small_table)
        else find_row 1003 small_table))
register_row_refines_example =
    register_row_refines 1007 1003 small_table (omega arith) (omega arith)

set_row_refines_example :
    ((set_row 5000 1003 2 1 small_table).0 ≡ is_registered (find_row 1003 small_table))
    × (find_row 1003 (set_row 5000 1003 2 1 small_table).1 ≡ (
        if 1003 == 1003
        then changed (row_with 2 1 (5000 % 2 ^ 64)) (find_row 1003 small_table)
        else find_row 1003 small_table))
    × ((touch_row 5000 1003 small_table).0 ≡ is_registered (find_row 1003 small_table))
    × (find_row 1003 (touch_row 5000 1003 small_table).1 ≡ (
        if 1003 == 1003
        then changed (row_seen (5000 % 2 ^ 64)) (find_row 1003 small_table)
        else find_row 1003 small_table))
set_row_refines_example = set_row_refines 5000 1003 2 1 1003 small_table

pub whole_table-IsTable : IsTable whole_table
whole_table-IsTable = record { size = refl; distinct = ground arith }

-- Another process has made the semaphore set, and initialises it after two looks.
abbrev pub slow_creator : Kernel
slow_creator = record {
  shmget = some 1;
  shmat = true;
  semget_new = exists;
  semget_old = some 5;
  semop_init = true;
  stat = λ i. if i == 2 then isset else unset;
}

open_table_waits_example :
    (((open_table slow_creator open_one).0 ≡ true) ↔ Seen slow_creator.stat 100 0)
    × ((open_table slow_creator open_one).1 ≡ record { sem_id = some 5; attached = true })
open_table_waits_example = open_table_waits slow_creator open_one 1 5 refl refl refl refl
