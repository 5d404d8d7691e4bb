-- ===== src/Shared.antt =====
-- Any number of processes on one terminal table: the sections that `lock` and `unlock` of
-- common/shm_table.cpp enclose, and tools/hold_lock/main.cpp, interleaved in any order. A semaphore
-- of the kernel is its value, which `semop` takes down from 1 or waits for, and gives up; what
-- SEM_UNDO adds is given up by the kernel when the process ends, whenever that is. Each
-- write to a row is a step; it looks for its row itself, which no other write moves.
pub mod Exclusion
pub mod Atomic
pub mod Undo
pub mod Lost
use fleetcore.Prelude.{◌%◌, ◌^◌, List, [], ◌∷◌, ℕ, ◌+◌, Bool, true, false, ◌≡◌, if◌then◌else◌, ◌==◌}
use fleetcore.ShmTable.Rows.{Table, register_row, set_row, touch_row, change_row}

-- What a process wants the semaphore for.
pub data Op : Type 0 where
  register_op : (term : ℕ) → Op
  set_state_op : (now term state capabilities : ℕ) → Op
  touch_op : (now term : ℕ) → Op
  read_op : Op
  hold_op : (undo : Bool) → Op

-- SEM_UNDO in the flags of the operation's `semop`.
abbrev pub undoes : Op → Bool
undoes (hold_op undo) = undo
undoes _ = true

-- What the section does to the rows: `find` and `snapshot` read them only.
unfoldable pub work : Op → Table → Table
work (register_op term) rows = (register_row term rows).1
work (set_state_op now term state capabilities) rows = (set_row now term state capabilities rows).1
work (touch_op now term) rows = (touch_row now term rows).1
work read_op rows = rows
work (hold_op undo) rows = rows

-- One write of a section to the rows: a field of the first row of a terminal, or a free row that is
-- claimed for it, where it has none yet.
pub data Write : Type 0 where
  claim : (term : ℕ) → Write
  state_field capabilities_field last_seen_field : (term value : ℕ) → Write

unfoldable pub apply : Write → Table → Table
apply (claim term) rows = (register_row term rows).1
apply (state_field term value) rows = (change_row (λ row. record row { state = value }) term rows).1
apply (capabilities_field term value) rows =
    (change_row (λ row. record row { capabilities = value }) term rows).1
apply (last_seen_field term value) rows =
    (change_row (λ row. record row { last_seen = value }) term rows).1

-- The writes of a section, in order.
unfoldable pub writes : Op → List Write
writes (register_op term) = claim term ∷ []
writes (set_state_op now term state capabilities) =
    state_field term state
    ∷ capabilities_field term capabilities
    ∷ last_seen_field term (now % 2 ^ 64)
    ∷ []
writes (touch_op now term) = last_seen_field term (now % 2 ^ 64) ∷ []
writes read_op = []
writes (hold_op undo) = []

-- hold_lock never gives the semaphore up.
abbrev pub releases : Op → Bool
releases (hold_op undo) = false
releases _ = true

-- Where a process is: outside, killed, in the loop of `lock`, or behind it with these writes left.
pub data Pc : Type 0 where
  outside killed : Pc
  locking : Op → Pc
  holding : Op → List Write → Pc

abbrev pub holds : Pc → Bool
holds (holding op left) = true
holds _ = false

abbrev pub update : (ℕ → Pc) → ℕ → Pc → ℕ → Pc
update f p c q = if q == p then c else f q

pub record Shared : Type 0 where
  pub semval : ℕ
  pub rows : Table
  pub pc : ℕ → Pc

-- What the kernel gives up for a process that is killed there.
unfoldable pub undone : Pc → ℕ
undone (holding op left) = if undoes op then 1 else 0
undone _ = 0

-- What is left when a process is killed.
abbrev pub after_death : Shared → ℕ → Shared
after_death s p = record s { semval = s.semval + undone (s.pc p); pc = update s.pc p Pc.killed }

-- Process `p` calls an operation; its `semop` is done, is interrupted, or fails; it does one write;
-- its second `semop` is done; it is killed. The second one adds 1 and never waits, and is taken not to
-- fail: nothing in the repository removes the semaphore set or sets it above 1.
pub data Step (s : Shared) : Shared → Type 0 where
  calls :
      (p : ℕ) (op : Op)
      → s.pc p ≡ Pc.outside
      → Step s (record s { pc = update s.pc p (Pc.locking op) })
  locks :
      (p : ℕ) (op : Op)
      → s.pc p ≡ Pc.locking op
      → s.semval ≡ 1
      → Step s (record s { semval = 0; pc = update s.pc p (Pc.holding op (writes op)) })
  interrupted : (p : ℕ) (op : Op) → s.pc p ≡ Pc.locking op → Step s s
  fails :
      (p : ℕ) (op : Op)
      → s.pc p ≡ Pc.locking op
      → Step s (record s { pc = update s.pc p Pc.outside })
  works :
      (p : ℕ) (op : Op) (write : Write) (left : List Write)
      → s.pc p ≡ Pc.holding op (write ∷ left)
      → Step s (record s { rows = apply write s.rows; pc = update s.pc p (Pc.holding op left) })
  unlocks :
      (p : ℕ) (op : Op)
      → s.pc p ≡ Pc.holding op []
      → releases op ≡ true
      → Step s (record s { semval = s.semval + 1; pc = update s.pc p Pc.outside })
  dies : (p : ℕ) → Step s (after_death s p)

pub data Reach (s : Shared) : Shared → Type 0 where
  here : Reach s s
  later : {t u : Shared} → Reach s t → Step t u → Reach s u

-- The semaphore as `open` leaves it, before any process has called an operation.
abbrev pub initial : Table → Shared
initial rows = record { semval = 1; rows = rows; pc = λ p. Pc.outside }
