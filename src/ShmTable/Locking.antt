-- ===== src/ShmTable/Locking.antt =====
-- What the semaphore does to the operations of the table.
use fleetcore.Prelude.{
  ℕ, zero, suc, ◌≡◌, ◌≢◌, refl, Bool, true, false, Option, none, some, List, [], ◌∷◌, ◌++◌,
  replicate, ==_ne, inl, inr, not, ◌||◌, ◌==◌, Bool-cases, if◌then◌else◌, ◌>>=◌,
}
use fleetcore.ShmTable.Rows.{Table, find_row, register_row, set_row, touch_row, occupied_rows}
use fleetcore.ShmTable.Whole.{IsTable, operations-IsTable}
use fleetcore.ShmTable.{
  ShmTable, SemOp, done, eintr, failed, Sem, semop_loop, lock, unlock, locked, register_terminal,
  set_state, touch, find, snapshot,
}

-- The answers that a call of `lock` or `unlock` gets: any number of interruptions, then `last`.
abbrev pub interrupted : ℕ → SemOp → List SemOp
interrupted n last = replicate n eintr ++ (last ∷ [])

semop_loop-interrupted : (n : ℕ) → semop_loop (interrupted n done) ≡ some true
unfolding semop_loop
semop_loop-interrupted zero = refl
semop_loop-interrupted (suc n) = semop_loop-interrupted n

semop_loop_failed : (n : ℕ) → semop_loop (interrupted n failed) ≡ some false
unfolding semop_loop
semop_loop_failed zero = refl
semop_loop_failed (suc n) = semop_loop_failed n

-- A process that has the table attached and the semaphore open.
abbrev pub IsOpen : ShmTable → ℕ → Type 0
IsOpen t id = (t.attached ≡ true) × (t.sem_id ≡ some id)

-- The semaphore is got, or fails, after `n` interruptions, and is given back after `m`.
abbrev pub answers : ℕ → SemOp → ℕ → Sem
answers n last m = record { acquire = interrupted n last; release = interrupted m done }

locked_lem :
    {A : Type 0} (t : ShmTable) (id n m : ℕ) (failure result : A)
    → t.sem_id ≡ some id
    → (locked t (answers n done m) failure result ≡ some result)
      × (locked t (answers n failed m) failure result ≡ some failure)
unfolding locked
locked_lem t id n m failure result sem =
    (rw (sem, semop_loop-interrupted n, semop_loop-interrupted m), rw (sem, semop_loop_failed n))

pub find_locked :
    (t : ShmTable) (id n m term : ℕ) (rows : Table)
    → IsOpen t id
    → find t (answers n done m) term rows ≡ some (find_row term rows)
unfolding find
find_locked t id n m term rows (att, sem) = simp att (locked_lem t id n m _ _ sem).0

pub set_state_locked :
    (t : ShmTable) (id n m now term state caps : ℕ) (rows : Table)
    → IsOpen t id
    → set_state t (answers n done m) now term state caps rows
      ≡ some (set_row now term state caps rows)
unfolding set_state
set_state_locked t id n m now term state caps rows (att, sem) =
    simp att (locked_lem t id n m _ _ sem).0

-- However many signals interrupt it, each operation on an open table, for a terminal number other
-- than 0, does its work on the rows and returns its result if it gets the semaphore.
pub operations_locked :
    (t : ShmTable) (id n m now term state caps room : ℕ) (rows : Table)
    → IsOpen t id
    → term ≢ 0
    → (register_terminal t (answers n done m) term rows ≡ some (register_row term rows))
      × (set_state t (answers n done m) now term state caps rows
          ≡ some (set_row now term state caps rows))
      × (touch t (answers n done m) now term rows ≡ some (touch_row now term rows))
      × (find t (answers n done m) term rows ≡ some (find_row term rows))
      × (snapshot t (answers n done m) false room rows ≡ some (occupied_rows room rows))
unfolding register_terminal set_state touch find snapshot
operations_locked t id n m now term state caps room rows (att, sem) nz = simp att (
  rw (==_ne term 0 nz) (locked_lem t id n m _ _ sem).0,
  (locked_lem t id n m _ _ sem).0,
  (locked_lem t id n m _ _ sem).0,
  (locked_lem t id n m _ _ sem).0,
  (locked_lem t id n m _ _ sem).0,
)

-- Each operation on an open table, for a terminal number other than 0, reports failure and leaves
-- the rows as they were if semop fails, however many signals come before.
pub operations_failed :
    (t : ShmTable) (id n m now term state caps room : ℕ) (rows : Table)
    → IsOpen t id
    → term ≢ 0
    → (register_terminal t (answers n failed m) term rows ≡ some (false, rows))
      × (set_state t (answers n failed m) now term state caps rows ≡ some (false, rows))
      × (touch t (answers n failed m) now term rows ≡ some (false, rows))
      × (find t (answers n failed m) term rows ≡ some none)
      × (snapshot t (answers n failed m) false room rows ≡ some [])
unfolding register_terminal set_state touch find snapshot
operations_failed t id n m now term state caps room rows (att, sem) nz = simp att (
  rw (==_ne term 0 nz) (locked_lem t id n m _ _ sem).1,
  (locked_lem t id n m _ _ sem).1,
  (locked_lem t id n m _ _ sem).1,
  (locked_lem t id n m _ _ sem).1,
  (locked_lem t id n m _ _ sem).1,
)

-- What holds of the result of an operation that has returned.
abbrev pub Returned {ℓ κ} : {A : Type ℓ} → (A → Type κ) → Option A → Type κ
Returned P none = Unit
Returned P (some a) = P a

unlock_then :
    {A : Type 0} (P : A → Type 0) (o : Option Bool) (result : A)
    → P result
    → Returned P (do released ← o; some result)
unlock_then P none result p = tt
unlock_then P (some released) result p = p

lock_then :
    {A : Type 0} (P : A → Type 0) (o u : Option Bool) (failure result : A)
    → P failure
    → P result
    → Returned P (do got ← o; if got then (do released ← u; some result) else some failure)
lock_then P none u failure result p q = tt
lock_then P (some true) u failure result p q = unlock_then P u result q
lock_then P (some false) u failure result p q = p

-- However the semaphore answers, an operation that returns gives its failure or its result.
pub locked-Returned :
    {A : Type 0} (P : A → Type 0) (t : ShmTable) (s : Sem) (failure result : A)
    → P failure
    → P result
    → Returned P (locked t s failure result)
unfolding locked
locked-Returned P t s failure result p q =
    lock_then P (lock t s.acquire) (unlock t s.release) failure result p q

-- What the operations that write to the table leave behind is a table, however the semaphore answers.
abbrev pub KeepsTable : Option (Bool × Table) → Type 0
KeepsTable = Returned (λ (r : Bool × Table). IsTable r.1)

pub set_state-KeepsTable :
    (t : ShmTable) (s : Sem) (now term state caps : ℕ) (rows : Table)
    → IsTable rows
    → KeepsTable (set_state t s now term state caps rows)
unfolding set_state
set_state-KeepsTable t s now term state caps rows v = elim (Bool-cases t.attached) [
  | inl on ↦ simp on (
      locked-Returned (λ (r : Bool × Table). IsTable r.1) t s (false, rows)
        (set_row now term state caps rows) v (operations-IsTable now term state caps rows v).1)
  | inr off ↦ simp off v
]

pub register_terminal-KeepsTable :
    (t : ShmTable) (s : Sem) (term : ℕ) (rows : Table)
    → IsTable rows
    → KeepsTable (register_terminal t s term rows)
unfolding register_terminal
register_terminal-KeepsTable t s term rows v = elim (Bool-cases (not t.attached || term == 0)) [
  | inl refused ↦ rw refused v
  | inr allowed ↦ rw allowed (
      locked-Returned (λ (r : Bool × Table). IsTable r.1) t s (false, rows) (register_row term rows)
        v (operations-IsTable 0 term 0 0 rows v).0)
]
