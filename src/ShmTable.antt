-- ===== src/ShmTable.antt =====
-- common/shm_table.h and common/shm_table.cpp: the terminal table in shared memory. The rows are the
-- memory of the segment, passed from call to call; a `ShmTable` holds what one process has of it.
-- What the kernel answers to the calls of an operation is an argument: one answer for each call, in
-- order. A result `none` means that the last call of the list has not let the process go on.
pub mod Rows
pub mod Lookup
pub mod Whole
pub mod Locking
pub mod Open
use fleetcore.Prelude.{
  ℕ, ◌+◌, ◌%◌, ◌^◌, ◌*◌, Bool, true, false, not, ◌||◌, Option, none, some, List, [], ◌∷◌, ◌==◌,
  if◌then◌else◌, ◌>>=◌,
}
use Rows.{TermEntry, Table, register_row, set_row, touch_row, find_row, occupied_rows}

pub record ShmTable : Type 0 where
  pub sem_id : Option ℕ
  pub attached : Bool

-- The destructor: whether shmdt is called, and the object then.
unfoldable pub detach : ShmTable → Bool × ShmTable
detach t = if t.attached then (true, record t { attached = false }) else (false, t)

-- A `semop`: it is done, a signal interrupts it, or it fails.
pub data SemOp : Type 0 where
  done eintr failed : SemOp

abbrev pub is_some {ℓ} : {A : Type ℓ} → Option A → Bool
is_some none = false
is_some (some a) = true

semop_loop : List SemOp → Option Bool
semop_loop [] = none
semop_loop (done ∷ ops) = some true
semop_loop (eintr ∷ ops) = semop_loop ops
semop_loop (failed ∷ ops) = some false

unfoldable pub lock : ShmTable → List SemOp → Option Bool
unfolding semop_loop
lock t ops = if is_some t.sem_id then semop_loop ops else some false

unfoldable pub unlock : ShmTable → List SemOp → Option Bool
unfolding semop_loop
unlock t ops = if is_some t.sem_id then semop_loop ops else some false

-- The answers to the `semop` calls of one operation.
pub record Sem : Type 0 where
  pub acquire : List SemOp
  pub release : List SemOp

-- `if (!lock()) return failure; ...; unlock(); return result;`
unfoldable pub locked {ℓ} : {A : Type ℓ} → ShmTable → Sem → A → A → Option A
unfolding lock unlock
locked t s failure result = do
  got ← lock t s.acquire
  if got then (do released ← unlock t s.release; some result) else some failure

unfoldable pub register_terminal : ShmTable → Sem → ℕ → Table → Option (Bool × Table)
register_terminal t s term_no rows =
    if not t.attached || term_no == 0
    then some (false, rows)
    else locked t s (false, rows) (register_row term_no rows)

unfoldable pub set_state : ShmTable → Sem → ℕ → ℕ → ℕ → ℕ → Table → Option (Bool × Table)
set_state t s now term_no state capabilities rows =
    if not t.attached
    then some (false, rows)
    else locked t s (false, rows) (set_row now term_no state capabilities rows)

unfoldable pub touch : ShmTable → Sem → ℕ → ℕ → Table → Option (Bool × Table)
touch t s now term_no rows =
    if not t.attached
    then some (false, rows)
    else locked t s (false, rows) (touch_row now term_no rows)

-- The row copied out, or `none` where `find` returns false and leaves its out parameter alone.
unfoldable pub find : ShmTable → Sem → ℕ → Table → Option (Option TermEntry)
find t s term_no rows =
    if not t.attached then some none else locked t s none (find_row term_no rows)

-- The rows copied out; `out_null` is `out == nullptr`.
unfoldable pub snapshot : ShmTable → Sem → Bool → ℕ → Table → Option (List TermEntry)
snapshot t s out_null cap rows =
    if not t.attached || out_null then some [] else locked t s [] (occupied_rows cap rows)
