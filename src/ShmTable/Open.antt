-- ===== src/ShmTable/Open.antt =====
-- common/shm_table.cpp, `ShmTable::open`, here `open_table`. What the kernel answers is a record, one
-- field for each call that `open` makes; `stat i` answers the i-th IPC_STAT of the waiting loop.
use fleetcore.Prelude.{
  ℕ, zero, suc, ◌+◌, ◌<◌, ◌≡◌, ◌↔◌, ◌⊎◌, inl, inr, refl, ap, ◌∙◌, arith, Bool, true, false, Option,
  none, some, if◌then◌else◌,
}
use fleetcore.ShmTable.{ShmTable}

-- `semget(..., IPC_CREAT | IPC_EXCL | 0600)`.
pub data SemGet : Type 0 where
  created : ℕ → SemGet
  exists : SemGet
  refused : SemGet

-- `semctl(..., IPC_STAT)`: whether `sem_otime` is still zero.
pub data Stat : Type 0 where
  unset isset stat_failed : Stat

pub record Kernel : Type 0 where
  pub shmget : Option ℕ
  pub shmat : Bool
  pub semget_new : SemGet
  pub semget_old : Option ℕ
  pub semop_init : Bool
  pub stat : ℕ → Stat

abbrev pub init_retries : ℕ
init_retries = 100

-- The waiting loop with `rounds` left, at index `i`: the value of `ready`, or `none` for the early
-- return.
unfoldable pub wait_ready : (ℕ → Stat) → ℕ → ℕ → Option Bool
wait_ready stat zero i = some false
wait_ready stat (suc rounds) i = elim (stat i) [
  | stat_failed ↦ none
  | isset ↦ some true
  | unset ↦ wait_ready stat rounds (suc i)
]

abbrev pub is_ready : Option Bool → Bool
is_ready none = false
is_ready (some ready) = ready

-- The semaphore, once the rows are attached.
unfoldable pub open_sem : Kernel → SemGet → Bool × Option ℕ
unfolding wait_ready
open_sem k (created id) = (k.semop_init, some id)
open_sem k exists = elim k.semget_old [
  | none ↦ (false, none)
  | some id ↦ (is_ready (wait_ready k.stat init_retries 0), some id)
]
open_sem k refused = (false, none)

unfoldable pub open_table : Kernel → ShmTable → Bool × ShmTable
unfolding open_sem
open_table k t = elim k.shmget [
  | none ↦ (false, t)
  | some shm_id ↦
      if k.shmat
      then (let (ok, id) = open_sem k k.semget_new in (ok, record { sem_id = id; attached = true }))
      else (false, t)
]

-- The loop at index `i` sees `sem_otime` set within its rounds, and no failure before that.
abbrev pub Seen : (ℕ → Stat) → ℕ → ℕ → Type 0
Seen stat rounds i =
    (n : ℕ) × (n < rounds) × (stat (i + n) ≡ isset) × ((j : ℕ) → j < n → stat (i + j) ≡ unset)

Seen-now : (stat : ℕ → Stat) (rounds i : ℕ) → stat i ≡ isset → Seen stat (suc rounds) i
Seen-now stat rounds i e = (0, omega arith, ap stat (omega arith) ∙ e, λ j h. elim h [ ])

Seen-later :
    (stat : ℕ → Stat) (rounds i : ℕ)
    → stat i ≡ unset
    → Seen stat rounds (suc i)
    → Seen stat (suc rounds) i
Seen-later stat rounds i e (n, h, hit, quiet) =
    (suc n, omega arith, ap stat (omega arith) ∙ hit, earlier)
  where
    earlier : (j : ℕ) → j < suc n → stat (i + j) ≡ unset
    earlier zero l = ap stat (omega arith) ∙ e
    earlier (suc j) l = ap stat (omega arith) ∙ quiet j (omega arith)

Seen-rest :
    (stat : ℕ → Stat) (rounds i : ℕ)
    → stat i ≡ unset
    → Seen stat (suc rounds) i
    → Seen stat rounds (suc i)
Seen-rest stat rounds i e (zero, h, hit, quiet) = cc (hit, e, ap {B = Stat} stat (zero_right i))
  where
    zero_right : (i : ℕ) → i + 0 ≡ i
    zero_right i = omega arith
Seen-rest stat rounds i e (suc n, h, hit, quiet) = (
  n,
  omega arith,
  ap stat (omega arith) ∙ hit,
  λ j l. ap stat (omega arith) ∙ quiet (suc j) (omega arith),
)

Stat-cases : (s : Stat) → (s ≡ unset) ⊎ ((s ≡ isset) ⊎ (s ≡ stat_failed))
Stat-cases unset = inl refl
Stat-cases isset = inr (inl refl)
Stat-cases stat_failed = inr (inr refl)

Seen-first :
    (stat : ℕ → Stat) (rounds i : ℕ)
    → Seen stat (suc rounds) i
    → (stat i ≡ isset) ⊎ (stat i ≡ unset)
Seen-first stat rounds i (zero, h, hit, quiet) = inl (ap stat (omega arith) ∙ hit)
Seen-first stat rounds i (suc n, h, hit, quiet) =
    inr (ap stat (omega arith) ∙ quiet 0 (omega arith))

wait_ready-Seen :
    (stat : ℕ → Stat) (rounds i : ℕ) → (wait_ready stat rounds i ≡ some true) ↔ Seen stat rounds i
unfolding wait_ready
wait_ready-Seen stat zero i = (λ e. cc, λ s. elim s.1 [ ])
wait_ready-Seen stat (suc rounds) i = elim (Stat-cases (stat i)) [
  | inl e ↦
      let (to, from) = wait_ready-Seen stat rounds (suc i) in
      (
        λ r. Seen-later stat rounds i e (to (rw (e, wait_ready) at r)),
        λ s. rw (e, wait_ready) (from (Seen-rest stat rounds i e s)),
      )
  | inr (inl e) ↦ (λ r. Seen-now stat rounds i e, λ s. rw (e, wait_ready))
  | inr (inr e) ↦ (
    λ r. absurd (cc (e, r)),
    λ s. absurd (elim (Seen-first stat rounds i s) [ inl a ↦ cc (a, e) | inr a ↦ cc (a, e) ]),
  )
]

open_table-exists :
    (k : Kernel) (t : ShmTable) (shm id : ℕ)
    → k.shmget ≡ some shm
    → k.shmat ≡ true
    → k.semget_new ≡ exists
    → k.semget_old ≡ some id
    → open_table k t
      ≡ (is_ready (wait_ready k.stat 100 0), record { sem_id = some id; attached = true })
unfolding open_table
open_table-exists k t shm id a b c d = ground arith

-- With the segment attached, a process that finds the semaphore set made by another one opens the
-- table exactly if the creator's first operation shows within the 100 looks, before any look fails;
-- in either case it holds both the rows and the semaphore.
pub open_table_waits :
    (k : Kernel) (t : ShmTable) (shm id : ℕ)
    → k.shmget ≡ some shm
    → k.shmat ≡ true
    → k.semget_new ≡ exists
    → k.semget_old ≡ some id
    → (((open_table k t).0 ≡ true) ↔ Seen k.stat 100 0)
      × ((open_table k t).1 ≡ record { sem_id = some id; attached = true })
open_table_waits k t shm id a b c d =
    let (to, from) = wait_ready-Seen k.stat 100 0 in
    rw (open_table-exists k t shm id a b c d)
      ((λ r. to (ready _ r), λ s. ap is_ready (from s)), refl)
  where
    ready : (r : Option Bool) → is_ready r ≡ true → r ≡ some true
    ready none e = cc
    ready (some r) e = ap some e
