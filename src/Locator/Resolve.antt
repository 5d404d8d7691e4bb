-- ===== src/Locator/Resolve.antt =====
-- Where locator/main.cpp sends a lock request.
use fleetcore.Prelude.{
  ℕ, ◌+◌, ◌-◌, ◌*◌, ◌≤◌, ◌<◌, ◌≡◌, ◌≢◌, ◌⊎◌, inl, inr, refl, sym, ap, ◌∙◌, Option, none, some,
  arith, length, ==_ne, ◌>>=◌,
}
use fleetcore.Bytes.{Bytes, Endian}
use fleetcore.IpcMessage.{IpcLockRequest, ipc_lock_request_object, ipc_lock_request_of}
use fleetcore.Locator.{
  Locator, parse_digits, termd_index, found_index, resolve_number, resolve, on_lock_request,
}
use fleetcore.Process.{message, Ipc, send_to}
use fleetcore.Proto.{TermNo, term_no_bytes}
use fleetcore.ShmTable.{ShmTable, Sem, done, find}
use fleetcore.ShmTable.Locking.{IsOpen, answers, find_locked}
use fleetcore.ShmTable.Rows.{Table, TermEntry, find_row}

abbrev pub IsDigit : ℕ → Type 0
IsDigit c = (b'0' ≤ c) × (c ≤ b'9')

pub record IsDigits (t : TermNo) : Type 0 where
  pub first : IsDigit t.c0
  pub second : IsDigit t.c1
  pub third : IsDigit t.c2
  pub fourth : IsDigit t.c3

-- The number that four digits write.
abbrev pub number : TermNo → ℕ
number t = (((t.c0 - b'0') * 10 + (t.c1 - b'0')) * 10 + (t.c2 - b'0')) * 10 + (t.c3 - b'0')

parse_digits-number : (t : TermNo) → IsDigits t → parse_digits (term_no_bytes t) 0 ≡ some (number t)
unfolding parse_digits
parse_digits-number t d = ground arith

parse_digits_inv :
    (t : TermNo) (n : ℕ) → parse_digits (term_no_bytes t) 0 ≡ some n → IsDigits t × (n ≡ number t)
unfolding parse_digits
parse_digits_inv t n e = ground arith

-- A registered terminal is resolved, whatever its state, to the index of its termd.
pub resolve_registered :
    (t : ShmTable) (id n m : ℕ) (rows : Table) (term : TermNo) (row : TermEntry)
    → IsOpen t id
    → IsDigits term
    → find_row (number term) rows ≡ some row
    → resolve t (answers n done m) rows term ≡ some (termd_index (number term))
unfolding resolve resolve_number found_index
resolve_registered t id n m rows term row opened d found =
    rw (parse_digits-number term d, resolve)
      (rw (find_locked t id n m (number term) rows opened) (rw (found, found_index)))

-- A terminal that is not registered, or no number at all, is resolved to 0.
pub resolve_unknown :
    (t : ShmTable) (id n m : ℕ) (rows : Table) (term : TermNo)
    → IsOpen t id
    → (parse_digits (term_no_bytes term) 0 ≡ none)
      ⊎ (IsDigits term × (find_row (number term) rows ≡ none))
    → resolve t (answers n done m) rows term ≡ some 0
unfolding resolve resolve_number found_index
resolve_unknown t id n m rows term opened (inl bad) = rw (bad, resolve)
resolve_unknown t id n m rows term opened (inr (d, absent)) =
    rw (parse_digits-number term d, resolve)
      (rw (find_locked t id n m (number term) rows opened) (rw (absent, found_index)))

pub number-lt : (t : TermNo) → IsDigits t → number t < 10000
number-lt t d = omega arith

termd_index-number : (n : ℕ) → n < 10000 → 1000 ≤ n → termd_index n ≡ 2000 + n
unfolding termd_index
termd_index-number n h l = omega arith

termd_index-injective : (n m : ℕ) → n < 10000 → m < 10000 → termd_index n ≡ termd_index m → n ≡ m
unfolding termd_index
termd_index-injective n m h k e = omega arith

TermNo-ext : (t u : TermNo) → t.c0 ≡ u.c0 → t.c1 ≡ u.c1 → t.c2 ≡ u.c2 → t.c3 ≡ u.c3 → t ≡ u
TermNo-ext t u a b c d = λ i. record { c0 = a i; c1 = b i; c2 = c i; c3 = d i }

number-injective : (t u : TermNo) → IsDigits t → IsDigits u → number t ≡ number u → t ≡ u
number-injective t u d f e = TermNo-ext t u (omega arith) (omega arith) (omega arith) (omega arith)

some_inv : (a b : ℕ) → some a ≡ some b → a ≡ b
some_inv a b e = ground arith

found_inv :
    (n i : ℕ) (found : Option (Option TermEntry))
    → (do row ← found; some (found_index n row)) ≡ some i
    → i ≢ 0
    → i ≡ termd_index n
unfolding found_index
found_inv n i none e nz = cc
found_inv n i (some none) e nz = absurd (nz (sym (some_inv 0 i e)))
found_inv n i (some (some row)) e nz = sym (some_inv _ _ e)

pub resolve_inv :
    (t : ShmTable) (s : Sem) (rows : Table) (term : TermNo) (i : ℕ)
    → resolve t s rows term ≡ some i
    → i ≢ 0
    → IsDigits term × (i ≡ termd_index (number term))
unfolding resolve
resolve_inv t s rows term i e nz = go (parse_digits (term_no_bytes term) 0) refl e
  where
    go :
        (o : Option ℕ)
        → parse_digits (term_no_bytes term) 0 ≡ o
        → resolve_number t s rows o ≡ some i
        → IsDigits term × (i ≡ termd_index (number term))
    go none read e = absurd (nz (sym (some_inv 0 i (unfold resolve_number in e))))
    go (some n) read e =
        let (d, same) = parse_digits_inv term n read in
        (d, found_inv n i (find t s n rows) (unfold resolve_number in e) nz ∙ ap termd_index same)

-- Two terminal numbers that are resolved to the same index other than 0, with whatever rows in the
-- table and whatever the semaphore answers, are the same four characters.
pub resolve-injective :
    (t u : ShmTable) (s s' : Sem) (rows rows' : Table) (a b : TermNo) (i : ℕ)
    → resolve t s rows a ≡ some i
    → resolve u s' rows' b ≡ some i
    → i ≢ 0
    → a ≡ b
resolve-injective t u s s' rows rows' a b i ea eb nz =
    let (da, ia) = resolve_inv t s rows a i ea nz in
    let (db, ib) = resolve_inv u s' rows' b i eb nz in
    number-injective a b da db
      (termd_index-injective (number a) (number b) (number-lt a da) (number-lt b db) (sym ia ∙ ib))

module _ {K : Type 0} (e : Endian) (ipc : Ipc K) where
  -- The message with the index that locator fills in.
  abbrev pub routed : IpcLockRequest → ℕ → IpcLockRequest
  routed m idx = record m { ipc = record { code = m.ipc.code; dest_index = idx } }

  pub on_lock_request_resolved :
      (s : Sem) (msg : Bytes) (m : IpcLockRequest) (l : Locator K) (idx : ℕ)
      → ipc_lock_request_of e msg ≡ m
      → length msg ≡ 32
      → resolve l.table s l.rows m.msg.term_no ≡ some idx
      → idx ≢ 0
      → on_lock_request e ipc s msg l
        ≡ some (
          message,
          record l {
            queues = (send_to ipc idx (ipc_lock_request_object e (routed m idx)) l.queues).1;
          },
        )
  unfolding on_lock_request
  on_lock_request_resolved s msg m l idx read long found nz =
      simp (read, long, found) (simp (==_ne idx 0 nz))

  pub on_lock_request_unresolved :
      (s : Sem) (msg : Bytes) (m : IpcLockRequest) (l : Locator K)
      → ipc_lock_request_of e msg ≡ m
      → length msg ≡ 32
      → resolve l.table s l.rows m.msg.term_no ≡ some 0
      → on_lock_request e ipc s msg l ≡ some (message, l)
  unfolding on_lock_request
  on_lock_request_unresolved s msg m l read long found = simp (read, long, found)
