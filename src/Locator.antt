-- ===== src/Locator.antt =====
-- locator/main.cpp. A `char` that is no digit fails the test whether `char` is signed or not, so the
-- four characters are bytes. The index is an int32_t, kept as its bit pattern.
pub mod Resolve
pub mod Zero
pub mod Route
pub mod Main
use fleetcore.Prelude.{
  ℕ, zero, suc, ◌+◌, ◌-◌, ◌*◌, ◌%◌, ◌^◌, Bool, true, false, not, ◌||◌, Option, none, some, List, [],
  ◌∷◌, ◌==◌, ltb, if◌then◌else◌, length, ◌>>=◌,
}
use fleetcore.Bytes.{Bytes, Endian}
use fleetcore.IpcMessage.{
  IpcLockRequest, ipc_lock_request_object, ipc_lock_request_of, ipc_lock_request, idx_termd_base,
  sizeof_ipc_lock_request,
}
use fleetcore.Process.{Severity, message, Handlers, register_handler, Ipc, send_to}
use fleetcore.Proto.{TermNo, term_no_bytes}
use fleetcore.ShmTable.{ShmTable, Sem, find}
use fleetcore.ShmTable.Open.{Kernel, open_table}
use fleetcore.ShmTable.Rows.{Table, TermEntry}

pub record Locator (K : Type 0) : Type 0 where
  pub table : ShmTable
  pub rows : Table
  pub queues : K

-- The loop of `resolve` over the characters, from the number `n` read so far; `none` is the early
-- `return 0`.
unfoldable pub parse_digits : Bytes → ℕ → Option ℕ
parse_digits [] n = some n
parse_digits (c ∷ cs) n =
    if ltb c b'0' || ltb b'9' c then none else parse_digits cs ((n * 10 + (c - b'0')) % 2 ^ 32)

-- `IDX_TERMD_BASE + static_cast<int32_t>(n - 1000)`.
unfoldable pub termd_index : ℕ → ℕ
termd_index n = (idx_termd_base + (n + 2 ^ 32 - 1000) % 2 ^ 32) % 2 ^ 32

unfoldable pub found_index : ℕ → Option TermEntry → ℕ
unfolding termd_index
found_index n none = 0
found_index n (some row) = termd_index n

-- The part of `resolve` behind its loop.
unfoldable pub resolve_number : ShmTable → Sem → Table → Option ℕ → Option ℕ
resolve_number t sem rows none = some 0
resolve_number t sem rows (some n) = do found ← find t sem n rows; some (found_index n found)

unfoldable pub resolve : ShmTable → Sem → Table → TermNo → Option ℕ
unfolding parse_digits resolve_number
resolve t sem rows term_no = resolve_number t sem rows (parse_digits (term_no_bytes term_no) 0)

module _ {K : Type 0} (e : Endian) (ipc : Ipc K) where
  unfoldable pub on_lock_request : Sem → Bytes → Locator K → Option (Severity × Locator K)
  unfolding resolve
  on_lock_request sem msg l =
      let m = ipc_lock_request_of e msg in
      let forward = (do
        idx ← resolve l.table sem l.rows m.msg.term_no
        (if idx == 0
            then some (message, l)
            else (let out = record m { ipc = record (m.ipc) { dest_index = idx } } in
                some (
                  message,
                  record l {
                    queues = (send_to ipc idx (ipc_lock_request_object e out) l.queues).1;
                  },
                )))) in
      if not (length msg == sizeof_ipc_lock_request) then some (message, l) else forward

  unfoldable pub handlers : Handlers Sem (Locator K)
  handlers = register_handler ipc_lock_request on_lock_request []

-- `on_init`.
unfoldable pub on_init : {K : Type 0} → Kernel → Locator K → Bool × Locator K
on_init k l = let (ok, t) = open_table k l.table in (ok, record l { table = t })
