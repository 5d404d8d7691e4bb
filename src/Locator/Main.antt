-- ===== src/Locator/Main.antt =====
-- locator/main.cpp, `main`: the process from its start to its end.
use fleetcore.Prelude.{
  ℕ, ◌≡◌, inl, inr, refl, Bool, false, Option, none, some, List, ◌==◌, length, if◌then◌else◌,
  Bool-cases, ◌>>=◌,
}
use fleetcore.Bytes.{Endian}
use fleetcore.IpcMessage.{idx_locator, ipc_lock_request_of}
use fleetcore.Locator.{Locator, resolve, on_lock_request, on_init, handlers}
use fleetcore.Process.{Ipc, Event, Ending, register_handler, message}
use fleetcore.Process.Kept.{Keeps, HandlerKeeps}
use fleetcore.Process.Life.{
  Process, construct, init, init_then_run, Lives, InitKeeps, init_then_run-Lives,
}
use fleetcore.ShmTable.{Sem}
use fleetcore.ShmTable.Open.{Kernel, open_table}
use fleetcore.ShmTable.Rows.{Table}

abbrev pub constructed : {K : Type 0} → Table → K → Locator K
constructed rows k = record {
  table = record { sem_id = none; attached = false };
  rows = rows;
  queues = k;
}

module _ {K : Type 0} (e : Endian) (ipc : Ipc K) where
  -- `on_init` on the whole process: the handler is registered when the table is open.
  unfoldable pub initialise :
      Kernel → Process Sem (Locator K) → Option (Bool × Process Sem (Locator K))
  unfolding on_init
  initialise kernel p =
      let (ok, l) = on_init kernel p.running.inner in
      some (
        ok,
        record p {
          handlers = if ok then handlers e ipc else p.handlers;
          running = record (p.running) { inner = l };
        },
      )

  -- `main`, with what msgget answers, the calls of `open`, what the loop meets, the rows as they are
  -- found, and the queues. locator has no `on_idle` of its own.
  unfoldable pub main :
      Option ℕ → Kernel → List (Event Sem) → Table → K → Ending × Process Sem (Locator K)
  unfolding init init_then_run construct initialise
  main made kernel events rows k =
      init_then_run (λ sem l. some l) events
        (init made (initialise kernel) (construct idx_locator (constructed rows k)))

  resolved-Keeps :
      (rows : Table) (l : Locator K) (o : Option ℕ) (f : ℕ → K)
      → l.rows ≡ rows
      → Keeps
          (λ (l' : Locator K). l'.rows ≡ rows)
          (do
            idx ← o
            (if idx == 0 then some (message, l) else some (message, record l { queues = f idx })))
  resolved-Keeps rows l none f v = tt
  resolved-Keeps rows l (some idx) f v = elim (Bool-cases (idx == 0)) [
    | inl zero_index ↦ rw zero_index v
    | inr other ↦ rw other v
  ]

  on_lock_request-keeps :
      (rows : Table) → HandlerKeeps (λ (l : Locator K). l.rows ≡ rows) (on_lock_request e ipc)
  unfolding on_lock_request
  on_lock_request-keeps rows sem msg l v = elim (Bool-cases (length msg == 32)) [
    | inr size ↦ rw size v
    | inl fits ↦ rw fits (
        resolved-Keeps rows l (resolve l.table sem l.rows (ipc_lock_request_of e msg).msg.term_no) _
          v)
  ]

  initialise-keeps :
      (kernel : Kernel) (rows : Table) (p : Process Sem (Locator K))
      → p.running.inner.rows ≡ rows
      → InitKeeps (λ (l : Locator K). l.rows ≡ rows) p (initialise kernel p)
  unfolding initialise on_init handlers register_handler
  initialise-keeps kernel rows p v = elim (Bool-cases (open_table kernel p.running.inner.table).0) [
    | inl ok ↦ rw ok (refl, v, (on_lock_request-keeps rows, tt))
    | inr fails ↦ rw fails (refl, v)
  ]

  -- locator, from its start, whatever msgget, the kernel and its queue answer: it ends with 0 only
  -- where a flag is up, with 1, or not at all; it changes no row of the table; and its destructor
  -- removes the queue that it made, and nothing if it made none.
  pub main_keeps_rows :
      (made : Option ℕ) (kernel : Kernel) (events : List (Event Sem)) (rows : Table) (k : K)
      → Lives (λ (l : Locator K). l.rows ≡ rows) made (main made kernel events rows k)
  unfolding main
  main_keeps_rows made kernel events rows k =
      init_then_run-Lives (λ (l : Locator K). l.rows ≡ rows) (λ sem l. some l) events (λ sem l v. v)
        made (initialise kernel) idx_locator (constructed rows k) refl
        (initialise-keeps kernel rows)
