-- ===== src/Termd/Main.antt =====
-- termd/main.cpp, `main`: the process of one terminal from its start to its end.
use fleetcore.Prelude.{
  ℕ, ◌<◌, ◌≡◌, inl, inr, refl, Bool, true, false, Option, none, some, List, [], Bool-cases, ◌>>=◌,
}
use fleetcore.Bytes.{Bytes, Endian}
use fleetcore.Process.{Ipc, Event, Ending, exits, register_handler}
use fleetcore.Process.Life.{
  Process, construct, init, init_then_run, Lives, InitKeeps, init_then_run-Lives,
}
use fleetcore.ShmTable.{Sem, register_terminal}
use fleetcore.ShmTable.Locking.{KeepsTable, register_terminal-KeepsTable}
use fleetcore.ShmTable.Whole.{IsTable}
use fleetcore.ShmTable.Open.{Kernel, open_table}
use fleetcore.ShmTable.Rows.{Table}
use fleetcore.StreamBuffer.{empty, pending, reset}
use fleetcore.StreamBuffer.Progress.{next-none-lt, next-reset}
use fleetcore.TcpServer.{ListenCalls, listen, unconnected}
use fleetcore.Termd.{port, Termd, Env, slot_argument, index, term_no, on_idle, on_init, handlers}
use fleetcore.Termd.Kept.{Tidy, on_lock_request-Tidy, on_idle-Tidy}

abbrev pub constructed : {K : Type 0} → ℕ → Table → K → Termd K
constructed slot rows k = record {
  tcp = unconnected;
  rx = empty;
  slot = slot;
  table = record { sem_id = none; attached = false };
  rows = rows;
  queues = k;
  sent = [];
}

module _ {K : Type 0} (e : Endian) (ipc : Ipc K) (scratch : Bytes) where
  -- What `on_init` leaves, on the whole process.
  unfoldable pub initialised :
      Process Env (Termd K) → Option (Bool × Termd K) → Option (Bool × Process Env (Termd K))
  initialised p o = do
    (ok, d) ← o
    some (
      ok,
      record p { handlers = handlers e ipc scratch; running = record (p.running) { inner = d } },
    )

  unfoldable pub initialise :
      ListenCalls → Kernel → Sem → Process Env (Termd K) → Option (Bool × Process Env (Termd K))
  unfolding on_init initialised
  initialise calls kernel sem p = initialised p (on_init calls kernel sem p.running.inner)

  -- `main` behind the reading of its argument, with what msgget answers, the calls of `on_init`, what
  -- the loop meets, the rows as they are found, and the queues. The process is there if the argument
  -- is a slot.
  unfoldable pub serve_slot :
      Option ℕ
      → ListenCalls
      → Kernel
      → Sem
      → List (Event Env)
      → Table
      → K
      → Option ℕ
      → Ending × Option (Process Env (Termd K))
  unfolding init init_then_run construct initialise
  serve_slot made calls kernel sem events rows k none = (exits 1, none)
  serve_slot made calls kernel sem events rows k (some slot) =
      let (ending, p) = init_then_run (on_idle e) events (
        init made (initialise calls kernel sem)
          (construct (index slot) (constructed slot rows k))) in
      (ending, some p)

  unfoldable pub main :
      List Bytes
      → Option ℕ
      → ListenCalls
      → Kernel
      → Sem
      → List (Event Env)
      → Table
      → K
      → Ending × Option (Process Env (Termd K))
  unfolding serve_slot
  main args made calls kernel sem events rows k =
      serve_slot made calls kernel sem events rows k (slot_argument args)

  registered-keeps :
      (p : Process Env (Termd K)) (d : Termd K) (o : Option (Bool × Table))
      → Tidy d
      → KeepsTable o
      → InitKeeps Tidy p (initialised p (do (ok, rows) ← o; some (ok, record d { rows = rows })))
  unfolding initialised handlers register_handler
  registered-keeps p d none v t = tt
  registered-keeps p d (some (true, rows)) v t =
      (refl, (t, v.1), (on_lock_request-Tidy e ipc scratch, tt))
  registered-keeps p d (some (false, rows)) v t = (refl, (t, v.1))

  initialise-keeps :
      (calls : ListenCalls) (kernel : Kernel) (sem : Sem) (p : Process Env (Termd K))
      → Tidy p.running.inner
      → InitKeeps Tidy p (initialise calls kernel sem p)
  unfolding initialise on_init initialised
  initialise-keeps calls kernel sem p v =
      let d = p.running.inner in
      let (listening, t) = listen (port d.slot) calls d.tcp in
      let (opened, table) = open_table kernel d.table in
      elim (Bool-cases listening) [
        | inr deaf ↦ rw deaf (refl, v)
        | inl heard ↦ rw heard (elim (Bool-cases opened) [
          | inr shut ↦ rw shut (refl, v)
          | inl open_ok ↦ rw open_ok (
              registered-keeps p (record d { tcp = t; table = table })
                (register_terminal table sem (term_no d.slot) d.rows) v
                (register_terminal-KeepsTable table sem (term_no d.slot) d.rows v.0))
        ])
      ]

  -- How `main` ends, by the slot that its arguments give and what msgget answers.
  abbrev pub EndsWell : Option ℕ → Option ℕ → Ending × Option (Process Env (Termd K)) → Type 0
  EndsWell none made (ending, none) = ending ≡ exits 1
  EndsWell none made (ending, some p) = ⊥
  EndsWell (some slot) made (ending, none) = ⊥
  EndsWell (some slot) made (ending, some p) =
      Lives Tidy made (ending, p) × (pending p.running.inner.rx < 1024)

  serve_slot-EndsWell :
      (made : Option ℕ) (calls : ListenCalls) (kernel : Kernel) (sem : Sem)
      (events : List (Event Env)) (rows : Table) (k : K) (slot : Option ℕ)
      → IsTable rows
      → EndsWell slot made (serve_slot made calls kernel sem events rows k slot)
  unfolding serve_slot pending reset
  serve_slot-EndsWell made calls kernel sem events rows k none v = refl
  serve_slot-EndsWell made calls kernel sem events rows k (some slot) v =
      let lives =
        init_then_run-Lives Tidy (on_idle e) events (on_idle-Tidy e) made
          (initialise calls kernel sem) (index slot) (constructed slot rows k) (v, next-reset empty)
          (initialise-keeps calls kernel sem) in
      (lives, next-none-lt _ (lives.1.1))

  -- termd, from its start, whatever its arguments, msgget, its sockets, the semaphore and its queue
  -- are and answer, and if it finds the shared table with one row at most for each terminal number:
  -- without a slot it ends with 1 and makes nothing; otherwise it ends with 0 only where a flag is
  -- up, with 1, or not at all, the table still has one row at most for each terminal number, no
  -- message waits in its buffer, which holds less than MAX_MESSAGE_LEN bytes, and its destructor
  -- removes the queue that msgget answered with, also one that was there before, and nothing if
  -- msgget failed.
  pub main-EndsWell :
      (args : List Bytes) (made : Option ℕ) (calls : ListenCalls) (kernel : Kernel) (sem : Sem)
      (events : List (Event Env)) (rows : Table) (k : K)
      → IsTable rows
      → EndsWell (slot_argument args) made (main args made calls kernel sem events rows k)
  unfolding main
  main-EndsWell args made calls kernel sem events rows k v =
      serve_slot-EndsWell made calls kernel sem events rows k (slot_argument args) v
