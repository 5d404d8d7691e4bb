-- ===== src/Process/Life.antt =====
-- A process from its construction to its end: the object of common/process.h, `Process::init` of
-- common/process.cpp, and the `main` that gateway, locator and termd share.
use fleetcore.Prelude.{ℕ, ◌≡◌, inr, refl, ◌∙◌, Bool, true, false, Option, none, some, List, []}
use fleetcore.MsgQueue.{MsgQueue, closed, open_queue, removes}
use fleetcore.Process.{Handlers, Running, Event, Ending, exits, stuck, run}
use fleetcore.Process.Kept.{HandlersKeep, KeepsIdle, run_keeps}
use fleetcore.Process.Run.{Ends, run-Ends}

-- The members; what a subclass adds is the `inner` state of `running`.
pub record Process (E S : Type 0) : Type 0 where
  pub index : ℕ
  pub self_queue : MsgQueue
  pub handlers : Handlers E S
  pub running : Running S

module _ {E S : Type 0} where
  unfoldable pub construct : ℕ → S → Process E S
  construct index s = record {
    index = index;
    self_queue = closed;
    handlers = [];
    running = record { job_end = false; system_end = false; inner = s };
  }

  -- What `init` hands on of `on_init`.
  unfoldable pub after_on_init :
      Process E S → Option (Bool × Process E S) → Option Bool × Process E S
  after_on_init p none = (none, p)
  after_on_init p (some (ok, p')) = (some ok, p')

  -- `init` with what msgget answers. `none` is an `on_init` that does not return.
  unfoldable pub init :
      Option ℕ
      → (Process E S → Option (Bool × Process E S))
      → Process E S
      → Option Bool × Process E S
  unfolding open_queue after_on_init
  init made on_init p =
      let (ok, q) = open_queue made true p.self_queue in
      let p' = record p { self_queue = q } in
      elim ok [ true ↦ after_on_init p' (on_init p') | false ↦ (some false, p') ]

  -- `if (!p.init()) return 1; return p.run();`
  unfoldable pub init_then_run :
      (E → S → Option S) → List (Event E) → Option Bool × Process E S → Ending × Process E S
  init_then_run on_idle events (none, p) = (stuck, p)
  init_then_run on_idle events (some false, p) = (exits 1, p)
  init_then_run on_idle events (some true, p) =
      let (ending, r) = run p.handlers on_idle events p.running in
      (ending, record p { running = r })

  -- What `on_init` owes: it leaves the queue alone and keeps a property of the state, and where it
  -- succeeds the handlers that it has registered keep it too.
  abbrev pub InitKeeps : (S → Type 0) → Process E S → Option (Bool × Process E S) → Type 0
  InitKeeps P p none = Unit {0}
  InitKeeps P p (some (false, p')) = (p'.self_queue ≡ p.self_queue) × P p'.running.inner
  InitKeeps P p (some (true, p')) =
      (p'.self_queue ≡ p.self_queue) × P p'.running.inner × HandlersKeep P p'.handlers

  -- How a process ends that was made with what msgget answered: with 0 for a flag, with 1, or not at
  -- all; the property holds, and the queue that its destructor removes is the one that msgget answered
  -- with, whether that call made it or it was there before.
  abbrev pub Lives : (S → Type 0) → Option ℕ → Ending × Process E S → Type 0
  Lives P made (ending, p) =
      Ends (ending, p.running) × P p.running.inner × (removes p.self_queue ≡ made)

  module _ (P : S → Type 0) (on_idle : E → S → Option S) (events : List (Event E))
      (idle : (env : E) (s : S) → P s → KeepsIdle P (on_idle env s)) where
    after_on_init-Lives :
        (id : ℕ) (p : Process E S) (o : Option (Bool × Process E S))
        → p.self_queue ≡ record { id = some id; owner = true }
        → P p.running.inner
        → InitKeeps P p o
        → Lives P (some id) (init_then_run on_idle events (after_on_init p o))
    unfolding after_on_init init_then_run removes
    after_on_init-Lives id p none made k h = (tt, k, ap_removes made)
      where
        ap_removes :
            p.self_queue ≡ record { id = some id; owner = true } → removes p.self_queue ≡ some id
        ap_removes e = rw e
    after_on_init-Lives id p (some (false, p')) made k (same, kept) =
        (inr refl, kept, rw (same ∙ made))
    after_on_init-Lives id p (some (true, p')) made k (same, kept, handlers) = (
      run-Ends p'.handlers on_idle events p'.running,
      run_keeps p'.handlers on_idle P events p'.running handlers idle kept,
      rw (same ∙ made),
    )

    pub init_then_run-Lives :
        (made : Option ℕ) (on_init : Process E S → Option (Bool × Process E S)) (index : ℕ) (s : S)
        → P s
        → ((p : Process E S) → P p.running.inner → InitKeeps P p (on_init p))
        → Lives P made (init_then_run on_idle events (init made on_init (construct index s)))
    unfolding init construct init_then_run open_queue removes
    init_then_run-Lives none on_init index s k keeps = (inr refl, k, refl)
    init_then_run-Lives (some id) on_init index s k keeps =
        let p = record (construct index s) { self_queue = record { id = some id; owner = true } } in
        after_on_init-Lives id p (on_init p) refl k (keeps p k)
