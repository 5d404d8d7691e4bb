-- ===== src/MsgQueue/Owners.antt =====
-- The `MsgQueue` objects of one process, through any calls of `open`, moves and destructors: which of
-- the queues that the process has made it removes.
use fleetcore.Prelude.{
  ℕ, ◌+◌, ◌≤◌, ◌≡◌, ◌≢◌, ◌⊎◌, Bool, true, false, Option, none, some, ◌==◌, if◌then◌else◌,
}
use fleetcore.MsgQueue.{MsgQueue, closed, open_queue, removes, move, move_assign}

-- The objects by a number that each has, where one that is not there is as a closed one; the queues
-- that the process has made; and how often it has removed each.
pub record Holder : Type 0 where
  pub object : ℕ → MsgQueue
  pub made : ℕ → Bool
  pub removals : ℕ → ℕ

abbrev pub at {ℓ} : {A : Type ℓ} → (ℕ → A) → ℕ → A → ℕ → A
at f i a n = if n == i then a else f n

-- `moves i j` is the construction of the object `i` from the object `j`.
pub data Act : Type 0 where
  opens : ℕ → Option ℕ → Bool → Act
  moves assigns : ℕ → ℕ → Act
  destroys : ℕ → Act

-- One removal more of a queue, if there is one to remove.
abbrev pub remove_queue : Option ℕ → (ℕ → ℕ) → ℕ → ℕ
remove_queue none removals = removals
remove_queue (some id) removals = at removals id (removals id + 1)

abbrev pub make_queue : Option ℕ → Bool → (ℕ → Bool) → ℕ → Bool
make_queue (some id) true made = at made id true
make_queue _ _ made = made

unfoldable pub act : Act → Holder → Holder
unfolding open_queue removes move move_assign
act (opens i answer create) h = record h {
  object = at h.object i (open_queue answer create (h.object i)).1;
  made = make_queue answer create h.made;
}
act (moves i j) h =
    let (new, old) = move (h.object j) in record h { object = at (at h.object i new) j old }
act (assigns i j) h =
    let (self, other, gone) = move_assign (h.object i) (h.object j) in
    if i == j then h else record h {
      object = at (at h.object i self) j other;
      removals = remove_queue gone h.removals;
    }
act (destroys i) h = record h {
  object = at h.object i closed;
  removals = remove_queue (removes (h.object i)) h.removals;
}

-- An object is opened only while it owns no queue, and a queue that is made is a new one; an object
-- is constructed where there is none that owns a queue.
abbrev pub Proper : Act → Holder → Type 0
Proper (opens i none create) h = removes (h.object i) ≡ none
Proper (opens i (some id) false) h = removes (h.object i) ≡ none
Proper (opens i (some id) true) h = (removes (h.object i) ≡ none) × (h.made id ≡ false)
Proper (moves i j) h = (i ≢ j) × (removes (h.object i) ≡ none)
Proper (assigns i j) h = Unit {0}
Proper (destroys i) h = Unit {0}

pub data Acts (h : Holder) : Holder → Type 0 where
  nothing_done : Acts h h
  then_done : {g : Holder} (a : Act) → Acts h g → Proper a g → Acts h (act a g)

-- A queue that the process has made is owned by one object, or it has been removed once.
pub record Once (h : Holder) : Type 0 where
  pub one : (i j id : ℕ) → removes (h.object i) ≡ some id → removes (h.object j) ≡ some id → i ≡ j
  pub owned : (i id : ℕ) → removes (h.object i) ≡ some id → (h.made id ≡ true) × (h.removals id ≡ 0)
  pub at_most : (id : ℕ) → h.removals id ≤ 1
  pub unmade : (id : ℕ) → h.made id ≡ false → h.removals id ≡ 0
  pub kept :
      (id : ℕ)
      → h.made id ≡ true
      → (h.removals id ≡ 1) ⊎ ((i : ℕ) × (removes (h.object i) ≡ some id))
