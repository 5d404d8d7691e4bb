-- ===== src/HoldLock.antt =====
-- tools/hold_lock/main.cpp, which takes the semaphore of the table and keeps it. The arguments are a
-- list of which the first is the program's name; what is printed is left out.
use fleetcore.Prelude.{
  ℕ, zero, suc, Bool, true, false, not, ◌&&◌, Option, none, some, List, [], ◌∷◌, ◌==◌, ◌≡◌, refl,
  if◌then◌else◌,
}
use fleetcore.Bytes.{Bytes}
use fleetcore.Shared.{Op, hold_op}
use fleetcore.ShmTable.{SemOp, done, eintr, failed}
use fleetcore.ShmTable.Locking.{interrupted}

-- It returns from `main`, or goes on to the loop of `pause` with the semaphore taken as `op` says.
pub data Outcome : Type 0 where
  exits : ℕ → Outcome
  pauses : Op → Outcome

-- std::strcmp(a, b) == 0
abbrev strcmp_equal : Bytes → Bytes → Bool
strcmp_equal [] [] = true
strcmp_equal (a ∷ s) (b ∷ t) = (a == b) && strcmp_equal s t
strcmp_equal _ _ = false

abbrev pub no_undo : Bytes
no_undo = b'-' ∷ b'-' ∷ b'n' ∷ b'o' ∷ b'-' ∷ b'u' ∷ b'n' ∷ b'd' ∷ b'o' ∷ []

-- The loop around `semop`; `none` while the answers do not let it end.
unfoldable hold_loop : Op → List SemOp → Option Outcome
hold_loop op [] = none
hold_loop op (done ∷ ops) = some (pauses op)
hold_loop op (eintr ∷ ops) = hold_loop op ops
hold_loop op (failed ∷ ops) = some (exits 1)

-- What follows the reading of the arguments; `sem` is the answer of semget, `none` for -1.
unfoldable hold : Option ℕ → List SemOp → Op → Option Outcome
unfolding hold_loop
hold none ops op = some (exits 1)
hold (some id) ops op = hold_loop op ops

unfoldable pub main : List Bytes → Option ℕ → List SemOp → Option Outcome
unfolding hold
main (program ∷ arg ∷ args) sem ops =
    if not (strcmp_equal arg no_undo) then some (exits 1) else hold sem ops (hold_op false)
main _ sem ops = hold sem ops (hold_op true)

hold_interrupted :
    (op : Op) (n : ℕ) (last : SemOp) → hold_loop op (interrupted n last) ≡ hold_loop op (last ∷ [])
unfolding hold_loop
hold_interrupted op zero last = refl
hold_interrupted op (suc n) last = hold_interrupted op n last

-- However many signals interrupt it, hold_lock that gets the semaphore keeps it: with SEM_UNDO if it
-- has no argument, and without if its first one is --no-undo. If semop fails it ends with 1, and so
-- it does if there is no semaphore.
pub main_holds :
    (program : Bytes) (args : List Bytes) (id n : ℕ) (ops : List SemOp)
    → (main (program ∷ []) (some id) (interrupted n done) ≡ some (pauses (hold_op true)))
      × (main (program ∷ no_undo ∷ args) (some id) (interrupted n done)
          ≡ some (pauses (hold_op false)))
      × (main (program ∷ []) (some id) (interrupted n failed) ≡ some (exits 1))
      × (main (program ∷ no_undo ∷ args) (some id) (interrupted n failed) ≡ some (exits 1))
      × (main (program ∷ []) none ops ≡ some (exits 1))
      × (main (program ∷ no_undo ∷ args) none ops ≡ some (exits 1))
unfolding main hold
main_holds program args id n ops = (
  hold_interrupted (hold_op true) n done,
  hold_interrupted (hold_op false) n done,
  hold_interrupted (hold_op true) n failed,
  hold_interrupted (hold_op false) n failed,
  refl,
  refl,
)
