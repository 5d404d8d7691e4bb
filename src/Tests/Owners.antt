-- ===== src/Tests/Owners.antt =====
-- A queue that is made, moved and removed.
use fleetcore.Prelude.{ℕ, ◌≡◌, ◌≢◌, ◌⊎◌, refl, false, true, some, arith}
use fleetcore.MsgQueue.{removes}
use fleetcore.MsgQueue.Owners.{
  Holder, opens, moves, assigns, destroys, act, Acts, nothing_done, then_done,
}
use fleetcore.MsgQueue.Removed.{nobody, removed_once}

-- Object 1 makes queue 9, object 2 is constructed from it, is assigned to object 1, and object 1 ends.
abbrev after_all : Holder
after_all =
    act (destroys 1) (act (assigns 1 2) (act (moves 2 1) (act (opens 1 (some 9) true) nobody)))

moved_about : Acts nobody after_all
unfolding act removes
moved_about =
    then_done (destroys 1)
      (then_done (assigns 1 2)
        (then_done (moves 2 1) (then_done (opens 1 (some 9) true) nothing_done (refl, refl))
          ((λ e. omega (arith, e)), refl))
        tt)
      tt

removed_once_example :
    ((after_all.made 9 ≡ false)
      × (after_all.removals 9 ≡ 0)
      × ((j : ℕ) → removes (after_all.object j) ≢ some 9))
    ⊎ ((after_all.made 9 ≡ true)
        × (after_all.removals 9 ≡ 1)
        × ((j : ℕ) → removes (after_all.object j) ≢ some 9))
    ⊎ ((after_all.made 9 ≡ true)
        × (after_all.removals 9 ≡ 0)
        × ((i : ℕ) × (removes (after_all.object i) ≡ some 9)
            × ((j : ℕ) → (j ≡ i) ⊎ (removes (after_all.object j) ≢ some 9))))
removed_once_example = removed_once 9 moved_about

-- It has been removed.
removed_nine : after_all.removals 9 ≡ 1
unfolding act removes
removed_nine = refl
