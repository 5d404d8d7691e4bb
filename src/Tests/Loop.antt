-- ===== src/Tests/Loop.antt =====
-- The loop of a process that counts its idle rounds.
use fleetcore.Prelude.{refl, List, arith, ℕ, suc, ◌≡◌, Bool, true, Option, some, [], ◌∷◌}
use fleetcore.Bytes.{Bytes}
use fleetcore.Process.{message, Handlers, register_handler}
use fleetcore.MsgQueue.{MsgQueue}
use fleetcore.Process.Stream.{drain_queue, dispatch_all, waiting_polls, drain_queue_waiting}

-- Its handler of code 1 leaves the count alone.
abbrev counting : Handlers Bool ℕ
counting = register_handler 1 (λ env msg s. some (message, s)) []

abbrev idle : Bool → ℕ → Option ℕ
idle env s = some (suc s)

abbrev short_message : Bytes
short_message = 1 ∷ 2 ∷ []

abbrev ready_queue : MsgQueue
ready_queue = record { id = some 9; owner = true }

abbrev two_messages : List Bytes
two_messages = (1 ∷ 0 ∷ 0 ∷ 0 ∷ 0 ∷ 0 ∷ 0 ∷ 0 ∷ []) ∷ short_message ∷ []

drain_queue_waiting_example :
    drain_queue counting ready_queue (waiting_polls true two_messages) 3
    ≡ dispatch_all counting true two_messages 3
drain_queue_waiting_example =
    drain_queue_waiting counting ready_queue 9 true two_messages 3 refl
      (omega arith, (omega arith, tt))
