-- ===== src/Tests/Sockets.antt =====
-- A connection, and a queue, as the kernel answers.
use fleetcore.Prelude.{◌*◌, ℕ, ◌+◌, ◌≤◌, ◌<◌, ◌≡◌, refl, true, false, some, [], ◌∷◌, arith}
use fleetcore.MsgQueue.{MsgQueue, enomsg, eintr, timeout, recv_timeout}
use fleetcore.MsgQueue.Receive.{recv_timeout-Quiet}
use fleetcore.TcpServer.{took, failed, drop_client, send}
use fleetcore.TcpServer.Send.{Outcome, send-Outcome}
use fleetcore.Tests.{connected}

-- The connection breaks after two of the three bytes.
half_sent :
    send (took 2 ∷ failed ∷ []) (1 ∷ 2 ∷ 3 ∷ []) connected
    ≡ some (false, drop_client connected, 1 ∷ 2 ∷ [])
unfolding send
half_sent = refl

send-Outcome_example : Outcome connected (1 ∷ 2 ∷ 3 ∷ []) (false, drop_client connected, 1 ∷ 2 ∷ [])
send-Outcome_example =
    send-Outcome (took 2 ∷ failed ∷ []) (1 ∷ 2 ∷ 3 ∷ []) connected (drop_client connected) 4 false
      (1 ∷ 2 ∷ []) refl half_sent

abbrev queue : MsgQueue
queue = record { id = some 9; owner = true }

recv_timeout-Quiet_example :
    (sleeps : ℕ) × (recv_timeout queue 1024 80 (enomsg ∷ eintr ∷ enomsg ∷ enomsg ∷ [])
      ≡ some (timeout, 50 * sleeps))
    × (80 ≤ 50 * sleeps)
    × (50 * sleeps < 80 + 50)
recv_timeout-Quiet_example =
    recv_timeout-Quiet queue 9 1024 80 (enomsg ∷ eintr ∷ enomsg ∷ enomsg ∷ []) refl tt (omega arith)
      (omega arith)
