-- ===== src/TcpServer.antt =====
-- common/tcp_server.h and common/tcp_server.cpp. The answers of the socket calls are arguments. The
-- descriptors that a call closes are part of its result, and so are the bytes that the kernel took.
pub mod Send
pub mod Poll
use fleetcore.Prelude.{
  ℕ, zero, suc, ◌+◌, ◌-◌, Bool, true, false, not, Option, none, some, List, [], ◌∷◌, ◌++◌, ltb, leb,
  ◌==◌, if◌then◌else◌, length, take, drop, ◌>>=◌,
}
use fleetcore.Bytes.{Bytes}

pub record TcpServer : Type 0 where
  pub listen_fd : Option ℕ
  pub client_fd : Option ℕ

abbrev pub unconnected : TcpServer
unconnected = record { listen_fd = none; client_fd = none }

-- The answers to the calls of `listen`, in order; that of bind for each port it may be asked for. For
-- port 0 the kernel chooses a free port itself.
pub record ListenCalls : Type 0 where
  pub socket : Option ℕ
  pub bind_ok : ℕ → Bool
  pub listen_ok : Bool
  pub nonblocking_ok : Bool

unfoldable pub listen : ℕ → ListenCalls → TcpServer → Bool × TcpServer
listen port calls t = elim calls.socket [
  | none ↦ (false, record t { listen_fd = none })
  | some fd ↦ (
    if not (calls.bind_ok port)
        then false
        else if not calls.listen_ok
        then false
        else if not calls.nonblocking_ok
        then false
        else true,
    record t { listen_fd = some fd },
  )
]

-- `poll_accept` with what accept answers: the result, and the descriptor that is closed.
unfoldable pub poll_accept : Option ℕ → TcpServer → Bool × TcpServer × Option ℕ
poll_accept answer t = elim t.listen_fd [
  | none ↦ (false, t, none)
  | some l ↦ elim answer [
    | none ↦ (false, t, none)
    | some fd ↦ (true, record t { client_fd = some fd }, t.client_fd)
  ]
]

unfoldable pub drop_client : TcpServer → TcpServer
drop_client t = record t { client_fd = none }

-- The descriptors that the destructor closes, in order.
unfoldable pub closes : TcpServer → List ℕ
closes t =
    elim t.client_fd [ none ↦ [] | some fd ↦ fd ∷ [] ]
    ++ elim t.listen_fd [ none ↦ [] | some fd ↦ fd ∷ [] ]

unfoldable pub has_client : TcpServer → Bool
has_client t = elim t.client_fd [ none ↦ false | some fd ↦ true ]

-- What recv answers; `bytes []` is an orderly shutdown by the peer.
pub data RecvAnswer : Type 0 where
  bytes : Bytes → RecvAnswer
  would_block interrupted broken : RecvAnswer

-- The result of `poll_read`: what was read, 0, or -1.
pub data Read : Type 0 where
  got : Bytes → Read
  nothing : Read
  gone : Read

unfoldable pub poll_read_from : RecvAnswer → TcpServer → Read × TcpServer
unfolding drop_client
poll_read_from (bytes []) t = (gone, drop_client t)
poll_read_from (bytes (b ∷ bs)) t = (got (b ∷ bs), t)
poll_read_from would_block t = (nothing, t)
poll_read_from interrupted t = (nothing, t)
poll_read_from broken t = (gone, drop_client t)

unfoldable pub poll_read : RecvAnswer → TcpServer → Read × TcpServer
unfolding poll_read_from
poll_read answer t = elim t.client_fd [ none ↦ (nothing, t) | some fd ↦ poll_read_from answer t ]

-- What the socket call send answers.
pub data SendAnswer : Type 0 where
  took : ℕ → SendAnswer
  eintr again failed : SendAnswer

-- The loop of `send` with the bytes that are still to be sent: the result, the server, and the bytes
-- that the kernel took. `none` means that the loop still runs after the last answer.
unfoldable pub send_loop : List SendAnswer → Bytes → TcpServer → Option (Bool × TcpServer × Bytes)
unfolding drop_client
send_loop answers [] t = some (true, t, [])
send_loop [] (b ∷ rest) t = none
send_loop (took n ∷ answers) (b ∷ rest) t =
    let later = send_loop answers (drop n (b ∷ rest)) t in
    if ltb 0 n
    then (do (ok, t', out) ← later; some (ok, t', take n (b ∷ rest) ++ out))
    else some (false, drop_client t, [])
send_loop (eintr ∷ answers) (b ∷ rest) t = send_loop answers (b ∷ rest) t
send_loop (again ∷ answers) (b ∷ rest) t = send_loop answers (b ∷ rest) t
send_loop (failed ∷ answers) (b ∷ rest) t = some (false, drop_client t, [])

unfoldable pub send : List SendAnswer → Bytes → TcpServer → Option (Bool × TcpServer × Bytes)
unfolding send_loop
send answers msg t = elim t.client_fd [
  | none ↦ some (false, t, [])
  | some fd ↦ send_loop answers msg t
]
