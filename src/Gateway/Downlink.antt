-- ===== src/Gateway/Downlink.antt =====
-- What gateway/main.cpp does with the bytes of the maintenance terminal.
use fleetcore.Prelude.{
  ℕ, zero, suc, ◌≤◌, ◌<◌, ◌≡◌, ◌≢◌, refl, ap, ◌∙◌, none, some, List, [], ◌∷◌, ◌++◌, append_assoc,
  map, arith, length,
}
use fleetcore.Bytes.{Bytes, Endian}
use fleetcore.Gateway.{Gateway, Sockets, handle_from_maint, serve, on_idle}
use fleetcore.Gateway.Handling.{forwarded, handle_request, handle_bad}
use fleetcore.Process.{message, stream, Ipc}
use fleetcore.Proto.{LockRequest, zero_header}
use fleetcore.StreamBuffer.{StreamBuffer, empty, append, next, consume, reset, pending}
use fleetcore.StreamBuffer.Messages.{lock_request_wire-Frame}
use fleetcore.StreamBuffer.Progress.{next-cases}
use fleetcore.StreamBuffer.Framing.{joined, buffer, next-Frame, consume-append}
use fleetcore.TcpServer.{bytes, drop_client}
use fleetcore.TcpServer.Poll.{poll_accept-none, poll_read-bytes}
use fleetcore.Wire.{wire_ok, unpack_header}
use fleetcore.Wire.Layout.{lock_request_wire}
use fleetcore.Wire.RoundTrip.{IsLockRequest}

abbrev pub all_forwarded : {K : Type 0} → Endian → Ipc K → List LockRequest → K → K
all_forwarded e ipc [] k = k
all_forwarded e ipc (m ∷ ms) k = all_forwarded e ipc ms (forwarded e ipc m k)

abbrev pub AreLockRequests : List LockRequest → Type 0
AreLockRequests [] = Unit {0}
AreLockRequests (m ∷ ms) = IsLockRequest m × AreLockRequests ms

length-joined :
    (ms : List LockRequest) (tail : Bytes)
    → length ms ≤ length (joined (map lock_request_wire ms) ++ tail)
length-joined [] tail = omega arith
length-joined (m ∷ ms) tail = omega (
  arith,
  length-joined ms tail,
  ap (length {0}) (append_assoc (lock_request_wire m) (joined (map lock_request_wire ms)) tail),
)

length-joined_lt :
    (ms : List LockRequest) (bad out : Bytes) (len : ℕ)
    → next (buffer bad) ≡ some (out, len)
    → length ms < length (joined (map lock_request_wire ms) ++ bad)
length-joined_lt [] bad out len n = omega (arith, next-cases (buffer bad) out len n)
length-joined_lt (m ∷ ms) bad out len n = omega (
  arith,
  length-joined_lt ms bad out len n,
  ap (length {0}) (append_assoc (lock_request_wire m) (joined (map lock_request_wire ms)) bad),
)

module _ {K : Type 0} (e : Endian) (ipc : Ipc K) where
  serve-message :
      (fuel len : ℕ) (out : Bytes) (k : K) (g : Gateway K)
      → next g.rx ≡ some (out, len)
      → handle_from_maint e ipc out len g.queues ≡ (message, k)
      → serve e ipc (suc fuel) g ≡ serve e ipc fuel (record g { rx = consume len g.rx; queues = k })
  unfolding serve
  serve-message fuel len out k g n h = rw (n, serve) (rw (h, h))

  serve-stream :
      (fuel len : ℕ) (out : Bytes) (k : K) (g : Gateway K)
      → next g.rx ≡ some (out, len)
      → handle_from_maint e ipc out len g.queues ≡ (stream, k)
      → serve e ipc (suc fuel) g ≡ record g { tcp = drop_client g.tcp; rx = empty; queues = k }
  unfolding serve reset
  serve-stream fuel len out k g n h = rw (n, serve) (rw (h, h))

  serve-request :
      (fuel : ℕ) (m : LockRequest) (rest : Bytes) (g : Gateway K)
      → IsLockRequest m
      → serve e ipc (suc fuel) (record g { rx = buffer (lock_request_wire m ++ rest) })
        ≡ serve e ipc fuel (record g { rx = buffer rest; queues = forwarded e ipc m g.queues })
  serve-request fuel m rest g v =
      serve-message fuel (length (lock_request_wire m)) (lock_request_wire m ++ rest)
        (forwarded e ipc m g.queues) (record g { rx = buffer (lock_request_wire m ++ rest) })
        (next-Frame (lock_request_wire m) rest (lock_request_wire-Frame m v))
        (handle_request e ipc m rest (length (lock_request_wire m)) g.queues v (omega arith))
      ∙ ap
          (λ (b : StreamBuffer).
            serve e ipc fuel (record g { rx = b; queues = forwarded e ipc m g.queues }))
          (consume-append (lock_request_wire m) rest)

  serve-requests :
      (fuel : ℕ) (ms : List LockRequest) (tail : Bytes) (g : Gateway K)
      → AreLockRequests ms
      → next (buffer tail) ≡ none
      → length ms ≤ fuel
      → serve e ipc fuel (record g { rx = buffer (joined (map lock_request_wire ms) ++ tail) })
        ≡ record g { rx = buffer tail; queues = all_forwarded e ipc ms g.queues }
  unfolding serve
  serve-requests zero [] tail g vs n h = refl
  serve-requests (suc fuel) [] tail g vs n h = rw (n, serve)
  serve-requests zero (m ∷ ms) tail g vs n h = absurd (omega arith)
  serve-requests (suc fuel) (m ∷ ms) tail g (v, vs) n h =
      ap (λ (b : Bytes). serve e ipc (suc fuel) (record g { rx = buffer b }))
        (append_assoc (lock_request_wire m) (joined (map lock_request_wire ms)) tail)
      ∙ serve-request fuel m (joined (map lock_request_wire ms) ++ tail) g v
      ∙ serve-requests fuel ms tail
          (record g { rx = buffer tail; queues = forwarded e ipc m g.queues }) vs n (omega arith)

  -- What a round does with bytes that have come, when nobody new connects.
  on_idle-chunk :
      (env : Sockets) (b : ℕ) (chunk : Bytes) (fd : ℕ) (g : Gateway K)
      → g.tcp.client_fd ≡ some fd
      → env.accept ≡ none
      → env.recv ≡ bytes (b ∷ chunk)
      → on_idle e ipc env g
        ≡ some (
            serve e ipc
              (length (g.rx.bytes ++ (b ∷ chunk)))
              (record g { rx = buffer (g.rx.bytes ++ (b ∷ chunk)) }))
  unfolding on_idle append pending
  on_idle-chunk env b chunk fd g connected quiet got =
      simp (quiet, poll_accept-none g.tcp, got, poll_read-bytes b chunk g.tcp fd connected)

  -- If what has arrived on the connection, in a round without a new connection, is some lock
  -- requests that meet the contract followed by less than a message, each of them is forwarded to
  -- locator, once and in order, and the rest is kept; the connection stays as it is.
  pub on_idle_forwards :
      (env : Sockets) (ms : List LockRequest) (tail : Bytes) (b : ℕ) (chunk : Bytes) (fd : ℕ)
      (g : Gateway K)
      → g.tcp.client_fd ≡ some fd
      → env.accept ≡ none
      → env.recv ≡ bytes (b ∷ chunk)
      → AreLockRequests ms
      → next (buffer tail) ≡ none
      → g.rx.bytes ++ (b ∷ chunk) ≡ joined (map lock_request_wire ms) ++ tail
      → on_idle e ipc env g
        ≡ some (record g { rx = buffer tail; queues = all_forwarded e ipc ms g.queues })
  on_idle_forwards env ms tail b chunk fd g connected quiet got vs n split =
      on_idle-chunk env b chunk fd g connected quiet got
      ∙ ap (λ (bs : Bytes). some (serve e ipc (length bs) (record g { rx = buffer bs }))) split
      ∙ ap some (serve-requests _ ms tail g vs n (length-joined ms tail))

  serve-broken :
      (fuel : ℕ) (ms : List LockRequest) (bad out : Bytes) (len : ℕ) (g : Gateway K)
      → AreLockRequests ms
      → next (buffer bad) ≡ some (out, len)
      → (unpack_header e out len zero_header).0 ≢ wire_ok
      → length ms < fuel
      → serve e ipc fuel (record g { rx = buffer (joined (map lock_request_wire ms) ++ bad) })
        ≡ record g { tcp = drop_client g.tcp; rx = empty; queues = all_forwarded e ipc ms g.queues }
  serve-broken zero ms bad out len g vs n b h = elim h [ ]
  serve-broken (suc fuel) [] bad out len g vs n b h =
      serve-stream fuel len out g.queues (record g { rx = buffer bad }) n
        (handle_bad e ipc out len g.queues b)
  serve-broken (suc fuel) (m ∷ ms) bad out len g (v, vs) n b h =
      ap (λ (bs : Bytes). serve e ipc (suc fuel) (record g { rx = buffer bs }))
        (append_assoc (lock_request_wire m) (joined (map lock_request_wire ms)) bad)
      ∙ serve-request fuel m (joined (map lock_request_wire ms) ++ bad) g v
      ∙ serve-broken fuel ms bad out len
          (record g { rx = buffer bad; queues = forwarded e ipc m g.queues }) vs n b (omega arith)

  -- If what has arrived on the connection, in a round without a new connection, is some lock
  -- requests that meet the contract followed by bytes of which `next` hands out something that
  -- unpack_header refuses, then the requests are forwarded, nothing behind them is, and the round
  -- drops the connection and empties the buffer.
  pub on_idle_drops :
      (env : Sockets) (ms : List LockRequest) (bad out : Bytes) (len b : ℕ) (chunk : Bytes) (fd : ℕ)
      (g : Gateway K)
      → g.tcp.client_fd ≡ some fd
      → env.accept ≡ none
      → env.recv ≡ bytes (b ∷ chunk)
      → AreLockRequests ms
      → g.rx.bytes ++ (b ∷ chunk) ≡ joined (map lock_request_wire ms) ++ bad
      → next (buffer bad) ≡ some (out, len)
      → (unpack_header e out len zero_header).0 ≢ wire_ok
      → on_idle e ipc env g
        ≡ some (record g {
          tcp = drop_client g.tcp;
          rx = empty;
          queues = all_forwarded e ipc ms g.queues;
        })
  on_idle_drops env ms bad out len b chunk fd g connected quiet got vs split n refused =
      on_idle-chunk env b chunk fd g connected quiet got
      ∙ ap (λ (bs : Bytes). some (serve e ipc (length bs) (record g { rx = buffer bs }))) split
      ∙ ap some (serve-broken _ ms bad out len g vs n refused (length-joined_lt ms bad out len n))
