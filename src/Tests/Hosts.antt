-- ===== src/Tests/Hosts.antt =====
-- The gateway at requests and acknowledgements for terminal 1003.
use fleetcore.Prelude.{◌≡◌, ◌≢◌, refl, some, none, [], ◌∷◌, ◌++◌, drop}
use fleetcore.Bytes.{Bytes, Endian, little}
use fleetcore.Gateway.{Gateway, Sockets}
use fleetcore.Gateway.Downlink.{all_forwarded, on_idle_forwards, on_idle_drops}
use fleetcore.Gateway as Gate
use fleetcore.Proto.{zero_header}
use fleetcore.StreamBuffer.{empty, next}
use fleetcore.StreamBuffer.Framing.{buffer}
use fleetcore.TcpServer.{bytes, took, drop_client}
use fleetcore.Tests.{Queues, keeping, request, request-IsLockRequest, connected}
use fleetcore.Wire.{wire_ok, unpack_header}
use fleetcore.Wire.Layout.{lock_request_wire}

abbrev pub gateway : Gateway Queues
gateway = record { tcp = connected; rx = buffer (b'F' ∷ []); queues = []; sent = [] }

-- The rest of a request, of which the first byte came before, and then another.
abbrev chunk : Bytes
chunk = drop 1 (lock_request_wire request ++ (lock_request_wire request ++ (b'F' ∷ [])))

abbrev sockets : Bytes → Sockets
sockets chunk = record { accept = none; recv = bytes chunk; sends = took 20 ∷ took 20 ∷ [] }

one_byte_waits : next (buffer (b'F' ∷ [])) ≡ none
unfolding next
one_byte_waits = refl

on_idle_forwards_example :
    Gate.on_idle little keeping (sockets chunk) gateway
    ≡ some (record gateway {
      rx = buffer (b'F' ∷ []);
      queues = all_forwarded little keeping (request ∷ request ∷ []) [];
    })
on_idle_forwards_example =
    on_idle_forwards little keeping (sockets chunk) (request ∷ request ∷ []) (b'F' ∷ []) b'C'
      (drop 1 chunk) 4 gateway refl refl refl (request-IsLockRequest, (request-IsLockRequest, tt))
      one_byte_waits refl

-- The bytes of something else.
abbrev garbage : Bytes
garbage = 71 ∷ 69 ∷ 84 ∷ 32 ∷ 47 ∷ 32 ∷ drop 6 (lock_request_wire request)

garbage_out : next (buffer garbage) ≡ some (garbage, 24)
unfolding next fleetcore.Bytes.load_be16
garbage_out = refl

garbage_refused : (unpack_header little garbage 24 zero_header).0 ≢ wire_ok
unfolding unpack_header fleetcore.Wire.check_header fleetcore.Wire.read_header
garbage_refused = λ e. cc

abbrev then_garbage : Bytes
then_garbage = drop 1 (lock_request_wire request ++ garbage)

on_idle_drops_example :
    Gate.on_idle little keeping (sockets then_garbage) gateway
    ≡ some (record gateway {
      tcp = drop_client connected;
      rx = empty;
      queues = all_forwarded little keeping (request ∷ []) [];
    })
on_idle_drops_example =
    on_idle_drops little keeping (sockets then_garbage) (request ∷ []) garbage garbage 24 b'C'
      (drop 1 then_garbage) 4 gateway refl refl refl (request-IsLockRequest, tt) refl garbage_out
      garbage_refused
