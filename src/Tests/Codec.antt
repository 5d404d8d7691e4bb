-- ===== src/Tests/Codec.antt =====
-- Packing and unpacking of one message.
use fleetcore.Prelude.{◌≡◌, arith, replicate}
use fleetcore.Bytes.{Bytes, little, big}
use fleetcore.Proto.{zero_lock_request}
use fleetcore.Tests.{request, request-IsLockRequest}
use fleetcore.Wire.{wire_ok, pack_lock_request, unpack_lock_request}
use fleetcore.Wire.RoundTrip.{unpack-pack_lock_request}

abbrev room : Bytes
room = replicate 32 9

unpack-pack_lock_request_example :
    unpack_lock_request big (pack_lock_request little request room 32).1 24 zero_lock_request
    ≡ (wire_ok, request)
unpack-pack_lock_request_example =
    unpack-pack_lock_request little big request zero_lock_request room 32 24 request-IsLockRequest
      (omega arith) (omega arith) (omega arith)
