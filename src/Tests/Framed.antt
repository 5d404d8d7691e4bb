-- ===== src/Tests/Framed.antt =====
-- A stream that comes in pieces.
use fleetcore.Prelude.{◌≡◌, refl, none, List, [], ◌∷◌, ◌++◌, arith, take, drop}
use fleetcore.Bytes.{Bytes, load_be16}
use fleetcore.StreamBuffer.{empty, next, feed}
use fleetcore.StreamBuffer.Framing.{Frame, buffer, feed-Frames}
use fleetcore.Tests.{request, response}
use fleetcore.Wire.Layout.{lock_request_wire, lock_response_wire}

abbrev whole : Bytes
whole = lock_request_wire request ++ (lock_response_wire response ++ (b'F' ∷ b'C' ∷ []))

-- The same 54 bytes in three pieces, none of which ends where a message ends.
abbrev pieces : List Bytes
pieces = take 3 whole ∷ take 30 (drop 3 whole) ∷ drop 33 whole ∷ []

request-Frame : Frame (lock_request_wire request)
unfolding load_be16
request-Frame = record { field = refl; least = omega arith; most = omega arith }

response-Frame : Frame (lock_response_wire response)
unfolding load_be16
response-Frame = record { field = refl; least = omega arith; most = omega arith }

waits : next (buffer (b'F' ∷ b'C' ∷ [])) ≡ none
unfolding next
waits = refl

feed-Frames_example :
    feed pieces empty
    ≡ (lock_request_wire request ∷ lock_response_wire response ∷ [], buffer (b'F' ∷ b'C' ∷ []))
feed-Frames_example =
    feed-Frames pieces (lock_request_wire request ∷ lock_response_wire response ∷ [])
      (b'F' ∷ b'C' ∷ []) (request-Frame, (response-Frame, tt)) waits refl

-- A header with a length field of 5.
abbrev broken_stream : Bytes
broken_stream = b'F' ∷ b'C' ∷ 1 ∷ 16 ∷ 0 ∷ 5 ∷ drop 6 (lock_request_wire request)
