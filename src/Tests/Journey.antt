-- ===== src/Tests/Journey.antt =====
-- What gateway meets when the rest of a request for terminal 1003 comes.
use fleetcore.Prelude.{none, [], ◌∷◌, drop}
use fleetcore.Gateway.{Sockets}
use fleetcore.TcpServer.{bytes, took}
use fleetcore.Tests.{request}
use fleetcore.Wire.Layout.{lock_request_wire}

-- The request but for its first byte, which is in the buffer.
abbrev pub last_bytes : Sockets
last_bytes = record {
  accept = none;
  recv = bytes (drop 1 (lock_request_wire request));
  sends = took 20 ∷ took 20 ∷ [];
}

-- The whole request.
abbrev pub whole_bytes : Sockets
whole_bytes = record last_bytes { recv = bytes (lock_request_wire request) }
