-- ===== src/StreamBuffer/Messages.antt =====
-- The messages of common/proto.h as whole messages of a stream.
use fleetcore.Prelude.{arith, ◌∙◌}
use fleetcore.Bytes.Order.{load_be16-be_bytes}
use fleetcore.Proto.{LockRequest, LockResponse}
use fleetcore.StreamBuffer.Framing.{Frame}
use fleetcore.Wire.Layout.{lock_request_wire, lock_response_wire}
use fleetcore.Wire.RoundTrip.{IsLockRequest, IsLockResponse}

pub lock_request_wire-Frame : (m : LockRequest) → IsLockRequest m → Frame (lock_request_wire m)
lock_request_wire-Frame m v = record {
  field = load_be16-be_bytes m.header.len _ v.fields.len_word ∙ v.len_is;
  least = omega arith;
  most = omega arith;
}

pub lock_response_wire-Frame : (m : LockResponse) → IsLockResponse m → Frame (lock_response_wire m)
lock_response_wire-Frame m v = record {
  field = load_be16-be_bytes m.header.len _ v.fields.len_word ∙ v.len_is;
  least = omega arith;
  most = omega arith;
}
