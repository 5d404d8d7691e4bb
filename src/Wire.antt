-- ===== src/Wire.antt =====
-- common/wire.h and common/wire.cpp: pack, unpack and make. An out parameter is an argument and
-- part of the result, and so is a buffer that is written; `buf` holds at least `cap` or `len` bytes.
-- The wall clock that `make_lock_request` reads is its argument `now`.
pub mod Layout
pub mod Decode
pub mod RoundTrip
use fleetcore.Prelude.{ℕ, ◌^◌, ◌%◌, Bool, true, false, not, ◌||◌, ltb, ◌==◌, if◌then◌else◌, drop}
use fleetcore.Bytes.{
  Bytes, Endian, at_offset, memcpy, load_be16, load_be32, load_be64, store_be16, store_be32,
  store_be64,
}
use fleetcore.Proto.{
  Header, TermNo, LockRequest, LockResponse, magic0, magic1, proto_version, max_message_len,
  code_lock_request, code_lock_response, sizeof_header, sizeof_lock_request, sizeof_lock_response,
  zero_header, zero_pad, header_object, lock_request_object, lock_response_object, header_of,
  lock_request_of, lock_response_of,
}

pub data WireError : Type 0 where
  wire_ok too_short bad_magic unsupported_version bad_length length_mismatch unknown_code :
      WireError

-- `e != WireError::Ok`
abbrev pub is_ok : WireError → Bool
is_ok wire_ok = true
is_ok _ = false

-- The four stores that follow the memcpy in each pack function.
unfoldable pub store_fields : Header → Bytes → Bytes
store_fields h buf = at_offset 16 (store_be32 h.reserved) (
    at_offset 8 (store_be64 h.timestamp)
      (at_offset 6 (store_be16 h.seq) (at_offset 4 (store_be16 h.len) buf)))

unfoldable pub pack_header : Endian → Header → Bytes → ℕ → ℕ × Bytes
unfolding store_fields
pack_header e h buf cap =
    if ltb cap sizeof_header
    then (0, buf)
    else (sizeof_header, store_fields h (memcpy (header_object e h) buf))

-- The struct as `unpack_header` fills it, before its checks.
unfoldable pub read_header : Endian → Bytes → Header
read_header e buf = record (header_of e buf) {
  len = load_be16 (drop 4 buf);
  seq = load_be16 (drop 6 buf);
  timestamp = load_be64 (drop 8 buf);
  reserved = load_be32 (drop 16 buf);
}

unfoldable pub check_header : Header → WireError
check_header h =
    if not (h.magic_0 == magic0) || not (h.magic_1 == magic1)
    then bad_magic
    else if ltb proto_version h.version
    then unsupported_version
    else if ltb h.len sizeof_header || ltb max_message_len h.len
    then bad_length
    else wire_ok

unfoldable pub unpack_header : Endian → Bytes → ℕ → Header → WireError × Header
unpack_header e buf len out =
    if ltb len sizeof_header
    then (too_short, out)
    else (check_header (read_header e buf), read_header e buf)

unfoldable pub pack_lock_request : Endian → LockRequest → Bytes → ℕ → ℕ × Bytes
unfolding store_fields
pack_lock_request e m buf cap =
    if ltb cap sizeof_lock_request
    then (0, buf)
    else (sizeof_lock_request, store_fields m.header (memcpy (lock_request_object e m) buf))

unfoldable pub unpack_lock_request : Endian → Bytes → ℕ → LockRequest → WireError × LockRequest
unpack_lock_request e buf len out =
    let (err, h) = unpack_header e buf len zero_header in
    if not (is_ok err)
    then (err, out)
    else if not (h.code == code_lock_request)
    then (unknown_code, out)
    else if not (h.len == sizeof_lock_request)
    then (length_mismatch, out)
    else if ltb len sizeof_lock_request
    then (too_short, out)
    else (wire_ok, record (lock_request_of e buf) { header = h })

unfoldable pub make_lock_request : ℕ → TermNo → ℕ → LockRequest
make_lock_request now term_no seq = record {
  header = record {
    magic_0 = magic0;
    magic_1 = magic1;
    version = proto_version;
    code = code_lock_request;
    len = sizeof_lock_request;
    seq = seq;
    timestamp = now % 2 ^ 64;
    reserved = 0;
  };
  term_no = term_no;
}

unfoldable pub pack_lock_response : Endian → LockResponse → Bytes → ℕ → ℕ × Bytes
unfolding store_fields
pack_lock_response e m buf cap =
    if ltb cap sizeof_lock_response
    then (0, buf)
    else (sizeof_lock_response, store_fields m.header (memcpy (lock_response_object e m) buf))

unfoldable pub unpack_lock_response : Endian → Bytes → ℕ → LockResponse → WireError × LockResponse
unpack_lock_response e buf len out =
    let (err, h) = unpack_header e buf len zero_header in
    if not (is_ok err)
    then (err, out)
    else if not (h.code == code_lock_response)
    then (unknown_code, out)
    else if not (h.len == sizeof_lock_response)
    then (length_mismatch, out)
    else if ltb len sizeof_lock_response
    then (too_short, out)
    else (wire_ok, record (lock_response_of e buf) { header = h })

unfoldable pub make_lock_response : ℕ → TermNo → ℕ → ℕ → LockResponse
make_lock_response now term_no seq result = record {
  header = record {
    magic_0 = magic0;
    magic_1 = magic1;
    version = proto_version;
    code = code_lock_response;
    len = sizeof_lock_response;
    seq = seq;
    timestamp = now % 2 ^ 64;
    reserved = 0;
  };
  term_no = term_no;
  outcome = result;
  reserved = zero_pad;
}
