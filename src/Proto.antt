-- ===== src/Proto.antt =====
-- common/proto.h: the constants and the wire structs, with the bytes that each struct is in memory.
-- The structs are packed.
use fleetcore.Prelude.{ℕ, ◌^◌, ◌<◌, [], ◌∷◌, ◌++◌, take, drop}
use fleetcore.Bytes.{Bytes, Endian, object, word, byte_at}

abbrev pub magic0 : ℕ
magic0 = b'F'

abbrev pub magic1 : ℕ
magic1 = b'C'

abbrev pub proto_version : ℕ
proto_version = 1

abbrev pub max_message_len : ℕ
max_message_len = 1024

abbrev pub code_lock_request : ℕ
code_lock_request = 0x10

abbrev pub code_lock_response : ℕ
code_lock_response = 0x20

abbrev pub result_ok : ℕ
result_ok = 0x00

abbrev pub result_unsupported : ℕ
result_unsupported = 0x01

abbrev pub result_busy : ℕ
result_busy = 0x02

pub record Header : Type 0 where
  pub magic_0 : ℕ
  pub magic_1 : ℕ
  pub version : ℕ
  pub code : ℕ
  pub len : ℕ
  pub seq : ℕ
  pub timestamp : ℕ
  pub reserved : ℕ

-- `char term_no[4]`
pub record TermNo : Type 0 where
  pub c0 : ℕ
  pub c1 : ℕ
  pub c2 : ℕ
  pub c3 : ℕ

-- `uint8_t reserved[3]`
pub record Pad : Type 0 where
  pub r0 : ℕ
  pub r1 : ℕ
  pub r2 : ℕ

pub record LockRequest : Type 0 where
  pub header : Header
  pub term_no : TermNo

pub record LockResponse : Type 0 where
  pub header : Header
  pub term_no : TermNo
  pub outcome : ℕ
  pub reserved : Pad

abbrev pub sizeof_header : ℕ
sizeof_header = 20

abbrev pub sizeof_lock_request : ℕ
sizeof_lock_request = 24

abbrev pub sizeof_lock_response : ℕ
sizeof_lock_response = 28

-- `Header h{}` and so on.
abbrev pub zero_header : Header
zero_header = record {
  magic_0 = 0;
  magic_1 = 0;
  version = 0;
  code = 0;
  len = 0;
  seq = 0;
  timestamp = 0;
  reserved = 0;
}

abbrev pub zero_term_no : TermNo
zero_term_no = record { c0 = 0; c1 = 0; c2 = 0; c3 = 0 }

abbrev pub zero_pad : Pad
zero_pad = record { r0 = 0; r1 = 0; r2 = 0 }

abbrev pub zero_lock_request : LockRequest
zero_lock_request = record { header = zero_header; term_no = zero_term_no }

abbrev pub zero_lock_response : LockResponse
zero_lock_response = record {
  header = zero_header;
  term_no = zero_term_no;
  outcome = 0;
  reserved = zero_pad;
}

-- The bytes of a struct in memory, on a host that keeps words in order `e`.
abbrev pub header_object : Endian → Header → Bytes
header_object e h =
    h.magic_0
    ∷ h.magic_1
    ∷ h.version
    ∷ h.code
    ∷ (object e 2 h.len ++ (object e 2 h.seq ++ (object e 8 h.timestamp ++ object e 4 h.reserved)))

abbrev pub term_no_bytes : TermNo → Bytes
term_no_bytes t = t.c0 ∷ t.c1 ∷ t.c2 ∷ t.c3 ∷ []

abbrev pub pad_bytes : Pad → Bytes
pad_bytes r = r.r0 ∷ r.r1 ∷ r.r2 ∷ []

abbrev pub lock_request_object : Endian → LockRequest → Bytes
lock_request_object e m = header_object e m.header ++ term_no_bytes m.term_no

abbrev pub lock_response_object : Endian → LockResponse → Bytes
lock_response_object e m =
    header_object e m.header ++ (term_no_bytes m.term_no ++ (m.outcome ∷ pad_bytes m.reserved))

-- The struct that such bytes are.
abbrev pub header_of : Endian → Bytes → Header
header_of e bs = record {
  magic_0 = byte_at bs 0;
  magic_1 = byte_at bs 1;
  version = byte_at bs 2;
  code = byte_at bs 3;
  len = word e (take 2 (drop 4 bs));
  seq = word e (take 2 (drop 6 bs));
  timestamp = word e (take 8 (drop 8 bs));
  reserved = word e (take 4 (drop 16 bs));
}

abbrev pub term_no_of : Bytes → TermNo
term_no_of bs = record {
  c0 = byte_at bs 20;
  c1 = byte_at bs 21;
  c2 = byte_at bs 22;
  c3 = byte_at bs 23;
}

abbrev pub pad_of : Bytes → Pad
pad_of bs = record { r0 = byte_at bs 25; r1 = byte_at bs 26; r2 = byte_at bs 27 }

abbrev pub lock_request_of : Endian → Bytes → LockRequest
lock_request_of e bs = record { header = header_of e bs; term_no = term_no_of bs }

abbrev pub lock_response_of : Endian → Bytes → LockResponse
lock_response_of e bs = record {
  header = header_of e bs;
  term_no = term_no_of bs;
  outcome = byte_at bs 24;
  reserved = pad_of bs;
}

-- Every field holds what its C type can hold.
pub record IsHeader (h : Header) : Type 0 where
  pub magic_0_byte : h.magic_0 < 256
  pub magic_1_byte : h.magic_1 < 256
  pub version_byte : h.version < 256
  pub code_byte : h.code < 256
  pub len_word : h.len < 2 ^ 16
  pub seq_word : h.seq < 2 ^ 16
  pub timestamp_word : h.timestamp < 2 ^ 64
  pub reserved_word : h.reserved < 2 ^ 32
