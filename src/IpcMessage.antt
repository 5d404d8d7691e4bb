-- ===== src/IpcMessage.antt =====
-- common/ipc_message.h: the messages between the processes of one host. The compiler puts three bytes
-- of padding behind `code`, which the value initialisation of each message leaves zero. An int32_t is
-- kept as its bit pattern.
use fleetcore.Prelude.{ℕ, ◌^◌, ◌<◌, ◌≡◌, refl, [], ◌∷◌, ◌++◌, arith, take, drop, length}
use fleetcore.Bytes.{Bytes, Endian, little, big, object, word, byte_at}
use fleetcore.Proto.{
  Header, IsHeader, LockRequest, LockResponse, header_object, header_of, lock_request_object,
  lock_request_of, lock_response_object, lock_response_of,
}

abbrev pub idx_gateway : ℕ
idx_gateway = 1000

abbrev pub idx_locator : ℕ
idx_locator = 2000

abbrev pub idx_termd_base : ℕ
idx_termd_base = 3000

abbrev pub gateway_port : ℕ
gateway_port = 9100

abbrev pub term_port_base : ℕ
term_port_base = 9200

abbrev pub ipc_lock_request : ℕ
ipc_lock_request = 0x01

abbrev pub ipc_lock_response : ℕ
ipc_lock_response = 0x02

pub record IpcHeader : Type 0 where
  pub code : ℕ
  pub dest_index : ℕ

pub record IpcLockRequest : Type 0 where
  pub ipc : IpcHeader
  pub msg : LockRequest

pub record IpcLockResponse : Type 0 where
  pub ipc : IpcHeader
  pub msg : LockResponse

abbrev pub sizeof_ipc_lock_request : ℕ
sizeof_ipc_lock_request = 32

abbrev pub sizeof_ipc_lock_response : ℕ
sizeof_ipc_lock_response = 36

abbrev pub ipc_header_object : Endian → IpcHeader → Bytes
ipc_header_object e h = h.code ∷ 0 ∷ 0 ∷ 0 ∷ object e 4 h.dest_index

abbrev pub ipc_lock_request_object : Endian → IpcLockRequest → Bytes
ipc_lock_request_object e m = ipc_header_object e m.ipc ++ lock_request_object e m.msg

abbrev pub ipc_lock_response_object : Endian → IpcLockResponse → Bytes
ipc_lock_response_object e m = ipc_header_object e m.ipc ++ lock_response_object e m.msg

abbrev pub ipc_header_of : Endian → Bytes → IpcHeader
ipc_header_of e bs = record { code = byte_at bs 0; dest_index = word e (take 4 (drop 4 bs)) }

unfoldable pub ipc_lock_request_of : Endian → Bytes → IpcLockRequest
ipc_lock_request_of e bs = record { ipc = ipc_header_of e bs; msg = lock_request_of e (drop 8 bs) }

unfoldable pub ipc_lock_response_of : Endian → Bytes → IpcLockResponse
ipc_lock_response_of e bs = record {
  ipc = ipc_header_of e bs;
  msg = lock_response_of e (drop 8 bs);
}

-- A word that fits survives the host's memory.
word2 : (e : Endian) (v : ℕ) → v < 2 ^ 16 → word e (object e 2 v) ≡ v
word2 little v h = omega arith
word2 big v h = omega arith

word4 : (e : Endian) (v : ℕ) → v < 2 ^ 32 → word e (object e 4 v) ≡ v
word4 little v h = omega arith
word4 big v h = omega arith

word8 : (e : Endian) (v : ℕ) → v < 2 ^ 64 → word e (object e 8 v) ≡ v
word8 little v h = omega arith
word8 big v h = omega arith

header_of-object :
    (e : Endian) (h : Header) (rest : Bytes)
    → IsHeader h
    → header_of e (header_object e h ++ rest) ≡ h
header_of-object little h rest v = λ i. record {
  magic_0 = h.magic_0;
  magic_1 = h.magic_1;
  version = h.version;
  code = h.code;
  len = word2 little h.len v.len_word i;
  seq = word2 little h.seq v.seq_word i;
  timestamp = word8 little h.timestamp v.timestamp_word i;
  reserved = word4 little h.reserved v.reserved_word i;
}
header_of-object big h rest v = λ i. record {
  magic_0 = h.magic_0;
  magic_1 = h.magic_1;
  version = h.version;
  code = h.code;
  len = word2 big h.len v.len_word i;
  seq = word2 big h.seq v.seq_word i;
  timestamp = word8 big h.timestamp v.timestamp_word i;
  reserved = word4 big h.reserved v.reserved_word i;
}

-- A message that is put into a queue on one host is taken out of it unchanged.
pub ipc_lock_request_of-object :
    (e : Endian) (m : IpcLockRequest)
    → IsHeader m.msg.header
    → m.ipc.dest_index < 2 ^ 32
    → (ipc_lock_request_of e (ipc_lock_request_object e m) ≡ m)
      × (length (ipc_lock_request_object e m) ≡ 32)
unfolding ipc_lock_request_of
ipc_lock_request_of-object little m v d = (
  λ i. record {
    ipc = record { code = m.ipc.code; dest_index = word4 little m.ipc.dest_index d i };
    msg = record { header = header_of-object little m.msg.header [] v i; term_no = m.msg.term_no };
  },
  refl,
)
ipc_lock_request_of-object big m v d = (
  λ i. record {
    ipc = record { code = m.ipc.code; dest_index = word4 big m.ipc.dest_index d i };
    msg = record { header = header_of-object big m.msg.header [] v i; term_no = m.msg.term_no };
  },
  refl,
)

pub ipc_lock_response_of-object :
    (e : Endian) (m : IpcLockResponse)
    → IsHeader m.msg.header
    → m.ipc.dest_index < 2 ^ 32
    → (ipc_lock_response_of e (ipc_lock_response_object e m) ≡ m)
      × (length (ipc_lock_response_object e m) ≡ 36)
unfolding ipc_lock_response_of
ipc_lock_response_of-object little m v d = (
  λ i. record {
    ipc = record { code = m.ipc.code; dest_index = word4 little m.ipc.dest_index d i };
    msg = record {
      header = header_of-object little m.msg.header [] v i;
      term_no = m.msg.term_no;
      outcome = m.msg.outcome;
      reserved = m.msg.reserved;
    };
  },
  refl,
)
ipc_lock_response_of-object big m v d = (
  λ i. record {
    ipc = record { code = m.ipc.code; dest_index = word4 big m.ipc.dest_index d i };
    msg = record {
      header = header_of-object big m.msg.header [] v i;
      term_no = m.msg.term_no;
      outcome = m.msg.outcome;
      reserved = m.msg.reserved;
    };
  },
  refl,
)
