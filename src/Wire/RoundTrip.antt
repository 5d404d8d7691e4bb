-- ===== src/Wire/RoundTrip.antt =====
-- pack and unpack of the two messages, on the same host or between hosts of different order.
use fleetcore.Prelude.{
  zero, suc, ℕ, ◌^◌, ◌≤◌, ◌<◌, ◌≡◌, ◌≢◌, ◌↔◌, refl, sym, ap, ◌∙◌, [], ◌∷◌, ◌++◌, arith, drop,
  length,
}
use fleetcore.Bytes.{Bytes, AreBytes, Endian, byte_at}
use fleetcore.Proto.{
  Header, IsHeader, TermNo, LockRequest, LockResponse, zero_header, term_no_bytes, pad_bytes,
  term_no_of, pad_of,
}
use fleetcore.Wire.{
  wire_ok, too_short, unknown_code, length_mismatch, unpack_header, unpack_lock_request,
  unpack_lock_response, pack_lock_request, pack_lock_response, make_lock_request,
  make_lock_response,
}
use fleetcore.Wire.Decode.{Accepted, unpack_header_complete, unpack_header_sound}
use fleetcore.Wire.Layout.{
  header_wire, lock_request_wire, lock_response_wire, pack_lock_request-wire,
  pack_lock_response-wire,
}

-- A header of a lock request, and of a lock response, as the contract wants them.
pub record IsLockRequest (m : LockRequest) : Type 0 where
  pub fields : IsHeader m.header
  pub accepted : Accepted m.header
  pub code_is : m.header.code ≡ 0x10
  pub len_is : m.header.len ≡ 24

pub record IsLockResponse (m : LockResponse) : Type 0 where
  pub fields : IsHeader m.header
  pub accepted : Accepted m.header
  pub code_is : m.header.code ≡ 0x20
  pub len_is : m.header.len ≡ 28

-- A lock request that meets the contract is decoded from its wire form to itself.
pub unpack_lock_request_complete :
    (e : Endian) (m out : LockRequest) (rest : Bytes) (len : ℕ)
    → IsLockRequest m
    → 24 ≤ len
    → unpack_lock_request e (lock_request_wire m ++ rest) len out ≡ (wire_ok, m)
unfolding unpack_lock_request
unpack_lock_request_complete e m out rest len v room = ground (
  arith,
  unpack_header_complete e m.header zero_header (term_no_bytes m.term_no ++ rest) len v.fields
      v.accepted (omega arith),
)

pub unpack_lock_response_complete :
    (e : Endian) (m out : LockResponse) (rest : Bytes) (len : ℕ)
    → IsLockResponse m
    → 28 ≤ len
    → unpack_lock_response e (lock_response_wire m ++ rest) len out ≡ (wire_ok, m)
unfolding unpack_lock_response
unpack_lock_response_complete e m out rest len v room = ground (
  arith,
  unpack_header_complete e m.header zero_header
      (term_no_bytes m.term_no ++ (m.outcome ∷ (pad_bytes m.reserved ++ rest))) len v.fields
      v.accepted (omega arith),
)

drop-cons : (n : ℕ) (buf : Bytes) → n < length buf → drop n buf ≡ byte_at buf n ∷ drop (suc n) buf
drop-cons n [] h = elim h [ ]
drop-cons zero (b ∷ buf) h = refl
drop-cons (suc n) (b ∷ buf) h = drop-cons n buf (omega arith)

drop-term_no :
    (buf : Bytes) → 24 ≤ length buf → drop 20 buf ≡ term_no_bytes (term_no_of buf) ++ drop 24 buf
drop-term_no buf h = rw (
  drop-cons 20 buf (omega arith),
  drop-cons 21 buf (omega arith),
  drop-cons 22 buf (omega arith),
  drop-cons 23 buf (omega arith),
)

drop-response :
    (buf : Bytes)
    → 28 ≤ length buf
    → drop 24 buf ≡ byte_at buf 24 ∷ (pad_bytes (pad_of buf) ++ drop 28 buf)
drop-response buf h = rw (
  drop-cons 24 buf (omega arith),
  drop-cons 25 buf (omega arith),
  drop-cons 26 buf (omega arith),
  drop-cons 27 buf (omega arith),
)

unpack_lock_request_inv :
    (e : Endian) (buf : Bytes) (len : ℕ) (out m : LockRequest)
    → unpack_lock_request e buf len out ≡ (wire_ok, m)
    → (unpack_header e buf len zero_header ≡ (wire_ok, m.header))
      × (m.header.code ≡ 0x10)
      × (m.header.len ≡ 24)
      × (24 ≤ len)
      × (m.term_no ≡ term_no_of buf)
unfolding unpack_lock_request
unpack_lock_request_inv e buf len out m eq = ground arith

unpack_lock_response_inv :
    (e : Endian) (buf : Bytes) (len : ℕ) (out m : LockResponse)
    → unpack_lock_response e buf len out ≡ (wire_ok, m)
    → (unpack_header e buf len zero_header ≡ (wire_ok, m.header))
      × (m.header.code ≡ 0x20)
      × (m.header.len ≡ 28)
      × (28 ≤ len)
      × (m.term_no ≡ term_no_of buf)
      × (m.outcome ≡ byte_at buf 24)
      × (m.reserved ≡ pad_of buf)
unfolding unpack_lock_response
unpack_lock_response_inv e buf len out m eq = ground arith

-- What is decoded as a lock request, from a buffer with as many bytes as it is said to have, meets
-- the contract, and the buffer begins with its wire form.
pub unpack_lock_request_sound :
    (e : Endian) (buf : Bytes) (len : ℕ) (out m : LockRequest)
    → AreBytes buf
    → len ≤ length buf
    → unpack_lock_request e buf len out ≡ (wire_ok, m)
    → (24 ≤ len) × IsLockRequest m × (buf ≡ lock_request_wire m ++ drop 24 buf)
unpack_lock_request_sound e buf len out m bytes long eq =
    let (he, code, size, room, term) = unpack_lock_request_inv e buf len out m eq in
    let (_, fields, accepted, split) =
      unpack_header_sound e buf len zero_header m.header bytes long he in
    (
      room,
      record { fields = fields; accepted = accepted; code_is = code; len_is = size },
      split
          ∙ ap (◌++◌ (header_wire m.header)) (
              drop-term_no buf (omega arith)
              ∙ ap (λ (t : TermNo). term_no_bytes t ++ drop 24 buf) (sym term)),
    )

-- What is decoded as a lock response, from a buffer with as many bytes as it is said to have, meets the contract, and the buffer begins with its wire form,
-- the padding included.
pub unpack_lock_response_sound :
    (e : Endian) (buf : Bytes) (len : ℕ) (out m : LockResponse)
    → AreBytes buf
    → len ≤ length buf
    → unpack_lock_response e buf len out ≡ (wire_ok, m)
    → (28 ≤ len) × IsLockResponse m × (buf ≡ lock_response_wire m ++ drop 28 buf)
unpack_lock_response_sound e buf len out m bytes long eq =
    let (he, code, size, room, term, outcome, pad) = unpack_lock_response_inv e buf len out m eq in
    let (_, fields, accepted, split) =
      unpack_header_sound e buf len zero_header m.header bytes long he in
    (
      room,
      record { fields = fields; accepted = accepted; code_is = code; len_is = size },
      split
          ∙ ap (◌++◌ (header_wire m.header)) (
              drop-term_no buf (omega arith)
              ∙ ap (◌++◌ (term_no_bytes (term_no_of buf))) (drop-response buf (omega arith))
              ∙ rw (term, outcome, pad)),
    )

-- A lock request that meets the contract and that one host packs, another decodes to the same
-- request, also where the two
-- keep words in different orders.
pub unpack-pack_lock_request :
    (e e' : Endian) (m out : LockRequest) (buf : Bytes) (cap len : ℕ)
    → IsLockRequest m
    → 24 ≤ cap
    → cap ≤ length buf
    → 24 ≤ len
    → unpack_lock_request e' (pack_lock_request e m buf cap).1 len out ≡ (wire_ok, m)
unpack-pack_lock_request e e' m out buf cap len v room fits long =
    rw (pack_lock_request-wire e m buf cap room fits)
      (unpack_lock_request_complete e' m out (drop 24 buf) len v long)

-- A lock response that meets the contract and that one host packs, another decodes to the same
-- response, also where the two
-- keep words in different orders.
pub unpack-pack_lock_response :
    (e e' : Endian) (m out : LockResponse) (buf : Bytes) (cap len : ℕ)
    → IsLockResponse m
    → 28 ≤ cap
    → cap ≤ length buf
    → 28 ≤ len
    → unpack_lock_response e' (pack_lock_response e m buf cap).1 len out ≡ (wire_ok, m)
unpack-pack_lock_response e e' m out buf cap len v room fits long =
    rw (pack_lock_response-wire e m buf cap room fits)
      (unpack_lock_response_complete e' m out (drop 28 buf) len v long)

-- The messages that the program makes meet the contract, whatever the clock says, for every
-- sequence number of 16 bits.
pub make-IsLockMessage :
    (now : ℕ) (t : TermNo) (seq result : ℕ)
    → seq < 2 ^ 16
    → IsLockRequest (make_lock_request now t seq)
      × IsLockResponse (make_lock_response now t seq result)
unfolding make_lock_request make_lock_response
make-IsLockMessage now t seq result h = ground arith

-- Behind a header that is accepted, the other errors of `unpack_lock_request`: a code that is not
-- the request's, a length field that is not the request's, a buffer that ends before it does.
pub unpack_lock_request_errors :
    (e : Endian) (h : Header) (rest : Bytes) (len : ℕ) (out : LockRequest)
    → IsHeader h
    → Accepted h
    → 20 ≤ len
    → (((unpack_lock_request e (header_wire h ++ rest) len out).0 ≡ unknown_code) ↔ (h.code ≢ 0x10))
      × (((unpack_lock_request e (header_wire h ++ rest) len out).0 ≡ length_mismatch)
          ↔ ((h.code ≡ 0x10) × (h.len ≢ 24)))
      × (((unpack_lock_request e (header_wire h ++ rest) len out).0 ≡ too_short)
          ↔ ((h.code ≡ 0x10) × (h.len ≡ 24) × (len < 24)))
unfolding unpack_lock_request
unpack_lock_request_errors e h rest len out v a room = rw decoded (
  (λ p. ground arith, λ p. ground arith),
  (λ p. ground arith, λ p. ground arith),
  (λ p. ground arith, λ p. ground arith),
)
  where
    decoded : unpack_header e (header_wire h ++ rest) len zero_header ≡ (wire_ok, h)
    decoded = unpack_header_complete e h zero_header rest len v a room
