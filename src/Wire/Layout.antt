-- ===== src/Wire/Layout.antt =====
-- What pack writes, for every host.
use fleetcore.Prelude.{
  ℕ, ◌+◌, ◌≤◌, ◌≡◌, refl, sym, ap, ◌∙◌, [], ◌∷◌, ◌++◌, append_assoc, append-nil, arith, drop,
  length, length-append, le→ltb,
}
use fleetcore.Bytes.{Bytes, Endian, little, big, be_bytes, memcpy}
use fleetcore.Bytes.Order.{store_be16_lem, store_be32_lem, store_be64_lem}
use fleetcore.Proto.{Header, LockRequest, LockResponse, header_object, term_no_bytes, pad_bytes}
use fleetcore.Wire.{store_fields, pack_header, pack_lock_request, pack_lock_response}

-- The wire format of the header: multi-byte fields big-endian, no padding.
abbrev pub header_wire : Header → Bytes
header_wire h =
    h.magic_0
    ∷ h.magic_1
    ∷ h.version
    ∷ h.code
    ∷ (be_bytes 2 h.len ++ (be_bytes 2 h.seq ++ (be_bytes 8 h.timestamp ++ be_bytes 4 h.reserved)))

abbrev pub lock_request_wire : LockRequest → Bytes
lock_request_wire m = header_wire m.header ++ term_no_bytes m.term_no

abbrev pub lock_response_wire : LockResponse → Bytes
lock_response_wire m =
    header_wire m.header ++ (term_no_bytes m.term_no ++ (m.outcome ∷ pad_bytes m.reserved))

memcpy_lem :
    (src buf : Bytes) → length src ≤ length buf → memcpy src buf ≡ src ++ drop (length src) buf
memcpy_lem [] buf h = refl
memcpy_lem (b ∷ src) [] h = absurd (omega arith)
memcpy_lem (b ∷ src) (x ∷ buf) h = ap (◌∷◌ b) (memcpy_lem src buf (omega arith))

-- The stores overwrite all that depends on the host.
store_fields-header_object :
    (e : Endian) (h : Header) (rest : Bytes)
    → store_fields h (header_object e h ++ rest) ≡ header_wire h ++ rest
unfolding store_fields
store_fields-header_object little h rest =
    rw (store_be16_lem, store_be16_lem, store_be64_lem, store_be32_lem)
store_fields-header_object big h rest =
    rw (store_be16_lem, store_be16_lem, store_be64_lem, store_be32_lem)

-- So what follows the header, `body`, stands behind it in the order of the wire.
store_fields-memcpy :
    (e : Endian) (h : Header) (body buf : Bytes)
    → 20 + length body ≤ length buf
    → store_fields h (memcpy (header_object e h ++ body) buf)
      ≡ (header_wire h ++ body) ++ drop (20 + length body) buf
store_fields-memcpy e h body buf fits =
    ap (store_fields h) (memcpy_lem (header_object e h ++ body) buf (omega (arith, size)))
    ∙ ap (store_fields h) (append_assoc (header_object e h) body _)
    ∙ store_fields-header_object e h (body ++ drop (length (header_object e h ++ body)) buf)
    ∙ ap (λ (n : ℕ). header_wire h ++ (body ++ drop n buf)) size
    ∙ sym (append_assoc (header_wire h) body _)
  where
    sized : (e : Endian) → length (header_object e h) ≡ 20
    sized little = refl
    sized big = refl

    size : length (header_object e h ++ body) ≡ 20 + length body
    size = omega (arith, length-append (header_object e h) body, sized e)

pub pack_header-wire :
    (e : Endian) (h : Header) (buf : Bytes) (cap : ℕ)
    → 20 ≤ cap
    → cap ≤ length buf
    → pack_header e h buf cap ≡ (20, header_wire h ++ drop 20 buf)
unfolding pack_header
pack_header-wire e h buf cap room size = rw (le→ltb cap 20 room) (
    ap (λ (b : Bytes). let p : ℕ × Bytes = (20, b) in p)
      (ap (λ (b : Bytes). store_fields h (memcpy b buf)) (sym (append-nil (header_object e h)))
        ∙ store_fields-memcpy e h [] buf (omega arith)))

pub pack_lock_request-wire :
    (e : Endian) (m : LockRequest) (buf : Bytes) (cap : ℕ)
    → 24 ≤ cap
    → cap ≤ length buf
    → pack_lock_request e m buf cap ≡ (24, lock_request_wire m ++ drop 24 buf)
unfolding pack_lock_request
pack_lock_request-wire e m buf cap room size = rw (le→ltb cap 24 room) (
    ap (λ (b : Bytes). let p : ℕ × Bytes = (24, b) in p)
      (store_fields-memcpy e m.header (term_no_bytes m.term_no) buf (omega arith)))

pub pack_lock_response-wire :
    (e : Endian) (m : LockResponse) (buf : Bytes) (cap : ℕ)
    → 28 ≤ cap
    → cap ≤ length buf
    → pack_lock_response e m buf cap ≡ (28, lock_response_wire m ++ drop 28 buf)
unfolding pack_lock_response
pack_lock_response-wire e m buf cap room size = rw (le→ltb cap 28 room) (
    ap (λ (b : Bytes). let p : ℕ × Bytes = (28, b) in p)
      (store_fields-memcpy e m.header
        (term_no_bytes m.term_no ++ (m.outcome ∷ pad_bytes m.reserved)) buf (omega arith)))

-- With room for the message, and whatever order the host keeps words in, each pack function
-- returns the size of its message and writes that many bytes: the fields in the order of their
-- declaration, multi-byte fields big-endian, with no padding. The rest of the buffer is kept.
pub pack_layout :
    (e : Endian) (h : Header) (req : LockRequest) (rsp : LockResponse) (buf : Bytes) (cap : ℕ)
    → 28 ≤ cap
    → cap ≤ length buf
    → (pack_header e h buf cap ≡ (20, header_wire h ++ drop 20 buf))
      × (pack_lock_request e req buf cap ≡ (24, lock_request_wire req ++ drop 24 buf))
      × (pack_lock_response e rsp buf cap ≡ (28, lock_response_wire rsp ++ drop 28 buf))
pack_layout e h req rsp buf cap room size = (
  pack_header-wire e h buf cap (omega arith) size,
  pack_lock_request-wire e req buf cap (omega arith) size,
  pack_lock_response-wire e rsp buf cap room size,
)
