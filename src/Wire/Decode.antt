-- ===== src/Wire/Decode.antt =====
-- What the unpack functions accept and what they reject.
use fleetcore.Prelude.{
  inl, inr, ◌⊎◌, refl, false, ℕ, ◌≤◌, ◌<◌, ◌≡◌, ◌≢◌, ◌↔◌, sym, subst, ◌∷◌, ◌++◌, arith, drop,
  length, le→ltb,
}
use fleetcore.Bytes.{Bytes, AreBytes, Endian, byte_at, load_be16}
use fleetcore.Bytes.Order.{
  load_be16-be_bytes, load_be32-be_bytes, load_be64-be_bytes, be_bytes-load_be16,
  be_bytes-load_be32, be_bytes-load_be64,
}
use fleetcore.Proto.{
  Header, IsHeader, magic0, magic1, proto_version, max_message_len, sizeof_header,
}
use fleetcore.Wire.{
  WireError, is_ok, wire_ok, too_short, bad_magic, unsupported_version, bad_length, read_header,
  check_header, unpack_header,
}
use fleetcore.Wire.Layout.{header_wire}

pub ok-cases : (w : WireError) → (w ≡ wire_ok) ⊎ (w ≢ wire_ok)
ok-cases wire_ok = inl refl
ok-cases _ = inr (λ e. cc)

pub is_ok_ne : (w : WireError) → w ≢ wire_ok → is_ok w ≡ false
is_ok_ne wire_ok h = absurd (h refl)
is_ok_ne _ h = refl

-- What the contract asks of a header.
pub record Accepted (h : Header) : Type 0 where
  pub magic_0_F : h.magic_0 ≡ magic0
  pub magic_1_C : h.magic_1 ≡ magic1
  pub version_known : h.version ≤ proto_version
  pub len_least : sizeof_header ≤ h.len
  pub len_most : h.len ≤ max_message_len

pub read_header-wire :
    (e : Endian) (h : Header) (rest : Bytes)
    → IsHeader h
    → read_header e (header_wire h ++ rest) ≡ h
unfolding read_header
read_header-wire e h rest v = λ i. record {
  magic_0 = h.magic_0;
  magic_1 = h.magic_1;
  version = h.version;
  code = h.code;
  len = load_be16-be_bytes h.len (drop 6 (header_wire h ++ rest)) v.len_word i;
  seq = load_be16-be_bytes h.seq (drop 8 (header_wire h ++ rest)) v.seq_word i;
  timestamp = load_be64-be_bytes h.timestamp (drop 16 (header_wire h ++ rest)) v.timestamp_word i;
  reserved = load_be32-be_bytes h.reserved rest v.reserved_word i;
}

-- The struct that is read holds what its types can hold, and its wire form is the bytes read.
header_wire-read_header :
    (e : Endian) (buf : Bytes)
    → AreBytes buf
    → 20 ≤ length buf
    → IsHeader (read_header e buf) × (header_wire (read_header e buf) ++ drop 20 buf ≡ buf)
unfolding read_header
header_wire-read_header e
      (m0 ∷ m1 ∷ vs ∷ cd ∷ l0 ∷ l1 ∷ s0 ∷ s1 ∷ t0 ∷ t1 ∷ t2 ∷ t3 ∷ t4 ∷ t5 ∷ t6 ∷ t7 ∷ r0 ∷ r1 ∷ r2
        ∷ r3 ∷ rest)
      (
        b0,
        (
          b1,
          (
            b2,
            (
              b3,
              (
                b4,
                (
                  b5,
                  (
                    b6,
                    (b7, (c0, (c1, (c2, (c3, (c4, (c5, (c6, (c7, (d0, (d1, (d2, (d3, _))))))))))))),
                  ),
                ),
              ),
            ),
          ),
        ),
      )
      long =
    let at16 = r0 ∷ r1 ∷ r2 ∷ r3 ∷ rest in
    let at8 = t0 ∷ t1 ∷ t2 ∷ t3 ∷ t4 ∷ t5 ∷ t6 ∷ t7 ∷ at16 in
    let (len_word, len_bytes) = be_bytes-load_be16 l0 l1 (s0 ∷ s1 ∷ at8) b4 b5 in
    let (seq_word, seq_bytes) = be_bytes-load_be16 s0 s1 at8 b6 b7 in
    let (ts_word, ts_bytes) =
      be_bytes-load_be64 t0 t1 t2 t3 t4 t5 t6 t7 at16
        (c0, (c1, (c2, (c3, (c4, (c5, (c6, (c7, tt)))))))) in
    let (rs_word, rs_bytes) = be_bytes-load_be32 r0 r1 r2 r3 rest d0 d1 d2 d3 in
    (
      record {
        magic_0_byte = b0;
        magic_1_byte = b1;
        version_byte = b2;
        code_byte = b3;
        len_word = len_word;
        seq_word = seq_word;
        timestamp_word = ts_word;
        reserved_word = rs_word;
      },
      λ i.
          m0
          ∷ m1
          ∷ vs
          ∷ cd
          ∷ (len_bytes i ++ (seq_bytes i ++ (ts_bytes i ++ (rs_bytes i ++ rest)))),
    )
header_wire-read_header e _ bs long = absurd (omega arith)

check_header-Accepted : (h : Header) → Accepted h → check_header h ≡ wire_ok
unfolding check_header
check_header-Accepted h a = ground arith

Accepted-check_header : (h : Header) → check_header h ≡ wire_ok → Accepted h
unfolding check_header
Accepted-check_header h e = ground arith

-- A header that the contract accepts is decoded from its wire form to itself, on every host and
-- whatever follows it, if at least its 20 bytes are there.
pub unpack_header_complete :
    (e : Endian) (h out : Header) (rest : Bytes) (len : ℕ)
    → IsHeader h
    → Accepted h
    → 20 ≤ len
    → unpack_header e (header_wire h ++ rest) len out ≡ (wire_ok, h)
unfolding unpack_header
unpack_header_complete e h out rest len v a room =
    rw (le→ltb len 20 room, read_header-wire e h rest v, check_header-Accepted h a)

unpack_header_inv :
    (e : Endian) (buf : Bytes) (len : ℕ) (out h : Header)
    → unpack_header e buf len out ≡ (wire_ok, h)
    → (20 ≤ len) × (check_header (read_header e buf) ≡ wire_ok) × (read_header e buf ≡ h)
unfolding unpack_header
unpack_header_inv e buf len out h eq = ground arith

-- What `unpack_header` accepts, from a buffer with as many bytes as it is said to have, is a header
-- that the contract accepts, every field in range, and the buffer begins with the wire form of
-- exactly that header.
pub unpack_header_sound :
    (e : Endian) (buf : Bytes) (len : ℕ) (out h : Header)
    → AreBytes buf
    → len ≤ length buf
    → unpack_header e buf len out ≡ (wire_ok, h)
    → (20 ≤ len) × IsHeader h × Accepted h × (buf ≡ header_wire h ++ drop 20 buf)
unpack_header_sound e buf len out h bytes long eq =
    let (room, checked, read) = unpack_header_inv e buf len out h eq in
    let (fields, same) = header_wire-read_header e buf bytes (omega arith) in
    (
      room,
      subst IsHeader read fields,
      subst Accepted read (Accepted-check_header _ checked),
      sym (subst (λ (g : Header). header_wire g ++ drop 20 buf ≡ buf) read same),
    )

-- Which error is reported, by the first of the checks that fails: the size of the buffer, then the
-- magic, then the version, then the length field.
pub unpack_header_errors :
    (e : Endian) (buf : Bytes) (len : ℕ) (out : Header)
    → (((unpack_header e buf len out).0 ≡ too_short) ↔ (len < 20))
      × (((unpack_header e buf len out).0 ≡ bad_magic)
          ↔ ((20 ≤ len) × ((byte_at buf 0 ≢ b'F') ⊎ (byte_at buf 1 ≢ b'C'))))
      × (((unpack_header e buf len out).0 ≡ unsupported_version)
          ↔ ((20 ≤ len) × (byte_at buf 0 ≡ b'F') × (byte_at buf 1 ≡ b'C') × (1 < byte_at buf 2)))
      × (((unpack_header e buf len out).0 ≡ bad_length) ↔ (
          (20 ≤ len)
          × (byte_at buf 0 ≡ b'F')
          × (byte_at buf 1 ≡ b'C')
          × (byte_at buf 2 ≤ 1)
          × ((load_be16 (drop 4 buf) < 20) ⊎ (1024 < load_be16 (drop 4 buf)))))
unfolding unpack_header check_header read_header
unpack_header_errors e buf len out = (
  (λ h. ground arith, λ h. ground arith),
  (λ h. ground arith, λ h. ground arith),
  (λ h. ground arith, λ h. ground arith),
  (λ h. ground arith, λ h. ground arith),
)
