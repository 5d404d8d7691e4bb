-- ===== src/Bytes/Order.antt =====
-- The loads and stores of common/wire.cpp against big-endian numbers.
use native.Mathlib.Nat.{mod-eq_of_lt}
use fleetcore.Prelude.{
  ℕ, zero, suc, ◌+◌, ◌*◌, ◌%◌, ◌^◌, ◌≤◌, ◌<◌, ◌≡◌, refl, ap, ◌∙◌, [], ◌∷◌, ◌++◌, arith, bit_or,
  drop, length, length-drop,
}
use fleetcore.Prelude.Bits.{bit_or-shift}
use fleetcore.Bytes.{
  Bytes, AreBytes, load_be16, load_be32, load_be64, load_be64_loop, byte_at, store_be16, store_be32,
  store_be64, be_bytes, be_value_from, at_offset,
}

-- One step of a load: a shift that does not wrap leaves room for what is put below it.
or_shifted : (k v b m : ℕ) → v * 2 ^ k < m → b < 2 ^ k → bit_or (v * 2 ^ k % m) b ≡ v * 2 ^ k + b
or_shifted k v b m fits h = rw (mod-eq_of_lt fits) (bit_or-shift k v b h)

pub load_be16-value :
    (a b : ℕ) (p : Bytes) → a < 256 → b < 256 → load_be16 (a ∷ b ∷ p) ≡ a * 256 + b
unfolding load_be16
load_be16-value a b p ha hb = omega (arith, bit_or-shift 8 a b hb)

pub load_be32-value :
    (a b c d : ℕ) (p : Bytes)
    → a < 256
    → b < 256
    → c < 256
    → d < 256
    → load_be32 (a ∷ b ∷ c ∷ d ∷ p) ≡ ((a * 256 + b) * 256 + c) * 256 + d
unfolding load_be32
load_be32-value a b c d p ha hb hc hd =
    let first : bit_or (a * 2 ^ 24 % 2 ^ 32) (b * 2 ^ 16 % 2 ^ 32) ≡ (a * 256 + b) * 2 ^ 16 =
      or_shifted 24 a (b * 2 ^ 16 % 2 ^ 32) (2 ^ 32) (omega arith) (omega arith) ∙ omega arith in
    let second : bit_or ((a * 256 + b) * 2 ^ 16) (c * 2 ^ 8 % 2 ^ 32)
        ≡ ((a * 256 + b) * 256 + c) * 2 ^ 8 =
      bit_or-shift 16 (a * 256 + b) (c * 2 ^ 8 % 2 ^ 32) (omega arith) ∙ omega arith in
    rw (first, second) (bit_or-shift 8 ((a * 256 + b) * 256 + c) d (omega arith) ∙ omega arith)

-- A round of the loop, while the value read so far leaves room for one more byte.
load_be64_round :
    (rounds i v : ℕ) (p : Bytes)
    → v * 2 ^ 8 < 2 ^ 64
    → byte_at p i < 256
    → load_be64_loop (suc rounds) i p v ≡ load_be64_loop rounds (suc i) p (v * 256 + byte_at p i)
unfolding load_be64_loop
load_be64_round rounds i v p room h =
    ap (load_be64_loop rounds (suc i) p) (or_shifted 8 v (byte_at p i) (2 ^ 64) room h)

pub load_be64-value :
    (a b c d e f g h : ℕ) (p : Bytes)
    → AreBytes (a ∷ b ∷ c ∷ d ∷ e ∷ f ∷ g ∷ h ∷ [])
    → load_be64 (a ∷ b ∷ c ∷ d ∷ e ∷ f ∷ g ∷ h ∷ p)
      ≡ be_value_from 0 (a ∷ b ∷ c ∷ d ∷ e ∷ f ∷ g ∷ h ∷ [])
unfolding load_be64
load_be64-value a b c d e f g h p (ha, (hb, (hc, (hd, (he, (hf, (hg, (hh, _)))))))) =
    let bs = a ∷ b ∷ c ∷ d ∷ e ∷ f ∷ g ∷ h ∷ p in
    load_be64_round 7 0 0 bs (omega arith) ha
    ∙ load_be64_round 6 1 (0 * 256 + a) bs (omega arith) hb
    ∙ load_be64_round 5 2 ((0 * 256 + a) * 256 + b) bs (omega arith) hc
    ∙ load_be64_round 4 3 (((0 * 256 + a) * 256 + b) * 256 + c) bs (omega arith) hd
    ∙ load_be64_round 3 4 ((((0 * 256 + a) * 256 + b) * 256 + c) * 256 + d) bs (omega arith) he
    ∙ load_be64_round 2 5 (((((0 * 256 + a) * 256 + b) * 256 + c) * 256 + d) * 256 + e) bs
        (omega arith) hf
    ∙ load_be64_round 1 6 ((((((0 * 256 + a) * 256 + b) * 256 + c) * 256 + d) * 256 + e) * 256 + f)
        bs (omega arith) hg
    ∙ load_be64_round 0 7
        (((((((0 * 256 + a) * 256 + b) * 256 + c) * 256 + d) * 256 + e) * 256 + f) * 256 + g) bs
        (omega arith) hh

pub store_be16_lem : (v a b : ℕ) (p : Bytes) → store_be16 v (a ∷ b ∷ p) ≡ be_bytes 2 v ++ p
unfolding store_be16
store_be16_lem v a b p = ground arith

pub store_be32_lem :
    (v a b c d : ℕ) (p : Bytes) → store_be32 v (a ∷ b ∷ c ∷ d ∷ p) ≡ be_bytes 4 v ++ p
unfolding store_be32
store_be32_lem v a b c d p = ground arith

pub store_be64_lem :
    (v a b c d e f g h : ℕ) (p : Bytes)
    → store_be64 v (a ∷ b ∷ c ∷ d ∷ e ∷ f ∷ g ∷ h ∷ p) ≡ be_bytes 8 v ++ p
unfolding store_be64
store_be64_lem v a b c d e f g h p = ground arith

drop-at_offset :
    (n w : ℕ) (f : Bytes → Bytes) (buf : Bytes)
    → n + suc w ≤ length buf
    → drop n (at_offset n f buf) ≡ f (drop n buf)
drop-at_offset zero w f buf h = refl
drop-at_offset (suc n) w f [] h = absurd (omega arith)
drop-at_offset (suc n) w f (b ∷ buf) h = drop-at_offset n w f buf (omega arith)

-- A load of the big-endian bytes of a number that fits is that number.
pub load_be16-be_bytes : (v : ℕ) (p : Bytes) → v < 2 ^ 16 → load_be16 (be_bytes 2 v ++ p) ≡ v
load_be16-be_bytes v p h = load_be16-value _ _ p (omega arith) (omega arith) ∙ omega arith

pub load_be32-be_bytes : (v : ℕ) (p : Bytes) → v < 2 ^ 32 → load_be32 (be_bytes 4 v ++ p) ≡ v
load_be32-be_bytes v p h =
    load_be32-value _ _ _ _ p (omega arith) (omega arith) (omega arith) (omega arith) ∙ omega arith

pub load_be64-be_bytes : (v : ℕ) (p : Bytes) → v < 2 ^ 64 → load_be64 (be_bytes 8 v ++ p) ≡ v
load_be64-be_bytes v p h = load_be64-value _ _ _ _ _ _ _ _ p (omega arith) ∙ omega arith

-- And the bytes of what was loaded are those that were read.
pub be_bytes-load_be16 :
    (a b : ℕ) (p : Bytes)
    → a < 256
    → b < 256
    → (load_be16 (a ∷ b ∷ p) < 2 ^ 16) × (be_bytes 2 (load_be16 (a ∷ b ∷ p)) ≡ a ∷ b ∷ [])
be_bytes-load_be16 a b p ha hb = rw (load_be16-value a b p ha hb) (omega arith, ground arith)

pub be_bytes-load_be32 :
    (a b c d : ℕ) (p : Bytes)
    → a < 256
    → b < 256
    → c < 256
    → d < 256
    → (load_be32 (a ∷ b ∷ c ∷ d ∷ p) < 2 ^ 32)
      × (be_bytes 4 (load_be32 (a ∷ b ∷ c ∷ d ∷ p)) ≡ a ∷ b ∷ c ∷ d ∷ [])
be_bytes-load_be32 a b c d p ha hb hc hd =
    rw (load_be32-value a b c d p ha hb hc hd) (omega arith, ground arith)

pub be_bytes-load_be64 :
    (a b c d e f g h : ℕ) (p : Bytes)
    → AreBytes (a ∷ b ∷ c ∷ d ∷ e ∷ f ∷ g ∷ h ∷ [])
    → (load_be64 (a ∷ b ∷ c ∷ d ∷ e ∷ f ∷ g ∷ h ∷ p) < 2 ^ 64)
      × (be_bytes 8 (load_be64 (a ∷ b ∷ c ∷ d ∷ e ∷ f ∷ g ∷ h ∷ p))
          ≡ a ∷ b ∷ c ∷ d ∷ e ∷ f ∷ g ∷ h ∷ [])
be_bytes-load_be64 a b c d e f g h p bs =
    rw (load_be64-value a b c d e f g h p bs) (omega arith, ground arith)

load-store16 : (p : Bytes) (v : ℕ) → 2 ≤ length p → v < 2 ^ 16 → load_be16 (store_be16 v p) ≡ v
load-store16 [] v h hv = absurd (omega arith)
load-store16 (a ∷ []) v h hv = absurd (omega arith)
load-store16 (a ∷ b ∷ p) v h hv =
    rw (store_be16_lem v a b p) (load_be16-value _ _ p (omega arith) (omega arith) ∙ omega arith)

load-store32 : (p : Bytes) (v : ℕ) → 4 ≤ length p → v < 2 ^ 32 → load_be32 (store_be32 v p) ≡ v
load-store32 (a ∷ b ∷ c ∷ d ∷ p) v h hv = rw (store_be32_lem v a b c d p) (
    load_be32-value _ _ _ _ p (omega arith) (omega arith) (omega arith) (omega arith) ∙ omega arith)
load-store32 _ v h hv = absurd (omega arith)

load-store64 : (p : Bytes) (v : ℕ) → 8 ≤ length p → v < 2 ^ 64 → load_be64 (store_be64 v p) ≡ v
load-store64 (a ∷ b ∷ c ∷ d ∷ e ∷ f ∷ g ∷ h ∷ p) v l hv =
    rw (store_be64_lem v a b c d e f g h p)
      (load_be64-value _ _ _ _ _ _ _ _ p (omega arith) ∙ omega arith)
load-store64 _ v h hv = absurd (omega arith)

-- A word of 16, 32 or 64 bits that is stored at any place of a buffer with room for it is read
-- back from that place by the load of its width.
pub load-store :
    (buf : Bytes) (off u v w : ℕ)
    → off + 8 ≤ length buf
    → u < 2 ^ 16
    → v < 2 ^ 32
    → w < 2 ^ 64
    → (load_be16 (drop off (at_offset off (store_be16 u) buf)) ≡ u)
      × (load_be32 (drop off (at_offset off (store_be32 v) buf)) ≡ v)
      × (load_be64 (drop off (at_offset off (store_be64 w) buf)) ≡ w)
load-store buf off u v w room hu hv hw = (
  rw (drop-at_offset off 1 (store_be16 u) buf (omega arith))
      (load-store16 _ u (omega (arith, remaining)) hu),
  rw (drop-at_offset off 3 (store_be32 v) buf (omega arith))
      (load-store32 _ v (omega (arith, remaining)) hv),
  rw (drop-at_offset off 7 (store_be64 w) buf room) (load-store64 _ w remaining hw),
)
  where
    remaining : 8 ≤ length (drop off buf)
    remaining = omega (arith, length-drop off buf)

pub AreBytes-front : (front back : Bytes) → AreBytes (front ++ back) → AreBytes front
AreBytes-front [] back h = tt
AreBytes-front (x ∷ front) back (small, h) = (small, AreBytes-front front back h)

pub AreBytes-end : (front back : Bytes) → AreBytes (front ++ back) → AreBytes back
AreBytes-end [] back h = h
AreBytes-end (x ∷ front) back (small, h) = AreBytes-end front back h

pub AreBytes-append : (a b : Bytes) → AreBytes a → AreBytes b → AreBytes (a ++ b)
AreBytes-append [] b p q = q
AreBytes-append (x ∷ a) b (small, p) q = (small, AreBytes-append a b p q)

pub AreBytes-drop : (n : ℕ) (a : Bytes) → AreBytes a → AreBytes (drop n a)
AreBytes-drop zero a p = p
AreBytes-drop (suc n) [] p = p
AreBytes-drop (suc n) (x ∷ a) (small, p) = AreBytes-drop n a p
