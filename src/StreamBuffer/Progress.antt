-- ===== src/StreamBuffer/Progress.antt =====
-- common/stream_buffer.cpp: how the loop over `next` and `consume` ends, and what it leaves.
use fleetcore.Prelude.{
  refl, ℕ, zero, suc, ◌-◌, ◌≤◌, ◌<◌, ◌≡◌, ◌≢◌, ◌⊎◌, inl, inr, none, some, List, [], ◌∷◌, arith,
  length, length-drop, Option-cases,
}
use fleetcore.Bytes.{Bytes, Endian}
use fleetcore.Proto.{Header}
use fleetcore.StreamBuffer.{
  reset, StreamBuffer, length_field, append, next, consume, pending, drain, feed,
}
use fleetcore.Wire.{wire_ok, unpack_header, check_header, read_header}

-- What `next` hands out, in all cases.
pub next-cases :
    (b : StreamBuffer) (out : Bytes) (len : ℕ)
    → next b ≡ some (out, len)
    → (out ≡ b.bytes)
      × (20 ≤ len)
      × (len ≤ length b.bytes)
      × (((length_field b.bytes < 20) ⊎ (1024 < length_field b.bytes))
          ⊎ (len ≡ length_field b.bytes))
unfolding next
next-cases b out len eq = ground arith

pub next-none-lt : (b : StreamBuffer) → next b ≡ none → length b.bytes < 1024
unfolding next
next-none-lt b eq = ground arith

pub next-reset : (b : StreamBuffer) → next (reset b) ≡ none
unfolding next reset
next-reset b = refl

pub length-consume :
    (len : ℕ) (b : StreamBuffer) → length (consume len b).bytes ≡ length b.bytes - len
unfolding consume
length-consume len b = ground (arith, length-drop len b.bytes)

-- With as much fuel as there are bytes the loop has ended by its test.
pub drain-done :
    (fuel : ℕ) (b : StreamBuffer) → length b.bytes ≤ fuel → next (drain fuel b).1 ≡ none
unfolding drain
drain-done zero b h = elim (Option-cases (next b)) [
  | inl e ↦ e
  | inr ((out, len), e) ↦ absurd (omega (arith, next-cases b out len e))
]
drain-done (suc fuel) b h = elim (Option-cases (next b)) [
  | inl e ↦ rw (e, drain) e
  | inr ((out, len), e) ↦
      rw (e, drain)
        (drain-done fuel (consume len b)
          (omega (arith, next-cases b out len e, length-consume len b)))
]

-- Whatever bytes arrive, and however they are cut into chunks, if no message was left in the buffer
-- before the first chunk then none is left, and less than MAX_MESSAGE_LEN bytes, when the last has
-- been served.
pub feed-pending-lt :
    (chunks : List Bytes) (b : StreamBuffer)
    → next b ≡ none
    → (next (feed chunks b).1 ≡ none) × (pending (feed chunks b).1 < 1024)
unfolding feed
feed-pending-lt [] b h = (h, next-none-lt b h)
feed-pending-lt (chunk ∷ chunks) b h =
    feed-pending-lt chunks _ (drain-done _ (append chunk b) (omega arith))

-- Where the length field is out of range, `next` hands out the whole buffer, and unpack_header
-- refuses what it is handed, on every host: the caller always sees the stream as broken.
pub next_broken :
    (e : Endian) (b : StreamBuffer) (out : Bytes) (len : ℕ) (h : Header)
    → next b ≡ some (out, len)
    → (length_field b.bytes < 20) ⊎ (1024 < length_field b.bytes)
    → (out ≡ b.bytes) × (len ≡ length b.bytes) × ((unpack_header e out len h).0 ≢ wire_ok)
unfolding next unpack_header check_header read_header
next_broken e b out len h eq (inl low) = ground arith
next_broken e b out len h eq (inr high) = ground arith
