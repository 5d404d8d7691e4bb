-- ===== src/StreamBuffer.antt =====
-- common/stream_buffer.h and common/stream_buffer.cpp. `next` returns the pointer and the length
-- that it hands out, and `none` where the source returns false.
pub mod Progress
pub mod Framing
pub mod Serve
pub mod Heard
pub mod Invariant
pub mod Messages
use fleetcore.Prelude.{
  ℕ, zero, suc, Option, none, some, List, [], ◌∷◌, ◌++◌, ◌||◌, ltb, leb, if◌then◌else◌, drop, take,
  length,
}
use fleetcore.Bytes.{Bytes, load_be16}
use fleetcore.Proto.{sizeof_header, max_message_len}

pub record StreamBuffer : Type 0 where
  pub bytes : Bytes

abbrev pub empty : StreamBuffer
empty = record { bytes = [] }

unfoldable pub append : Bytes → StreamBuffer → StreamBuffer
append chunk b = record { bytes = b.bytes ++ chunk }

-- The length field of a header at the front.
abbrev pub length_field : Bytes → ℕ
length_field bs = load_be16 (drop 4 bs)

unfoldable pub next : StreamBuffer → Option (Bytes × ℕ)
next b =
    if ltb (length b.bytes) sizeof_header
    then none
    else if ltb (length_field b.bytes) sizeof_header || ltb max_message_len (length_field b.bytes)
    then some (b.bytes, length b.bytes)
    else if ltb (length b.bytes) (length_field b.bytes)
    then none
    else some (b.bytes, length_field b.bytes)

unfoldable pub consume : ℕ → StreamBuffer → StreamBuffer
consume len b = if leb (length b.bytes) len then empty else record { bytes = drop len b.bytes }

unfoldable pub reset : StreamBuffer → StreamBuffer
reset b = empty

unfoldable pub pending : StreamBuffer → ℕ
pending b = length b.bytes

-- `while (rx_.next(&msg, &len)) { ...(msg, len); rx_.consume(len); }`, the loop of gateway and of
-- termd: the messages that it hands on, in order, and the buffer left.
unfoldable pub drain : ℕ → StreamBuffer → List Bytes × StreamBuffer
drain zero b = ([], b)
drain (suc fuel) b = elim (next b) [
  | none ↦ ([], b)
  | some (out, len) ↦ let (msgs, rest) = drain fuel (consume len b) in (take len out ∷ msgs, rest)
]

-- One `append` and the loop behind it for each chunk that arrives.
unfoldable pub feed : List Bytes → StreamBuffer → List Bytes × StreamBuffer
unfolding pending
feed [] b = ([], b)
feed (chunk ∷ chunks) b =
    let (msgs, rest) = drain (pending (append chunk b)) (append chunk b) in
    let (later, last) = feed chunks rest in (msgs ++ later, last)
