-- ===== src/StreamBuffer/Framing.antt =====
-- common/stream_buffer.cpp: the messages that come out, against the pieces in which TCP brings them.
use fleetcore.Prelude.{
  ℕ, zero, suc, ◌≤◌, ◌<◌, ◌≡◌, refl, sym, ap, ap₂, subst, ◌∙◌, none, some, List, [], ◌∷◌, ◌++◌,
  append_assoc, append-nil, arith, drop, length, length-append, drop-length-append,
  take-length-append,
}
use native.Mathlib.Decide.{dec_le}
use fleetcore.Bytes.{Bytes, load_be16, byte_at}
use fleetcore.StreamBuffer.{
  StreamBuffer, empty, length_field, append, next, consume, pending, drain, feed,
}

-- A whole message: its length field says how long it is.
pub record Frame (m : Bytes) : Type 0 where
  pub field : length_field m ≡ length m
  pub least : 20 ≤ length m
  pub most : length m ≤ 1024

abbrev pub Frames : List Bytes → Type 0
Frames [] = Unit {0}
Frames (m ∷ ms) = Frame m × Frames ms

abbrev pub joined : List Bytes → Bytes
joined [] = []
joined (m ∷ ms) = m ++ joined ms

abbrev pub buffer : Bytes → StreamBuffer
buffer bs = record { bytes = bs }

-- The field is in the first 20 bytes, and what follows them does not matter.
length_field-append : (m rest : Bytes) → 20 ≤ length m → length_field (m ++ rest) ≡ length_field m
unfolding load_be16
length_field-append (a ∷ b ∷ c ∷ d ∷ e ∷ f ∷ m) rest h = refl
length_field-append _ rest h = absurd (omega arith)

pub next-Frame : (m rest : Bytes) → Frame m → next (buffer (m ++ rest)) ≡ some (m ++ rest, length m)
unfolding next
next-Frame m rest f = ground (arith, length_field-append m rest f.least, length-append m rest)

pub consume-append : (m rest : Bytes) → consume (length m) (buffer (m ++ rest)) ≡ buffer rest
unfolding consume
consume-append m [] = ground (arith, append-nil m)
consume-append m (r ∷ rest) =
    ground (arith, length-append m (r ∷ rest), drop-length-append m (r ∷ rest))

-- A beginning of an unfinished message is unfinished.
next-none-append : (q rest : Bytes) → next (buffer (q ++ rest)) ≡ none → next (buffer q) ≡ none
unfolding next
next-none-append q rest h = elim (dec_le 20 (length q)) [
  | yes long ↦ ground (arith, length_field-append q rest long, length-append q rest)
  | no short ↦ ground arith
]

-- And so is a proper beginning of a whole one.
next-none-Frame :
    (q rest : Bytes) → Frame (q ++ rest) → length q < length (q ++ rest) → next (buffer q) ≡ none
unfolding next
next-none-Frame q rest f short = elim (dec_le 20 (length q)) [
  | yes long ↦
      ground
        (arith, f.field, f.least, f.most, length_field-append q rest long, length-append q rest)
  | no low ↦ ground arith
]

cons-injective : (x y : ℕ) (xs ys : Bytes) → x ∷ xs ≡ y ∷ ys → (x ≡ y) × (xs ≡ ys)
cons-injective x y xs ys e = (ap (λ (l : Bytes). byte_at l 0) e, ap (λ (l : Bytes). drop 1 l) e)

-- Of two beginnings of one list the shorter begins the longer.
split_at :
    (m q k rest : Bytes)
    → q ++ rest ≡ m ++ k
    → length m ≤ length q
    → (q2 : Bytes) × (q ≡ m ++ q2) × (q2 ++ rest ≡ k)
split_at [] q k rest e h = (q, refl, e)
split_at (x ∷ m) [] k rest e h = absurd (omega arith)
split_at (x ∷ m) (y ∷ q) k rest e h =
    let (head, tail) = cons-injective y x (q ++ rest) (m ++ k) e in
    let (q2, front, back) = split_at m q k rest tail (omega arith) in (q2, ap₂ ◌∷◌ head front, back)

-- What the loop does with a beginning `q` of some messages and an unfinished one: it takes off the
-- messages that are whole in `q`.
record Cut (ms : List Bytes) (tail q rest : Bytes) (fuel : ℕ) : Type 0 where
  taken : List Bytes
  left : List Bytes
  held : Bytes
  splits : ms ≡ taken ++ left
  drained : drain fuel (buffer q) ≡ (taken, buffer held)
  unfinished : next (buffer held) ≡ none
  remains : held ++ rest ≡ joined left ++ tail

Cut-none :
    (ms : List Bytes) (tail q rest : Bytes) (fuel : ℕ)
    → q ++ rest ≡ joined ms ++ tail
    → next (buffer q) ≡ none
    → Cut ms tail q rest fuel
unfolding drain
Cut-none ms tail q rest zero e n = record {
  taken = [];
  left = ms;
  held = q;
  splits = refl;
  drained = refl;
  unfinished = n;
  remains = e;
}
Cut-none ms tail q rest (suc fuel) e n = record {
  taken = [];
  left = ms;
  held = q;
  splits = refl;
  drained = rw (n, drain);
  unfinished = n;
  remains = e;
}

Cut-cons :
    (m : Bytes) (ms : List Bytes) (tail q rest : Bytes) (fuel : ℕ)
    → Frame m
    → Cut ms tail q rest fuel
    → Cut (m ∷ ms) tail (m ++ q) rest (suc fuel)
unfolding drain
Cut-cons m ms tail q rest fuel f c = record {
  taken = m ∷ c.taken;
  left = c.left;
  held = c.held;
  splits = ap (◌∷◌ m) c.splits;
  drained =
      rw (next-Frame m q f, drain)
        (rw (consume-append m q, c.drained) (rw (take-length-append m q)));
  unfinished = c.unfinished;
  remains = c.remains;
}

Cut-all :
    (ms : List Bytes) (tail q rest : Bytes) (fuel : ℕ)
    → Frames ms
    → next (buffer tail) ≡ none
    → q ++ rest ≡ joined ms ++ tail
    → length q ≤ fuel
    → Cut ms tail q rest fuel
Cut-all [] tail q rest fuel fs n e enough =
    Cut-none [] tail q rest fuel e
      (next-none-append q rest (subst (λ (t : Bytes). next (buffer t) ≡ none) (sym e) n))
Cut-all (m ∷ ms) tail q rest zero (f, fs) n e enough =
    Cut-none (m ∷ ms) tail q rest zero e (no_bytes q enough)
  where
    no_bytes : (q : Bytes) → length q ≤ 0 → next (buffer q) ≡ none
    no_bytes [] h = unfold next in refl
    no_bytes (x ∷ q) h = absurd (omega arith)
Cut-all (m ∷ ms) tail q rest (suc fuel) (f, fs) n e enough = elim (dec_le (length m) (length q)) [
  | yes whole ↦
      let (q2, front, back) =
        split_at m q (joined ms ++ tail) rest (e ∙ append_assoc m (joined ms) tail) whole in
      subst (λ (q' : Bytes). Cut (m ∷ ms) tail q' rest (suc fuel)) (sym front)
        (Cut-cons m ms tail q2 rest fuel f (
          Cut-all ms tail q2 rest fuel fs n back
            (omega (arith, ap (length {0}) front, length-append m q2, f.least))))
  | no short ↦
      let (m2, front, _) =
        split_at q m rest (joined ms ++ tail) (sym (append_assoc m (joined ms) tail) ∙ sym e)
          (omega arith) in
      Cut-none (m ∷ ms) tail q rest (suc fuel) e
        (next-none-Frame q m2 (subst Frame front f) (omega (arith, ap (length {0}) front)))
]

Frames-left : (xs ys : List Bytes) → Frames (xs ++ ys) → Frames ys
Frames-left [] ys fs = fs
Frames-left (x ∷ xs) ys (f, fs) = Frames-left xs ys fs

feed-Frames_from :
    (chunks ms : List Bytes) (tail held : Bytes)
    → Frames ms
    → next (buffer tail) ≡ none
    → next (buffer held) ≡ none
    → held ++ joined chunks ≡ joined ms ++ tail
    → feed chunks (buffer held) ≡ (ms, buffer tail)
unfolding feed append pending
feed-Frames_from [] [] tail held fs n nh e =
    ap (λ (b : Bytes). let r : List Bytes × StreamBuffer = ([], buffer b) in r)
      (sym (append-nil held) ∙ e)
feed-Frames_from [] (m ∷ ms) tail held (f, fs) n nh e =
    let front = sym (append-nil held) ∙ e ∙ append_assoc m (joined ms) tail in
    cc (next-Frame m (joined ms ++ tail) f, ap (λ (b : Bytes). next (buffer b)) front)
feed-Frames_from (chunk ∷ chunks) ms tail held fs n nh e =
    let c =
      Cut-all ms tail (held ++ chunk) (joined chunks) (length (held ++ chunk)) fs n
        (append_assoc held chunk (joined chunks) ∙ e) (omega arith) in
    rw (c.drained) (
      rw
        (feed-Frames_from chunks c.left tail c.held
          (Frames-left c.taken c.left (subst Frames c.splits fs)) n c.unfinished c.remains)
        (rw (← c.splits)))

-- If what has arrived is some whole messages followed by the beginning of another, the loop hands
-- out exactly those messages, in order and each once, and keeps the beginning: for every way in
-- which the bytes were cut into chunks.
pub feed-Frames :
    (chunks ms : List Bytes) (tail : Bytes)
    → Frames ms
    → next (buffer tail) ≡ none
    → joined chunks ≡ joined ms ++ tail
    → feed chunks empty ≡ (ms, buffer tail)
feed-Frames chunks ms tail fs n e = feed-Frames_from chunks ms tail [] fs n (unfold next in refl) e
