-- ===== src/StreamBuffer/Serve.antt =====
-- The loop `while (rx_.next(&msg, &len)) { handleMessage(msg, len); rx_.consume(len); }` of an object
-- that holds the buffer in a field: both workers of the Qt applications run it.
use fleetcore.Prelude.{
  ℕ, zero, suc, ◌+◌, ◌-◌, ◌≤◌, ◌≡◌, refl, ap, ◌∙◌, none, some, inl, inr, List, [], ◌∷◌, ◌++◌,
  append_assoc, arith, length, length-append, Option-cases,
}
use fleetcore.Bytes.{Bytes}
use fleetcore.StreamBuffer.{StreamBuffer, empty, next, consume}
use fleetcore.StreamBuffer.Framing.{Frame, buffer, next-Frame, consume-append}
use fleetcore.StreamBuffer.Progress.{next-cases, length-consume}

-- Where an object `W` holds its buffer.
pub record Holds (W : Type 0) : Type 0 where
  pub get : W → StreamBuffer
  pub put : StreamBuffer → W → W
  pub get-put : (b : StreamBuffer) (w : W) → get (put b w) ≡ b
  pub put-put : (a b : StreamBuffer) (w : W) → put a (put b w) ≡ put a w

unfoldable pub serve : {W : Type 0} → Holds W → (Bytes → ℕ → W → W) → ℕ → W → W
serve h handle zero w = w
serve h handle (suc fuel) w = elim (next (h.get w)) [
  | none ↦ w
  | some (msg, len) ↦
      let w' = handle msg len w in serve h handle fuel (h.put (consume len (h.get w')) w')
]

abbrev pub act_all : {M W : Type 0} → (M → W → W) → List M → W → W
act_all act [] w = w
act_all act (m ∷ ms) w = act_all act ms (act m w)

abbrev pub All {ℓ} : {A : Type 0} → (A → Type ℓ) → List A → Type ℓ
All P [] = Unit
All P (x ∷ xs) = P x × All P xs

pub All-append {ℓ} :
    {A : Type 0} (P : A → Type ℓ) (xs ys : List A) → All P xs → All P ys → All P (xs ++ ys)
All-append P [] ys ps qs = qs
All-append P (x ∷ xs) ys (p, ps) qs = (p, All-append P xs ys ps qs)

pub All-snoc {ℓ} :
    {A : Type 0} (P : A → Type ℓ) (xs : List A) (x : A) → All P xs → P x → All P (xs ++ (x ∷ []))
All-snoc P xs x ps p = All-append P xs (x ∷ []) ps (p, tt)

pub All-map :
    {A : Type 0} (P Q : A → Type 0) → ((a : A) → P a → Q a) → (xs : List A) → All P xs → All Q xs
All-map P Q f [] h = tt
All-map P Q f (x ∷ xs) (p, h) = (f x p, All-map P Q f xs h)

abbrev pub all_wires : {M : Type 0} → (M → Bytes) → List M → Bytes
all_wires wire [] = []
all_wires wire (m ∷ ms) = wire m ++ all_wires wire ms

next-empty : next empty ≡ none
unfolding next
next-empty = refl

consume-empty : (len : ℕ) → consume len empty ≡ empty
unfolding consume
consume-empty len = ground arith

module _ {W : Type 0} (h : Holds W) (handle : Bytes → ℕ → W → W) where
  serve-none : (fuel : ℕ) (w : W) → next (h.get w) ≡ none → serve h handle fuel w ≡ w
  unfolding serve
  serve-none zero w n = refl
  serve-none (suc fuel) w n = rw (n, serve)

  serve-step :
      (fuel len : ℕ) (out : Bytes) (w w' : W)
      → next (h.get w) ≡ some (out, len)
      → handle out len w ≡ w'
      → serve h handle (suc fuel) w ≡ serve h handle fuel (h.put (consume len (h.get w')) w')
  unfolding serve
  serve-step fuel len out w w' n handled = rw (n, serve) (rw handled)

  -- A handler that adds nothing to the buffer leaves no message behind.
  pub serve-none_left :
      ((out : Bytes) (len : ℕ) (w : W)
        → length (h.get (handle out len w)).bytes ≤ length (h.get w).bytes)
      → (fuel : ℕ) (w : W) → length (h.get w).bytes ≤ fuel
      → next (h.get (serve h handle fuel w)) ≡ none
  unfolding serve
  serve-none_left shrinks zero w enough = elim (Option-cases (next (h.get w))) [
    | inl n ↦ n
    | inr ((out, len), n) ↦ absurd (omega (arith, next-cases (h.get w) out len n))
  ]
  serve-none_left shrinks (suc fuel) w enough = elim (Option-cases (next (h.get w))) [
    | inl n ↦ rw (n, serve) n
    | inr ((out, len), n) ↦
        let w' = handle out len w in
        rw (n, serve)
          (serve-none_left shrinks fuel (h.put (consume len (h.get w')) w') (
            omega (
              arith,
              next-cases (h.get w) out len n,
              length-consume len (h.get w'),
              shrinks out len w,
              ap (λ (b : StreamBuffer). length b.bytes) (h.get-put (consume len (h.get w')) w'),
            )))
  ]

  -- `act m` is what handling the message `m`, whose bytes are `wire m`, does to the object.
  module _ {M : Type 0} (wire : M → Bytes) (P : M → Type 0) (act : M → W → W)
      (frame : (m : M) → P m → Frame (wire m))
      (handled : (m : M) (rest : Bytes) (w : W)
        → P m
        → handle (wire m ++ rest) (length (wire m)) (h.put (buffer (wire m ++ rest)) w)
          ≡ h.put (buffer (wire m ++ rest)) (act m w)) where
    serve-message :
        (fuel : ℕ) (m : M) (rest : Bytes) (w : W)
        → P m
        → serve h handle (suc fuel) (h.put (buffer (wire m ++ rest)) w)
          ≡ serve h handle fuel (h.put (buffer rest) (act m w))
    serve-message fuel m rest w p =
        serve-step fuel (length (wire m)) (wire m ++ rest) (h.put (buffer (wire m ++ rest)) w)
          (h.put (buffer (wire m ++ rest)) (act m w))
          (ap next (h.get-put (buffer (wire m ++ rest)) w) ∙ next-Frame (wire m) rest (frame m p))
          (handled m rest w p)
        ∙ ap (serve h handle fuel) (
            ap (λ (b : StreamBuffer). h.put b (h.put (buffer (wire m ++ rest)) (act m w)))
              (ap (consume (length (wire m))) (h.get-put (buffer (wire m ++ rest)) (act m w))
                ∙ consume-append (wire m) rest)
            ∙ h.put-put (buffer rest) (buffer (wire m ++ rest)) (act m w))

    -- Whole messages at the front are handled in order; then the loop goes on with what is behind.
    serve-messages :
        (fuel : ℕ) (ms : List M) (rest : Bytes) (w : W)
        → All P ms
        → length ms ≤ fuel
        → serve h handle fuel (h.put (buffer (all_wires wire ms ++ rest)) w)
          ≡ serve h handle (fuel - length ms) (h.put (buffer rest) (act_all act ms w))
    serve-messages fuel [] rest w all enough =
        ap (λ (f : ℕ). serve h handle f (h.put (buffer rest) w)) (omega arith)
    serve-messages zero (m ∷ ms) rest w all enough = absurd (omega arith)
    serve-messages (suc fuel) (m ∷ ms) rest w (p, all) enough =
        ap (λ (bs : Bytes). serve h handle (suc fuel) (h.put (buffer bs) w))
          (append_assoc (wire m) (all_wires wire ms) rest)
        ∙ serve-message fuel m (all_wires wire ms ++ rest) w p
        ∙ serve-messages fuel ms rest (act m w) all (omega arith)
        ∙ ap (λ (f : ℕ). serve h handle f (h.put (buffer rest) (act_all act ms (act m w))))
            (omega arith)

    length-all_wires :
        (ms : List M) (rest : Bytes)
        → All P ms
        → length ms + length rest ≤ length (all_wires wire ms ++ rest)
    length-all_wires [] rest all = omega arith
    length-all_wires (m ∷ ms) rest (p, all) = omega (
      arith,
      length-all_wires ms rest all,
      (frame m p).least,
      ap (length {0}) (append_assoc (wire m) (all_wires wire ms) rest),
      length-append (wire m) (all_wires wire ms ++ rest),
    )

    -- Where less than a message follows, it is kept.
    pub serve-whole :
        (ms : List M) (tail : Bytes) (w : W)
        → All P ms
        → next (buffer tail) ≡ none
        → serve h handle
            (length (all_wires wire ms ++ tail))
            (h.put (buffer (all_wires wire ms ++ tail)) w)
          ≡ h.put (buffer tail) (act_all act ms w)
    serve-whole ms tail w all n =
        serve-messages _ ms tail w all (omega (arith, length-all_wires ms tail all))
        ∙ serve-none _ (h.put (buffer tail) (act_all act ms w))
            (ap next (h.get-put (buffer tail) (act_all act ms w)) ∙ n)

    -- Where something follows on which the handler empties the buffer, the loop ends with that.
    pub serve-broken :
        (ms : List M) (bad out : Bytes) (len : ℕ) (w w' : W)
        → All P ms
        → next (buffer bad) ≡ some (out, len)
        → handle out len (h.put (buffer bad) (act_all act ms w)) ≡ w'
        → h.get w' ≡ empty
        → serve h handle
            (length (all_wires wire ms ++ bad))
            (h.put (buffer (all_wires wire ms ++ bad)) w)
          ≡ h.put empty w'
    serve-broken ms bad out len w w' all n dropped emptied =
        serve-messages _ ms bad w all (omega (arith, length-all_wires ms bad all))
        ∙ ap (λ (f : ℕ). serve h handle f (h.put (buffer bad) (act_all act ms w))) more
        ∙ serve-step left len out (h.put (buffer bad) (act_all act ms w)) w'
            (ap next (h.get-put (buffer bad) (act_all act ms w)) ∙ n) dropped
        ∙ ap (λ (b : StreamBuffer). serve h handle left (h.put b w'))
            (ap (consume len) emptied ∙ consume-empty len)
        ∙ serve-none left (h.put empty w') (ap next (h.get-put empty w') ∙ next-empty)
      where
        left : ℕ
        left = length (all_wires wire ms ++ bad) - length ms - 1

        more : length (all_wires wire ms ++ bad) - length ms ≡ suc left
        more = omega (arith, length-all_wires ms bad all, next-cases (buffer bad) out len n)
