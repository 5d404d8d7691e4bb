-- ===== src/StreamBuffer/Invariant.antt =====
-- What the loop over the messages in an object's buffer keeps of the object.
use fleetcore.Prelude.{ℕ, zero, suc, ◌≡◌, refl, ◌∙◌, some, inl, inr, Option-cases}
use fleetcore.Bytes.{Bytes}
use fleetcore.StreamBuffer.{StreamBuffer, next, consume}
use fleetcore.StreamBuffer.Serve.{Holds, serve}

module _ {W : Type 0} (h : Holds W) (handle : Bytes → ℕ → W → W) where
  -- An invariant that each message handed over keeps, and the taking away of it.
  pub serve-invariant :
      (P : W → Type 0)
      → ((out : Bytes) (len : ℕ) (w : W)
          → next (h.get w) ≡ some (out, len)
          → P w
          → P (handle out len w))
      → ((len : ℕ) (w : W) → P w → P (h.put (consume len (h.get w)) w))
      → (fuel : ℕ) (w : W) → P w
      → P (serve h handle fuel w)
  unfolding serve
  serve-invariant P keeps taken zero w p = p
  serve-invariant P keeps taken (suc fuel) w p = elim (Option-cases (next (h.get w))) [
    | inl n ↦ rw (n, serve) p
    | inr ((out, len), n) ↦
        let w' = handle out len w in
        rw (n, serve)
          (serve-invariant P keeps taken fuel (h.put (consume len (h.get w')) w')
            (taken len w' (keeps out len w n p)))
  ]

  -- What the handler and a new buffer leave alone, the loop does.
  pub serve-kept :
      {V : Type 0} (f : W → V)
      → ((out : Bytes) (len : ℕ) (w : W) → f (handle out len w) ≡ f w)
      → ((b : StreamBuffer) (w : W) → f (h.put b w) ≡ f w)
      → (fuel : ℕ) (w : W) → f (serve h handle fuel w) ≡ f w
  serve-kept f keeps put_keeps fuel w =
      serve-invariant (λ v. f v ≡ f w) (λ out len v n p. keeps out len v ∙ p)
        (λ len v p. put_keeps (consume len (h.get v)) v ∙ p) fuel w refl
