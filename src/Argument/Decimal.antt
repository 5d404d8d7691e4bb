-- ===== src/Argument/Decimal.antt =====
-- Which arguments are numbers.
use native.Mathlib.Nat.{pow-suc}
use fleetcore.Prelude.{
  ℕ, zero, suc, ◌+◌, ◌-◌, ◌*◌, ◌^◌, ◌≤◌, ◌<◌, ◌≡◌, ◌↔◌, refl, ap, sym, ◌∙◌, true, false, some, [],
  ◌∷◌, arith, length, Bool-cases, inl, inr,
}
use fleetcore.Argument.{
  ℤ, pos, digits, is_digit, number, from_chars_uint16, from_chars_int32, from_digits, signed,
  is_positive, read_slot, read_seq,
}
use fleetcore.Bytes.{Bytes}

abbrev pub AllDigits : Bytes → Type 0
AllDigits [] = Unit {0}
AllDigits (c ∷ cs) = ((b'0' ≤ c) × (c ≤ b'9')) × AllDigits cs

-- The number that digits write, each with the power of ten of its place.
abbrev pub decimal : Bytes → ℕ
decimal [] = 0
decimal (c ∷ cs) = (c - b'0') * 10 ^ length cs + decimal cs

digits-AllDigits : (bs : Bytes) → AllDigits bs → digits bs ≡ (bs, [])
unfolding digits
digits-AllDigits [] d = refl
digits-AllDigits (c ∷ cs) (digit, d) = rw (digits-AllDigits cs d, digits) (ground arith)

no_length : (bs : Bytes) → length bs ≡ 0 → bs ≡ []
no_length [] e = refl
no_length (c ∷ cs) e = absurd (omega arith)

digits_all : (bs : Bytes) → length (digits bs).1 ≡ 0 → AllDigits bs
unfolding digits
digits_all [] e = tt
digits_all (c ∷ cs) e = elim (Bool-cases (is_digit c)) [
  | inl yes_digit ↦ (ground arith, digits_all cs (ground arith))
  | inr no_digit ↦ absurd (ground arith)
]

scale : (a d p : ℕ) → (a * 10 + d) * p ≡ a * (10 * p) + d * p
scale a d p = grind arith

number-decimal : (bs : Bytes) (n : ℕ) → number bs n ≡ n * 10 ^ length bs + decimal bs
unfolding number
number-decimal [] n = omega arith
number-decimal (c ∷ cs) n =
    number-decimal cs (n * 10 + (c - b'0'))
    ∙ omega
        (arith, scale n (c - b'0') (10 ^ length cs), ap (λ (p : ℕ). n * p) (pow-suc 10 (length cs)))

read_number : (ds : Bytes) → AllDigits ds → number ds 0 ≡ decimal ds
read_number ds d = number-decimal ds 0 ∙ omega arith

nonempty : (arg : Bytes) → 0 < decimal arg → 0 < length arg
nonempty [] h = h
nonempty (c ∷ cs) h = omega arith

read_seq_inv :
    (seq : ℕ) (arg : Bytes) (n : ℕ)
    → read_seq seq arg ≡ some n
    → (length (digits arg).1 ≡ 0)
      × (0 < length (digits arg).0)
      × (number (digits arg).0 0 ≡ n)
      × (n < 2 ^ 16)
unfolding read_seq from_chars_uint16
read_seq_inv slot arg n e = ground arith

-- An argument is read as a sequence number exactly if it is one or more digits, and nothing else,
-- that write a number below 65536; then that number is read.
pub read_seq_iff :
    (seq : ℕ) (arg : Bytes) (n : ℕ)
    → (read_seq seq arg ≡ some n)
      ↔ (AllDigits arg × (0 < length arg) × (decimal arg ≡ n) × (n < 2 ^ 16))
unfolding read_seq from_chars_uint16
read_seq_iff seq arg n = (
  (λ e.
      let (ended, least, is, fits) = read_seq_inv seq arg n e in
      let d = digits_all arg ended in
      let all = digits-AllDigits arg d in
      (
        d,
        ground (arith, all),
        sym (read_number arg d) ∙ ap (λ (p : Bytes × Bytes). number p.0 0) (sym all) ∙ is,
        fits,
      )),
  (λ (d, least, is, fits). rw (digits-AllDigits arg d) (ground (arith, read_number arg d))),
)

int32_digits :
    (arg : Bytes) (slot : ℤ)
    → AllDigits arg
    → from_chars_int32 arg slot ≡ from_digits false arg arg slot
unfolding from_chars_int32
int32_digits [] slot d = refl
int32_digits (c ∷ cs) slot d = ground arith

minus : (n : ℕ) → is_positive (signed true n) ≡ false
minus zero = refl
minus (suc n) = refl

plus : (n : ℕ) → signed false n ≡ pos n
plus n = refl

read_slot_inv :
    (slot : ℤ) (arg : Bytes) (n : ℕ)
    → read_slot slot arg ≡ some n
    → (length (digits arg).1 ≡ 0)
      × (0 < length (digits arg).0)
      × (number (digits arg).0 0 ≡ n)
      × (0 < n)
      × (n < 2 ^ 31)
unfolding read_slot from_chars_int32
read_slot_inv slot [] n e = ground arith
read_slot_inv slot (c ∷ cs) n e = ground (arith, minus (number (digits cs).0 0))

-- An argument is read as a slot exactly if it is digits, and nothing else, that write a positive
-- number below 2 ^ 31; then that number is read.
pub read_slot_iff :
    (slot : ℤ) (arg : Bytes) (n : ℕ)
    → (read_slot slot arg ≡ some n) ↔ (AllDigits arg × (decimal arg ≡ n) × (0 < n) × (n < 2 ^ 31))
unfolding read_slot
read_slot_iff slot arg n = (
  (λ e.
      let (ended, least, is, more, fits) = read_slot_inv slot arg n e in
      let d = digits_all arg ended in
      let all = digits-AllDigits arg d in
      (
        d,
        sym (read_number arg d) ∙ ap (λ (p : Bytes × Bytes). number p.0 0) (sym all) ∙ is,
        more,
        fits,
      )),
  (λ (d, is, more, fits).
      rw (int32_digits arg slot d, read_slot)
        (rw (digits-AllDigits arg d, read_slot) (ground (arith, read_number arg d, nonempty arg)))),
)
