-- ===== src/Msggen.antt =====
-- tools/msggen/main.cpp: a lock request on stdout. The arguments are a list of which the first is the
-- program's name; what `main` prints to stderr is left out.
use mathlib.Core.Option.{some-injective, some-ne-none}
use fleetcore.Prelude.{
  ℕ, ◌^◌, ◌<◌, ◌≡◌, ◌↔◌, Bool-cases, Option-cases, ◌⊎◌, inl, inr, refl, ap, sym, ◌∙◌, not, Option,
  none, some, List, [], ◌∷◌, ◌==◌, if◌then◌else◌, length, take, drop, arith, take-length-append,
}
use fleetcore.Argument.{read_seq}
use fleetcore.Argument.Decimal.{AllDigits, decimal, read_seq_iff}
use fleetcore.Bytes.{Bytes, Endian, byte_at}
use fleetcore.Proto.{TermNo, max_message_len}
use fleetcore.Wire.{make_lock_request, pack_lock_request}
use fleetcore.Wire.Layout.{lock_request_wire, pack_lock_request-wire}

-- `argv[1]` as the `char term_no[4]` of make_lock_request.
abbrev pub term_no_at : Bytes → TermNo
term_no_at arg = record {
  c0 = byte_at arg 0;
  c1 = byte_at arg 1;
  c2 = byte_at arg 2;
  c3 = byte_at arg 3;
}

-- The exit status and what is handed to `write`, if it is called.
pub record Outcome : Type 0 where
  pub status : ℕ
  pub handed : Option Bytes

-- The sequence number that the arguments behind the terminal's name: 1 where there is none.
abbrev pub Names : List Bytes → ℕ → Type 0
Names [] seq = seq ≡ 1
Names (arg ∷ args) seq = AllDigits arg × (0 < length arg) × (decimal arg ≡ seq) × (seq < 2 ^ 16)

-- The arguments name a terminal and a sequence number.
pub record Named (argv : List Bytes) : Type 0 where
  pub program : Bytes
  pub term : Bytes
  pub args : List Bytes
  pub seq : ℕ
  pub argv_is : argv ≡ program ∷ term ∷ args
  pub four : length term ≡ 4
  pub names : Names args seq

-- The request that they name.
abbrev pub wire_of : {argv : List Bytes} → ℕ → Named argv → Bytes
wire_of now n = lock_request_wire (make_lock_request now (term_no_at n.term) n.seq)

module _ (e : Endian) (now : ℕ) (scratch : Bytes) (write : Bytes → Option ℕ) where
  -- The status for the answer of `write`, where `none` is -1.
  unfoldable pub after_write : ℕ → Option ℕ → ℕ
  after_write n none = 1
  after_write n (some written) = if not (written == n) then 1 else 0

  -- What follows the reading of the arguments; `scratch` is the buffer on the stack, `now` the clock.
  unfoldable emit : Bytes → Option ℕ → Outcome
  unfolding after_write
  emit term none = record { status = 1; handed = none }
  emit term (some seq) =
      let m = make_lock_request now (term_no_at term) seq in
      let (n, buf) = pack_lock_request e m scratch max_message_len in
      if n == 0
      then record { status = 1; handed = none }
      else record { status = after_write n (write (take n buf)); handed = some (take n buf) }

  -- The sequence number in the arguments behind the terminal's.
  unfoldable seq_argument : List Bytes → Option ℕ
  seq_argument [] = some 1
  seq_argument (arg ∷ args) = read_seq 1 arg

  unfoldable pub main : List Bytes → Outcome
  unfolding emit seq_argument
  main [] = record { status = 1; handed = none }
  main (program ∷ []) = record { status = 1; handed = none }
  main (program ∷ term ∷ args) =
      if not (length term == 4)
      then record { status = 1; handed = none }
      else emit term (seq_argument args)

  seq_argument_inv : (args : List Bytes) (seq : ℕ) → seq_argument args ≡ some seq → Names args seq
  unfolding seq_argument
  seq_argument_inv [] seq named = ground arith
  seq_argument_inv (arg ∷ args) seq named = (read_seq_iff 1 arg seq).0 named

  seq_argument_lem : (args : List Bytes) (seq : ℕ) → Names args seq → seq_argument args ≡ some seq
  unfolding seq_argument
  seq_argument_lem [] seq named = ap some (sym named)
  seq_argument_lem (arg ∷ args) seq named = (read_seq_iff 1 arg seq).1 named

  emit_hands :
      (term : Bytes) (seq : ℕ)
      → length scratch ≡ 1024
      → emit term (some seq) ≡ record {
        status =
            after_write 24
              (write (lock_request_wire (make_lock_request now (term_no_at term) seq)));
        handed = some (lock_request_wire (make_lock_request now (term_no_at term) seq));
      }
  unfolding emit
  emit_hands term seq size =
      let req = make_lock_request now (term_no_at term) seq in
      let packed = pack_lock_request-wire e req scratch 1024 (omega arith) (omega (arith, size)) in
      let front = take-length-append (lock_request_wire req) (drop 24 scratch) in
      rw (packed) (simp (front))

  main-Named :
      (argv : List Bytes)
      → length scratch ≡ 1024
      → (n : Named argv)
      → main argv
        ≡ record { status = after_write 24 (write (wire_of now n)); handed = some (wire_of now n) }
  unfolding main
  main-Named argv size n =
      ap main n.argv_is
      ∙ rw (n.four, seq_argument_lem n.args n.seq n.names) (emit_hands n.term n.seq size)

  abbrev NamedOrRefused : List Bytes → Type 0
  NamedOrRefused argv = Named argv ⊎ (main argv ≡ record { status = 1; handed = none })

  named_or_refused : (argv : List Bytes) → NamedOrRefused argv
  unfolding main emit
  named_or_refused [] = inr refl
  named_or_refused (program ∷ []) = inr refl
  named_or_refused (program ∷ term ∷ args) = elim (Bool-cases (length term == 4)) [
    | inr other ↦ inr (rw other)
    | inl four ↦ elim (Option-cases (seq_argument args)) [
      | inl bad ↦ inr (rw (four, bad))
      | inr (seq, read) ↦ inl (record {
        program = program;
        term = term;
        args = args;
        seq = seq;
        argv_is = refl;
        four = ground (arith, four);
        names = seq_argument_inv args seq read;
      })
    ]
  ]

  after_write_zero : (o : Option ℕ) → (after_write 24 o ≡ 0) ↔ (o ≡ some 24)
  unfolding after_write
  after_write_zero none = ((λ s. ground arith), (λ o. ground arith))
  after_write_zero (some n) = ((λ s. ground arith), (λ o. ground arith))

  -- msggen ends with 0 exactly if its arguments are a name, a terminal number of four characters and,
  -- if there is one more, decimal digits that write a number below 65536, and `write` takes the 24
  -- bytes of the lock request with that terminal number and that sequence number, or 1 without one;
  -- it hands these bytes to `write` exactly if the arguments are such.
  pub main_writes :
      (argv : List Bytes) (bs : Bytes)
      → length scratch ≡ 1024
      → (((main argv).status ≡ 0) ↔ ((n : Named argv) × (write (wire_of now n) ≡ some 24)))
        × (((main argv).handed ≡ some bs) ↔ ((n : Named argv) × (bs ≡ wire_of now n)))
  main_writes argv bs size = (
    (
      (λ s. elim (named_or_refused argv) [
        | inl n ↦ (
          n,
          (after_write_zero (write (wire_of now n))).0
              (sym (ap (λ (o : Outcome). o.status) (main-Named argv size n)) ∙ s),
        )
        | inr refused ↦ absurd (omega (arith, ap (λ (o : Outcome). o.status) refused, s))
      ]),
      (λ (n, takes).
          ap (λ (o : Outcome). o.status) (main-Named argv size n)
          ∙ (after_write_zero (write (wire_of now n))).1 takes),
    ),
    (
      (λ called. elim (named_or_refused argv) [
        | inl n ↦ (n, some-injective bs (wire_of now n) (sym called ∙ handed n))
        | inr refused ↦
            absurd (some-ne-none bs (sym called ∙ ap (λ (o : Outcome). o.handed) refused))
      ]),
      (λ (n, same). handed n ∙ ap some (sym same)),
    ),
  )
    where
      handed : (n : Named argv) → (main argv).handed ≡ some (wire_of now n)
      handed n = ap (λ (o : Outcome). o.handed) (main-Named argv size n)
