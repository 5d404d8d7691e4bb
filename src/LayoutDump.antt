-- ===== src/LayoutDump.antt =====
-- common/layout_dump.cpp: where the fields of a struct stand, and the bytes between them. `lines` is
-- what is printed; the offsets and sizes are those that the compiler gives to offsetof and sizeof.
use Prim.Native.String.{String}
use fleetcore.Prelude.{
  ℕ, ◌+◌, ◌-◌, ◌%◌, ◌^◌, ◌<◌, ◌≡◌, ◌≢◌, ◌↔◌, subst, sym, refl, Bool, true, false, not, List, [],
  ◌∷◌, ◌++◌, ◌==◌, if◌then◌else◌, arith, Bool-cases, inl, inr,
}

pub data Line : Type 0 where
  heading : (name : String) (total : ℕ) → Line
  row : (name : String) (offset size gap : ℕ) (padding : Bool) → Line
  tail_row : (gap : ℕ) → Line

-- A field as DUMP_FIELD passes it on.
pub record Field : Type 0 where
  pub name : String
  pub offset : ℕ
  pub size : ℕ

-- The difference of two `std::size_t`.
abbrev minus : ℕ → ℕ → ℕ
minus a b = (a + 2 ^ 64 - b) % 2 ^ 64

-- `begin` sets `g_prev_end` to 0; each `field` prints a line and moves it; `end` may print a last one.
unfoldable pub begin : String → ℕ → List Line × ℕ
begin name total = (heading name total ∷ [], 0)

unfoldable pub field : Field → ℕ → Line × ℕ
field f prev_end =
    let gap = minus f.offset prev_end in
    (row f.name f.offset f.size gap (not (gap == 0)), (f.offset + f.size) % 2 ^ 64)

unfoldable pub end_lines : ℕ → ℕ → List Line
end_lines total prev_end =
    let tail = minus total prev_end in if not (tail == 0) then tail_row tail ∷ [] else []

unfoldable pub field_lines : List Field → ℕ → ℕ → List Line
unfolding field end_lines
field_lines [] total prev_end = end_lines total prev_end
field_lines (f ∷ fs) total prev_end =
    let (line, now) = field f prev_end in line ∷ field_lines fs total now

-- The lines for one struct.
unfoldable pub dump : String → ℕ → List Field → List Line
unfolding begin field_lines
dump name total fields =
    let (lines, prev_end) = begin name total in lines ++ field_lines fields total prev_end

-- The four structs of `main`, where `#pragma pack(1)` is in effect.
abbrev pub header_fields : List Field
header_fields =
    record { name = "magic"; offset = 0; size = 2 }
    ∷ record { name = "version"; offset = 2; size = 1 }
    ∷ record { name = "code"; offset = 3; size = 1 }
    ∷ record { name = "length"; offset = 4; size = 2 }
    ∷ record { name = "seq"; offset = 6; size = 2 }
    ∷ record { name = "timestamp"; offset = 8; size = 8 }
    ∷ record { name = "reserved"; offset = 16; size = 4 }
    ∷ []

abbrev pub lock_request_fields : List Field
lock_request_fields =
    record { name = "header"; offset = 0; size = 20 }
    ∷ record { name = "term_no"; offset = 20; size = 4 }
    ∷ []

abbrev pub lock_response_fields : List Field
lock_response_fields =
    record { name = "header"; offset = 0; size = 20 }
    ∷ record { name = "term_no"; offset = 20; size = 4 }
    ∷ record { name = "result"; offset = 24; size = 1 }
    ∷ record { name = "reserved"; offset = 25; size = 3 }
    ∷ []

abbrev pub term_entry_fields : List Field
term_entry_fields =
    record { name = "term_no"; offset = 0; size = 4 }
    ∷ record { name = "capabilities"; offset = 4; size = 4 }
    ∷ record { name = "state"; offset = 8; size = 1 }
    ∷ record { name = "reserved"; offset = 9; size = 3 }
    ∷ record { name = "last_seen"; offset = 12; size = 8 }
    ∷ []

unfoldable pub main : List Line
unfolding dump
main =
    dump "Header" 20 header_fields
    ++ (dump "LockRequest" 24 lock_request_fields
        ++ (dump "LockResponse" 28 lock_response_fields ++ dump "TermEntry" 20 term_entry_fields))

-- The lines that tell of padding.
abbrev pub tells : List Line → List Line
tells [] = []
tells (heading name total ∷ ls) = tells ls
tells (row name offset size gap true ∷ ls) = row name offset size gap true ∷ tells ls
tells (row name offset size gap false ∷ ls) = tells ls
tells (tail_row gap ∷ ls) = tail_row gap ∷ tells ls

-- The fields follow each other from `from` on without a gap and end at `total`.
abbrev pub IsPacked : List Field → ℕ → ℕ → Type 0
IsPacked [] total from = from ≡ total
IsPacked (f ∷ fs) total from = (f.offset ≡ from) × IsPacked fs total (f.offset + f.size)

-- The fields end in an address space of 64 bits.
abbrev pub Fit : List Field → Type 0
Fit [] = Unit {0}
Fit (f ∷ fs) = (f.offset + f.size < 2 ^ 64) × Fit fs

not_nil : (l : Line) (ls : List Line) → (l ∷ ls) ≢ []
not_nil l ls e = ground arith

field_lines_iff :
    (fs : List Field) (total from : ℕ)
    → Fit fs
    → total < 2 ^ 64
    → from < 2 ^ 64
    → (tells (field_lines fs total from) ≡ []) ↔ IsPacked fs total from
unfolding field_lines end_lines field
field_lines_iff [] total from fit small here = elim (Bool-cases (minus total from == 0)) [
  | inl same ↦ rw same ((λ t. ground (arith, same)), (λ e. refl))
  | inr gap ↦ rw gap (
    (λ t. absurd (not_nil (tail_row (minus total from)) [] t)),
    (λ e. absurd (ground (arith, gap, e))),
  )
]
field_lines_iff (f ∷ fs) total from (fits, fit) small here =
    let now = (f.offset + f.size) % 2 ^ 64 in
    let ends : now ≡ f.offset + f.size = omega arith in
    let later = field_lines_iff fs total now fit small (omega arith) in
    elim (Bool-cases (minus f.offset from == 0)) [
      | inl same ↦ rw same (
        (λ t. (ground (arith, same), subst (IsPacked fs total) ends (later.0 t))),
        (λ p. later.1 (subst (IsPacked fs total) (sym ends) p.1)),
      )
      | inr gap ↦ rw gap (
        (λ t. absurd (
            not_nil (row f.name f.offset f.size (minus f.offset from) true)
              (tells (field_lines fs total now)) t)),
        (λ p. absurd (ground (arith, gap, p.0))),
      )
    ]

-- The dump of a struct tells of no padding, between the fields or behind them, exactly if they follow
-- each other from 0 without a gap and end where the struct does, for a struct in an address space
-- of 64 bits.
pub dump-tells :
    (name : String) (total : ℕ) (fields : List Field)
    → Fit fields
    → total < 2 ^ 64
    → (tells (dump name total fields) ≡ []) ↔ IsPacked fields total 0
unfolding dump begin
dump-tells name total fields fit small = field_lines_iff fields total 0 fit small (omega arith)
