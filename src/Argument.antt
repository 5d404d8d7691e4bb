-- ===== src/Argument.antt =====
-- How the programs read a number from an argument: `std::from_chars` in base 10 as the C++ standard
-- describes it, and the test behind it in termd/main.cpp, term_gui/main.cpp and
-- tools/msggen/main.cpp. An argument is its bytes up to the NUL.
pub mod Decimal
use fleetcore.Prelude.{
  ℕ, zero, suc, ◌+◌, ◌-◌, ◌*◌, ◌^◌, Bool, true, false, not, ◌||◌, Option, none, some, List, [], ◌∷◌,
  ◌==◌, ltb, leb, if◌then◌else◌, length,
}
use fleetcore.Bytes.{Bytes}

pub data Errc : Type 0 where
  no_error invalid_argument result_out_of_range : Errc

abbrev pub is_no_error : Errc → Bool
is_no_error no_error = true
is_no_error _ = false

pub data ℤ : Type 0 where
  pos negsuc : ℕ → ℤ

-- The number with this magnitude.
abbrev pub signed : Bool → ℕ → ℤ
signed true (suc n) = negsuc n
signed _ n = pos n

abbrev pub is_positive : ℤ → Bool
is_positive (pos n) = ltb 0 n
is_positive (negsuc n) = false

-- The result of from_chars, `ptr` as the bytes from the place that it points at, with the out
-- parameter.
pub record FromChars (A : Type 0) : Type 0 where
  pub ec : Errc
  pub ptr : Bytes
  pub value : A

abbrev pub is_digit : ℕ → Bool
is_digit c = not (ltb c b'0' || ltb b'9' c)

-- The longest run of digits at the front, and what follows it.
unfoldable pub digits : Bytes → Bytes × Bytes
digits [] = ([], [])
digits (c ∷ cs) = let (ds, rest) = digits cs in if is_digit c then (c ∷ ds, rest) else ([], c ∷ cs)

-- The number that digits write, behind the number `n`.
unfoldable pub number : Bytes → ℕ → ℕ
number [] n = n
number (c ∷ cs) n = number cs (n * 10 + (c - b'0'))

unfoldable pub from_chars_uint16 : Bytes → ℕ → FromChars ℕ
from_chars_uint16 first out =
    let (ds, rest) = digits first in
    if length ds == 0
    then record { ec = invalid_argument; ptr = first; value = out }
    else if leb (2 ^ 16) (number ds 0)
    then record { ec = result_out_of_range; ptr = rest; value = out }
    else record { ec = no_error; ptr = rest; value = number ds 0 }

-- The digits of a number with the sign before it.
abbrev pub from_digits : Bool → Bytes → Bytes → ℤ → FromChars ℤ
from_digits negative first text out =
    let (ds, rest) = digits text in
    let limit = if negative then 2 ^ 31 + 1 else 2 ^ 31 in
    if length ds == 0
    then record { ec = invalid_argument; ptr = first; value = out }
    else if leb limit (number ds 0)
    then record { ec = result_out_of_range; ptr = rest; value = out }
    else record { ec = no_error; ptr = rest; value = signed negative (number ds 0) }

unfoldable pub from_chars_int32 : Bytes → ℤ → FromChars ℤ
from_chars_int32 [] out = from_digits false [] [] out
from_chars_int32 (c ∷ cs) out =
    if c == b'-' then from_digits true (c ∷ cs) cs out else from_digits false (c ∷ cs) (c ∷ cs) out

abbrev pub magnitude : ℤ → ℕ
magnitude (pos n) = n
magnitude (negsuc n) = 0

-- The slot in an argument: `none` is the return with "slot must be a positive number".
unfoldable pub read_slot : ℤ → Bytes → Option ℕ
unfolding from_chars_int32
read_slot slot arg =
    let res = from_chars_int32 arg slot in
    if not (is_no_error res.ec) || not (length res.ptr == 0) || not (is_positive res.value)
    then none
    else some (magnitude res.value)

-- The number in an argument of msggen: `none` is the return with "seq must be a number in 0..65535".
unfoldable pub read_seq : ℕ → Bytes → Option ℕ
unfolding from_chars_uint16
read_seq seq arg =
    let res = from_chars_uint16 arg seq in
    if not (is_no_error res.ec) || not (length res.ptr == 0) then none else some res.value
