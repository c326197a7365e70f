-- ===== src/Std/Numbers.antt =====
-- `std::stoi` and `std::to_string` on an `int` of 32 bits.
pub mod Decimal
use raddish.Base.{
  ℕ, zero, suc, ◌+◌, ◌-◌, ◌*◌, ◌/◌, ◌%◌, ◌^◌, Bool, true, false, ◌&&◌, ◌||◌, List, [], ◌∷◌, ◌++◌,
  Bytes, ltb, leb, ◌==◌, if◌then◌else◌, ℤ, pos, negsuc,
}

pub data Exception : Type 0 where
  invalid_argument out_of_range : Exception
  runtime_error : Bytes → Exception

-- The result of a conversion.
pub data Converted : Type 0 where
  value : ℤ → Converted
  thrown : Exception → Converted

-- `isspace` in the C locale.
abbrev pub is_space : ℕ → Bool
is_space c = c == 32 || (leb 9 c && leb c 13)

abbrev pub is_digit : ℕ → Bool
is_digit c = leb b'0' c && leb c b'9'

unfoldable pub skip_space : Bytes → Bytes
skip_space [] = []
skip_space (c ∷ cs) = let rest = skip_space cs in if is_space c then rest else c ∷ cs

-- The longest prefix of digits.
unfoldable pub digits_prefix : Bytes → Bytes
digits_prefix [] = []
digits_prefix (c ∷ cs) = let rest = digits_prefix cs in if is_digit c then c ∷ rest else []

unfoldable pub decimal : ℕ → Bytes → ℕ
decimal acc [] = acc
decimal acc (c ∷ cs) = decimal (acc * 10 + (c - b'0')) cs

-- -n
abbrev pub negate : ℕ → ℤ
negate zero = pos 0
negate (suc n) = negsuc n

-- The range of an `int`.
abbrev pub int_limit : ℕ
int_limit = 2 ^ 31

abbrev pub in_range : Bool → ℕ → Converted
in_range true n = if leb n int_limit then value (negate n) else thrown out_of_range
in_range false n = if ltb n int_limit then value (pos n) else thrown out_of_range

abbrev pub convert : Bool → Bytes → Converted
convert negative [] = thrown invalid_argument
convert negative (d ∷ ds) = in_range negative (decimal 0 (d ∷ ds))

unfoldable pub signed : Bytes → Converted
unfolding digits_prefix decimal
signed [] = thrown invalid_argument
signed (c ∷ cs) =
    if c == b'-'
    then convert true (digits_prefix cs)
    else if c == b'+'
    then convert false (digits_prefix cs)
    else convert false (digits_prefix (c ∷ cs))

-- Blanks, a sign, and digits up to the first byte that is none; what follows is ignored.
unfoldable pub stoi : Bytes → Converted
unfolding skip_space signed
stoi s = signed (skip_space s)

-- The decimal digits of a number, on fuel; see Decimal for how much is enough.
unfoldable pub digits : ℕ → ℕ → Bytes
digits zero n = []
digits (suc fuel) n =
    let rest = digits fuel (n / 10) ++ (b'0' + n % 10) ∷ [] in
    if ltb n 10 then (b'0' + n) ∷ [] else rest

unfoldable pub to_string : ℤ → Bytes
unfolding digits
to_string (pos n) = digits (suc n) n
to_string (negsuc n) = b'-' ∷ digits (suc (suc n)) (suc n)
