-- ===== src/Std/Regex.antt =====
-- What the program uses of `std::regex`: which texts an expression describes, and whether a text
-- has a part that it describes (`regex_search`), by derivatives.
pub mod Sound
use raddish.Base.{ℕ, Bool, true, false, not, ◌&&◌, ◌||◌, List, [], ◌∷◌, ◌++◌, Bytes, ◌==◌, ◌≡◌, ◌⊎◌}

pub data Regex : Type 0 where
  fails : Regex
  empty : Regex
  char : (ℕ → Bool) → Regex
  seq : Regex → Regex → Regex
  alt : Regex → Regex → Regex
  star : Regex → Regex

-- A text that is made of parts of this kind.
pub data Repeats (P : Bytes → Type 0) : Bytes → Type 0 where
  done : {s : Bytes} → s ≡ [] → Repeats P s
  more : {s : Bytes} (xs ys : Bytes) → s ≡ xs ++ ys → P xs → Repeats P ys → Repeats P s

-- The texts that an expression describes.
abbrev pub Matches : Regex → Bytes → Type 0
Matches fails s = ⊥
Matches empty s = s ≡ []
Matches (char p) s = (c : ℕ) × (s ≡ c ∷ []) × (p c ≡ true)
Matches (seq q r) s = (xs : Bytes) × (ys : Bytes) × (s ≡ xs ++ ys) × Matches q xs × Matches r ys
Matches (alt q r) s = Matches q s ⊎ Matches r s
Matches (star r) s = Repeats (Matches r) s

abbrev pub nullable : Regex → Bool
nullable fails = false
nullable empty = true
nullable (char p) = false
nullable (seq q r) = nullable q && nullable r
nullable (alt q r) = nullable q || nullable r
nullable (star r) = true

-- `alt` and `seq` without parts that describe nothing.
abbrev pub alt_right : Regex → Regex → Regex
alt_right q fails = q
alt_right q r = alt q r

abbrev pub either : Regex → Regex → Regex
either fails r = r
either q r = alt_right q r

abbrev pub both : Regex → Regex → Regex
both fails r = fails
both empty r = r
both q r = seq q r

abbrev pub when : Bool → Regex → Regex
when true r = r
when false r = fails

-- What an expression asks of the text behind a byte.
abbrev pub derivative : ℕ → Regex → Regex
derivative c fails = fails
derivative c empty = fails
derivative c (char p) = when (p c) empty
derivative c (seq q r) = either (both (derivative c q) r) (when (nullable q) (derivative c r))
derivative c (alt q r) = either (derivative c q) (derivative c r)
derivative c (star r) = both (derivative c r) (star r)

-- `regex_match`
unfoldable pub regex_match : Regex → Bytes → Bool
regex_match r [] = nullable r
regex_match r (c ∷ s) = regex_match (derivative c r) s

abbrev pub anything : Regex
anything = star (char (λ _. true))

-- `regex_search`
unfoldable pub regex_search : Regex → Bytes → Bool
unfolding regex_match
regex_search r s = regex_match (seq anything (seq r anything)) s

-- A literal, and `.` of an extended expression, which is any byte but NUL.
abbrev pub literal : Bytes → Regex
literal [] = empty
literal (c ∷ cs) = seq (char (λ x. x == c)) (literal cs)

abbrev pub is_any : ℕ → Bool
is_any c = not (c == 0)

abbrev pub dot : Regex
dot = char is_any

abbrev pub plus : Regex → Regex
plus r = seq r (star r)
