-- ===== src/Crud/Target.antt =====
-- The path of a CRUD request: `extract_elements` of src/crud_request_handler.cc, with its
-- regular expression `^/*([A-Za-z]+)/*(/(\d+))?$` as a function.
pub mod Form
pub mod Path
use raddish.Base.{
  ℕ, Bool, true, false, not, ◌&&◌, ◌||◌, List, [], ◌∷◌, Bytes, Option, none, some, leb, ◌==◌, equal,
  if◌then◌else◌, ℤ, pos,
}
use raddish.Std.Numbers.{Converted, value, thrown, is_digit, stoi}
use raddish.Std.Outcome.{Outcome, ok, throw}

-- `[A-Za-z]`
abbrev pub is_letter : ℕ → Bool
is_letter c = (leb b'A' c && leb c b'Z') || (leb b'a' c && leb c b'z')

-- What follows the slashes at the front.
unfoldable pub skip_slashes : Bytes → Bytes
skip_slashes [] = []
skip_slashes (c ∷ cs) = let rest = skip_slashes cs in if c == b'/' then rest else c ∷ cs

-- The letters at the front, and what follows them.
unfoldable pub letters : Bytes → Bytes
letters [] = []
letters (c ∷ cs) = let rest = letters cs in if is_letter c then c ∷ rest else []

unfoldable pub after_letters : Bytes → Bytes
after_letters [] = []
after_letters (c ∷ cs) = let rest = after_letters cs in if is_letter c then rest else c ∷ cs

unfoldable pub all_digits : Bytes → Bool
all_digits [] = true
all_digits (c ∷ cs) = is_digit c && all_digits cs

-- The groups of a match: the entity, and the digits if there are any.
abbrev pub Groups : Type 0
Groups = Bytes × Option Bytes

abbrev pub begins_with_slash : Bytes → Bool
begins_with_slash [] = false
begins_with_slash (c ∷ cs) = c == b'/'

-- `(/(\d+))?$`, on what follows all slashes, of which there is at least one or not.
unfoldable pub digits_group : Bytes → Bool → Bytes → Option Groups
unfolding all_digits
digits_group entity slash [] = some (entity, none)
digits_group entity slash (d ∷ ds) =
    if slash && all_digits (d ∷ ds) then some (entity, some (d ∷ ds)) else none

-- `/*(/(\d+))?$`, on what follows the entity: the digits stand behind at least one slash.
unfoldable pub id_group : Bytes → Bytes → Option Groups
unfolding skip_slashes digits_group
id_group entity rest = digits_group entity (begins_with_slash rest) (skip_slashes rest)

-- `([A-Za-z]+)` and what follows.
abbrev pub entity_group : Bytes → Bytes → Option Groups
entity_group [] rest = none
entity_group (c ∷ cs) rest = id_group (c ∷ cs) rest

-- `std::regex_search(relative_path, matches, pattern)`
unfoldable pub search_path : Bytes → Option Groups
unfolding skip_slashes letters after_letters
search_path relative_path =
    let rest = skip_slashes relative_path in entity_group (letters rest) (after_letters rest)

abbrev pub with_id : Bytes → Converted → Outcome (Option (Bytes × ℤ))
with_id entity (value id) = ok (some (entity, id))
with_id entity (thrown e) = throw e

abbrev pub elements_of : Option Groups → Outcome (Option (Bytes × ℤ))
elements_of none = ok none
elements_of (some (entity, none)) = ok (some (entity, pos 0))
elements_of (some (entity, some digits)) = with_id entity (stoi digits)

-- `extract_elements`: `none` for a path of another form; a number that is no int throws.
unfoldable pub extract_elements : Bytes → Outcome (Option (Bytes × ℤ))
unfolding search_path
extract_elements relative_path = elements_of (search_path relative_path)
