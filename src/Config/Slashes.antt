-- ===== src/Config/Slashes.antt =====
-- The loops of src/config_parser.cc that remove the slashes at the end of a location.
-- On an empty string they read `s[s.length() - 1]`, which is the byte before the string: the
-- standard leaves it undefined, and the model takes that byte as the parameter `stray`.
pub mod Trim
use raddish.Base.{
  ℕ, zero, suc, ◌-◌, Bool, true, false, ◌||◌, List, [], ◌∷◌, Bytes, Option, none, some, ◌==◌, equal,
  length, take,
}

-- `s[s.length() - 1]`
unfoldable pub last_char : ℕ → Bytes → ℕ
last_char stray [] = stray
last_char stray (c ∷ []) = c
last_char stray (c ∷ d ∷ cs) = last_char stray (d ∷ cs)

-- `find(seen_locations.begin(), seen_locations.end(), key) != seen_locations.end()`
unfoldable pub contains : List Bytes → Bytes → Bool
unfolding equal
contains [] key = false
contains (x ∷ xs) key = equal x key || contains xs key

-- The loop of `hasKey`, on fuel; `none` means that the fuel ran out.
unfoldable pub trim_loop : ℕ → ℕ → Bytes → Option Bytes
unfolding last_char
trim_loop stray zero key = none
trim_loop stray (suc fuel) key = elim (last_char stray key == b'/') [
  | true ↦ trim_loop stray fuel (take (length key - 1) key)
  | false ↦ some key
]

abbrev seen_in : List Bytes → Option Bytes → Option Bool
seen_in seen none = none
seen_in seen (some key) = some (contains seen key)

-- `hasKey`. Each round of its loop takes a byte off the key.
unfoldable pub has_key : ℕ → List Bytes → Bytes → Option Bool
unfolding trim_loop contains
has_key stray seen key = seen_in seen (trim_loop stray (suc (length key)) key)

-- The loop over `remove_slash` in `get_server_settings_inner`, on fuel. It cuts the string at the
-- length of the whole location, `n`, less one, in every round.
unfoldable pub strip_loop : ℕ → ℕ → ℕ → Bytes → Option Bytes
unfolding last_char
strip_loop stray zero n remove_slash = none
strip_loop stray (suc fuel) n remove_slash = elim (last_char stray remove_slash == b'/') [
  | true ↦ strip_loop stray fuel n (take (n - 1) remove_slash)
  | false ↦ some remove_slash
]

-- The second round changes nothing more, so that two rounds decide whether the loop ends.
unfoldable pub remove_slashes : ℕ → Bytes → Option Bytes
unfolding strip_loop
remove_slashes stray location = strip_loop stray 3 (length location) location
