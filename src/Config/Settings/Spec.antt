-- ===== src/Config/Settings/Spec.antt =====
-- What the settings of a configuration of `port` and `location` statements are meant to be.
use mathlib.Core.Option.{or_else}
use raddish.Base.{
  ◌⊎◌, false, List, [], ◌∷◌, ◌++◌, Bytes, codes, Option, none, some, ◌≡◌, equal, if◌then◌else◌, ℤ,
  negsuc,
}
use raddish.Std.Map
use raddish.Std.Map.{HasEntry}
use raddish.Std.Map.{Map}
use raddish.Std.{Converted, value, thrown}
use raddish.Std.Numbers.{stoi}
use raddish.Config.Tree.{Statement, simple, block, Statements, nil, cons}
use raddish.Config.Slashes.{contains}
use raddish.Config.Slashes.Trim.{trim, AtMostOneSlash}
use raddish.Config.Settings.{ConfigInfo, unquote}

-- `port argument;` and `location path handler { key argument; ... }`
pub data Item : Type 0 where
  port_item : Bytes → Item
  location_item : Bytes → Bytes → List (Bytes × Bytes) → Item

abbrev pub directive_statements : List (Bytes × Bytes) → Statements
directive_statements [] = nil
directive_statements ((key, argument) ∷ ds) =
    cons (simple (key ∷ argument ∷ [])) (directive_statements ds)

abbrev pub to_statement : Item → Statement
to_statement (port_item argument) = simple (codes "port" ∷ argument ∷ [])
to_statement (location_item path handler ds) =
    block (codes "location" ∷ path ∷ handler ∷ []) (directive_statements ds)

abbrev pub to_statements : List Item → Statements
to_statements [] = nil
to_statements (i ∷ is) = cons (to_statement i) (to_statements is)

abbrev pub port_value : Converted → ℤ
port_value (value n) = n
port_value (thrown _) = negsuc 0

-- What the items say: the last port, the handler of a location, and the argument of a directive.
abbrev pub port_at : ℤ → List Item → ℤ
port_at n [] = n
port_at n (port_item argument ∷ is) = port_at (port_value (stoi argument)) is
port_at n (location_item _ _ _ ∷ is) = port_at n is

abbrev pub handler_at : Bytes → List Item → Option Bytes
handler_at l [] = none
handler_at l (port_item _ ∷ is) = handler_at l is
handler_at l (location_item path handler _ ∷ is) =
    or_else (handler_at l is) (if equal (unquote path) l then some handler else none)

abbrev pub last_argument : Bytes → List (Bytes × Bytes) → Bytes → Bytes
last_argument k [] d = d
last_argument k ((key, argument) ∷ ds) d =
    last_argument k ds (if equal key k then unquote argument else d)

abbrev pub argument_at : Bytes → Bytes → List Item → Bytes → Bytes
argument_at l k [] d = d
argument_at l k (port_item _ ∷ is) d = argument_at l k is d
argument_at l k (location_item path _ ds ∷ is) d =
    argument_at l k is (if equal (unquote path) l then last_argument k ds d else d)

abbrev pub seen_after : Item → List Bytes → List Bytes
seen_after (port_item _) seen = seen
seen_after (location_item path _ _) seen = seen ++ trim (unquote path) ∷ []

abbrev pub all_seen : List Item → List Bytes → List Bytes
all_seen [] seen = seen
all_seen (i ∷ is) seen = all_seen is (seen_after i seen)

-- A port is an `int`. A location has at most one slash at its end, is new up to that slash, and
-- is not spelled like one of the two keywords.
abbrev pub IsGood : List Bytes → Item → Type 0
IsGood seen (port_item argument) = (n : ℤ) × (stoi argument ≡ value n)
IsGood seen (location_item path _ _) =
    AtMostOneSlash (unquote path)
    × (contains seen (trim (unquote path)) ≡ false)
    × (equal path (codes "port") ≡ false)
    × (equal path (codes "location") ≡ false)

abbrev pub IsWellFormed : List Bytes → List Item → Type 0
IsWellFormed seen [] = Unit
IsWellFormed seen (i ∷ is) = IsGood seen i × IsWellFormed (seen_after i seen) is

-- An item for a location, with its handler.
abbrev pub HasItem : Bytes → Bytes → List Item → Type 0
HasItem l name [] = ⊥
HasItem l name (port_item _ ∷ is) = HasItem l name is
HasItem l name (location_item path handler _ ∷ is) =
    ((unquote path ≡ l) × (handler ≡ name)) ⊎ HasItem l name is

-- What the settings are, read off the items.
pub record Holds (is : List Item) (info : ConfigInfo) : Type 0 where
  pub port : info.port_num ≡ port_at (negsuc 0) is
  pub handlers : (l : Bytes) → Map.lookup l info.location_to_handler ≡ handler_at l is
  pub arguments :
      (l k : Bytes)
      → Map.get_or k [] (Map.get_or l [] info.location_to_directives) ≡ argument_at l k is []
  pub entries : (l name : Bytes) → HasEntry l name info.location_to_handler → HasItem l name is
