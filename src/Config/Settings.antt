-- ===== src/Config/Settings.antt =====
-- `NginxConfigParser::get_server_settings_inner` of src/config_parser.cc, and `ConfigInfo` of
-- include/info.h. The parameter `stray` is the byte before an empty string (Slashes).
pub mod Bounds
pub mod Spec
pub mod Runs
pub mod Items
use raddish.Base.{
  ℕ, zero, suc, ◌-◌, Bool, true, false, ◌||◌, List, [], ◌∷◌, ◌++◌, Bytes, Option, none, some, ◌==◌,
  equal, length, take, drop, codes, if◌then◌else◌, ℤ, pos, negsuc, ltb, is_negative,
}
use raddish.Std.Map
use raddish.Std.Map.{Map}
use raddish.Std.{Exception, Converted, value, thrown}
use raddish.Std.Numbers.{stoi}
use raddish.Config.Tree.{Statement, simple, block, Statements, nil, cons, tokens_of}
use raddish.Config.Slashes.{has_key, remove_slashes}

pub record ConfigInfo : Type 0 where
  pub port_num : ℤ
  pub location_to_handler : Map Bytes
  pub location_to_directives : Map (Map Bytes)

-- How a part of the function ends: with a value; by `return false`; by an exception; in
-- undefined behaviour (an index past the end of a vector, a null child block); or never.
pub data Flow {ℓ} (A : Type ℓ) : Type ℓ where
  ok : A → Flow A
  return_false : Flow A
  throw : Exception → Flow A
  undefined : Flow A
  hangs : Flow A

infixl 5 ◌>>=◌
abbrev pub ◌>>=◌ {ℓ κ} : {A : Type ℓ} {B : Type κ} → Flow A → (A → Flow B) → Flow B
ok a >>= f = f a
return_false >>= f = return_false
throw e >>= f = throw e
undefined >>= f = undefined
hangs >>= f = hangs

-- The local variables of the function.
pub record Locals : Type 0 where
  pub port_num : ℤ
  pub seen_locations : List Bytes
  pub location_to_handler : Map Bytes
  pub location_to_directives : Map (Map Bytes)

abbrev converted : Converted → Flow ℤ
converted (value n) = ok n
converted (thrown e) = throw e

abbrev or_hangs {ℓ} : {A : Type ℓ} → Option A → Flow A
or_hangs none = hangs
or_hangs (some a) = ok a

abbrev pub starts_quoted : Bytes → Bool
starts_quoted [] = false
starts_quoted (c ∷ _) = c == b'"' || c == b'\''

-- `t[0]=='"' || t[0]=='\'' ? t.substr(1, t.length()-2) : t`
unfoldable pub unquote : Bytes → Bytes
unquote t = if starts_quoted t then take (length t - 2) (drop 1 t) else t

-- The loop over the tokens of one directive statement, two at a time.
unfoldable pub directive_loop : Bytes → List Bytes → Map (Map Bytes) → Flow (Map (Map Bytes))
directive_loop location [] m = ok m
directive_loop location (_ ∷ []) m = undefined
directive_loop location (key ∷ argument ∷ more) m =
    directive_loop location more
      (Map.insert location (Map.insert key (unquote argument) (Map.get_or location [] m)) m)

-- The loop over the statements of a location block.
unfoldable pub block_loop : Bytes → Statements → Map (Map Bytes) → Flow (Map (Map Bytes))
block_loop location nil m = ok m
block_loop location (cons x s) m = do
  m' ← directive_loop location (tokens_of x) m
  block_loop location s m'

abbrev child_block : Statement → Flow Statements
child_block (simple _) = undefined
child_block (block _ b) = ok b

abbrev not_seen : Bool → Flow (Unit {0})
not_seen true = return_false
not_seen false = ok tt

module _ (stray : ℕ) where
  -- The branch for `location`, on the tokens behind it.
  unfoldable pub add_location : Statement → Bytes → List Bytes → Locals → Flow Locals
  add_location x path [] σ = undefined
  add_location x path (handler_type ∷ _) σ = do
    let location = unquote path
    seen ← or_hangs (has_key stray σ.seen_locations location)
    _ ← not_seen seen
    location_block ← child_block x
    directives ← block_loop location location_block σ.location_to_directives
    remove_slash ← or_hangs (remove_slashes stray location)
    ok (record {
      port_num = σ.port_num;
      seen_locations = σ.seen_locations ++ remove_slash ∷ [];
      location_to_handler = Map.insert location handler_type σ.location_to_handler;
      location_to_directives = directives;
    })

  -- One token that has another one behind it.
  unfoldable pub handle_token : Statement → Bytes → Bytes → List Bytes → Locals → Flow Locals
  handle_token x arg_token following more σ =
      if equal arg_token (codes "port")
      then (do n ← converted (stoi following); ok (record σ { port_num = n }))
      else if equal arg_token (codes "location")
      then add_location x following more σ
      else ok σ

  -- The loop over the tokens of a statement, from the `j`th one on.
  unfoldable pub token_loop : Statement → List Bytes → Locals → Flow Locals
  token_loop x [] σ = ok σ
  token_loop x (_ ∷ []) σ = ok σ
  token_loop x (arg_token ∷ following ∷ more) σ = do
    σ' ← handle_token x arg_token following more σ
    token_loop x (following ∷ more) σ'

  -- The loop over the statements of the configuration.
  unfoldable pub statement_loop : Statements → Locals → Flow Locals
  statement_loop nil σ = ok σ
  statement_loop (cons x s) σ = do σ' ← token_loop x (tokens_of x) σ; statement_loop s σ'

abbrev pub initial_locals : Locals
initial_locals = record {
  port_num = negsuc 0;
  seen_locations = [];
  location_to_handler = [];
  location_to_directives = [];
}

-- The largest port that is let through.
abbrev pub max_port : ℕ
max_port = 65353

abbrev pub bad_port : ℤ → Bool
bad_port (negsuc _) = true
bad_port (pos n) = ltb max_port n

-- The check after the loops, and the copy into `config_info_`.
unfoldable pub check_port : Locals → Flow ConfigInfo
check_port σ =
    if bad_port σ.port_num
    then return_false
    else ok (record {
      port_num = σ.port_num;
      location_to_handler = σ.location_to_handler;
      location_to_directives = σ.location_to_directives;
    })

-- The new `config_info_`, where the function returns true.
unfoldable pub get_server_settings_inner : ℕ → Statements → Flow ConfigInfo
unfolding statement_loop check_port token_loop handle_token add_location directive_loop block_loop
    unquote has_key remove_slashes Map.insert Map.get_or equal stoi
get_server_settings_inner stray internal_config = do
  σ ← statement_loop stray internal_config initial_locals
  check_port σ
