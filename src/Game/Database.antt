-- ===== src/Game/Database.antt =====
-- The database functions of `GameRequestHandler` of src/game_request_handler.cc. A table is the
-- list of its rows, and a query by a key that the schema makes unique takes the first row. What is
-- not in the program is a parameter (`Services`): whether the calls of SQLite fail, the row id that
-- it picks, random bytes and SHA-256. A function whose calls fail changes nothing, since it throws
-- before its only insertion or its COMMIT.
use raddish.Base.{
  ℕ, Bool, true, false, ◌&&◌, ◌==◌, List, [], ◌∷◌, ◌++◌, Bytes, Option, none, some, codes, equal,
  length, take, ltb, if◌then◌else◌, ℤ, pos,
}
use raddish.Std.{runtime_error}
use raddish.Std.Numbers.{to_string}
use raddish.Std.Map
use raddish.Std.Map.{Map}
use raddish.Std.Outcome.{Outcome, ok, throw, undefined, ◌>>=◌}

pub record UserRow : Type 0 where
  pub user_id : ℕ
  pub username : Bytes
  pub hashed_pass : Bytes
  pub salt : Bytes
  pub radish_num : ℤ

pub record SessionRow : Type 0 where
  pub user_id : ℕ
  pub session_id : Bytes

-- `none` is NULL, which the schema allows here.
pub record UpgradeRow : Type 0 where
  pub user_id : Option ℕ
  pub upgrade_type : Bytes
  pub upgrade_num : ℤ

pub record Database : Type 0 where
  pub users : List UserRow
  pub sessions : List SessionRow
  pub upgrades : List UpgradeRow

-- The functions that open the database.
pub data Call : Type 0 where
  adding getting finding_user finding_session matching updating : Call

-- Where such a function fails: the database or the statement, or a call with this code.
pub data Failure : Type 0 where
  opening preparing : Failure
  code : ℤ → Failure

-- The text of the exception; that with a code is of `check_rc`.
unfoldable pub failure_text : Failure → Bytes
unfolding to_string
failure_text opening = codes "Error while opening database"
failure_text preparing = codes "Error while preparing statement"
failure_text (code rc) = codes "SQLITE ERROR " ++ to_string rc

pub record Services : Type 0 where
  pub fails : Call → Database → Bool
  pub failure : Call → Database → Failure
  pub new_user_id : List UserRow → ℕ
  pub new_session_row : List SessionRow → ℕ
  pub new_session_id : Database → Bytes
  pub create_salt : Database → Bytes
  pub sha256 : Bytes → Bytes

-- `SELECT ... FROM users WHERE username=?`
unfoldable pub find_user : Bytes → List UserRow → Option UserRow
find_user name [] = none
find_user name (u ∷ us) =
    let rest = find_user name us in if equal u.username name then some u else rest

-- `SELECT session_id FROM sessions WHERE user_id=?`
unfoldable pub find_session : ℕ → List SessionRow → Option Bytes
find_session id [] = none
find_session id (s ∷ ss) =
    let rest = find_session id ss in if s.user_id == id then some s.session_id else rest

abbrev pub is_there {ℓ} : {A : Type ℓ} → Option A → Bool
is_there none = false
is_there (some _) = true

-- The session of the user of a name, by the join of the two tables.
abbrev pub joined : Option UserRow → List SessionRow → Option Bytes
joined none ss = none
joined (some u) ss = find_session u.user_id ss

abbrev pub same_text : Option Bytes → Bytes → Bool
same_text none text = false
same_text (some s) text = equal s text

module _ (services : Services) where
  unfoldable pub opened : Call → Database → Outcome (Unit {0})
  opened call db =
      if services.fails call db
      then throw (runtime_error (failure_text (services.failure call db)))
      else ok tt

  unfoldable pub user_exists : Database → Bytes → Outcome Bool
  user_exists db username = do
    _ ← opened finding_user db
    ok (is_there (find_user username db.users))

  unfoldable pub is_online : Database → Bytes → Outcome Bool
  is_online db username = do
    _ ← opened finding_session db
    ok (is_there (joined (find_user username db.users) db.sessions))

  -- The text is bound with 16 bytes, the last of which may be the 0 behind the string; a shorter
  -- string is read past its end.
  unfoldable pub has_session_id : Database → Bytes → Bytes → Outcome Bool
  has_session_id db username session_id = do
    _ ← opened matching db
    let matched =
        same_text (joined (find_user username db.users) db.sessions)
          (take 16 (session_id ++ 0 ∷ []))
    (if ltb (length session_id) 15 then undefined else ok matched)

  -- The password with the ten bytes of the salt, hashed.
  unfoldable pub hash_password : Bytes → Bytes → Bytes
  hash_password password salt = services.sha256 (password ++ take 10 salt)

  unfoldable pub new_user : Database → Bytes → Bytes → UserRow
  new_user db username password = record {
    user_id = services.new_user_id db.users;
    username = username;
    hashed_pass = hash_password password (services.create_salt db);
    salt = services.create_salt db;
    radish_num = pos 0;
  }

  -- The database after the call, and its answer.
  unfoldable pub add_user : Database → Bytes → Bytes → Outcome (Database × Bool)
  add_user db username password = do
    there ← user_exists db username
    elim there [
      | true ↦ ok (db, false)
      | false ↦ do
        _ ← opened adding db
        ok (record db { users = new_user db username password ∷ db.users }, true)
    ]

-- `radish_num` is `none` as long as no row has set it.
pub record GameData : Type 0 where
  pub radish_num : Option ℤ
  pub upgrades : Map ℤ
  pub session_id : Bytes

unfoldable pub upgrades_of : ℕ → List UpgradeRow → Map ℤ
unfolding Map.insert
upgrades_of id [] = []
upgrades_of id (r ∷ rs) =
    let rest = upgrades_of id rs in
    elim r.user_id [
      | none ↦ rest
      | some i ↦ if i == id then Map.insert r.upgrade_type r.upgrade_num rest else rest
    ]

-- `INSERT OR REPLACE` on the key of user and type; NULL is equal to no key.
unfoldable pub put_upgrade : Option ℕ → Bytes → ℤ → List UpgradeRow → List UpgradeRow
put_upgrade id type num [] = record { user_id = id; upgrade_type = type; upgrade_num = num } ∷ []
put_upgrade none type num (r ∷ rs) = r ∷ put_upgrade none type num rs
put_upgrade (some id) type num (r ∷ rs) =
    let rest = r ∷ put_upgrade (some id) type num rs in
    elim r.user_id [
      | none ↦ rest
      | some i ↦
          if i == id && equal r.upgrade_type type
          then record { user_id = some id; upgrade_type = type; upgrade_num = num } ∷ rs
          else rest
    ]
