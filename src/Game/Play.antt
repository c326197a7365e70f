-- ===== src/Game/Play.antt =====
-- Logging in and storing the values: `get_values` and `update_values` of
-- src/game_request_handler.cc.
pub mod Accounts
pub mod Tables
pub mod Keyed
pub mod Login
use raddish.Base.{
  ℕ, Bool, true, false, List, [], ◌∷◌, Bytes, Option, none, some, equal, if◌then◌else◌, ℤ, ◌==◌,
  ◌&&◌, not,
}
use raddish.Std.Map.{Map}
use raddish.Std.Outcome.{Outcome, ok, ◌>>=◌}
use raddish.Game.Database.{
  UserRow, SessionRow, UpgradeRow, Database, getting, updating, Services, find_user, find_session,
  joined, same_text, opened, user_exists, is_online, has_session_id, hash_password, GameData,
  upgrades_of, put_upgrade,
}

abbrev text_or_empty : Option Bytes → Bytes
text_or_empty none = []
text_or_empty (some s) = s

-- `INSERT OR IGNORE INTO sessions` for the key.
abbrev pub ignoring : Option Bytes → SessionRow → List SessionRow → List SessionRow
ignoring none row ss = row ∷ ss
ignoring (some _) row ss = ss

abbrev pub no_data : GameData
no_data = record { radish_num = none; upgrades = []; session_id = [] }

module _ (services : Services) where
  -- The row that is inserted: NULL as the key makes SQLite pick one.
  unfoldable pub session_row : Database → UserRow → Bool → SessionRow
  session_row db u valid = record {
    user_id = if valid then u.user_id else services.new_session_row db.sessions;
    session_id = services.new_session_id db;
  }

  -- The four statements, for the user's row and whether the hash of the password is its own.
  unfoldable pub log_in : Database → UserRow → Bool → Database × GameData
  log_in db u valid =
      let row = session_row db u valid in
      let sessions = ignoring (find_session row.user_id db.sessions) row db.sessions in
      (
        record db { sessions = sessions },
        if valid
            then record {
              radish_num = some u.radish_num;
              upgrades = upgrades_of u.user_id db.upgrades;
              session_id = text_or_empty (find_session u.user_id sessions);
            }
            else no_data,
      )

  abbrev pub logged_in : Database → Bytes → Option UserRow → Database × Option GameData
  logged_in db password none = (db, none)
  logged_in db password (some u) =
      let (db', game_data) =
        log_in db u (equal u.hashed_pass (hash_password services password u.salt)) in
      (db', some game_data)

  abbrev pub get_of_user : Database → Bytes → Bytes → Bool → Outcome (Database × Option GameData)
  get_of_user db username password false = ok (db, none)
  get_of_user db username password true = do
    _ ← opened services getting db
    ok (logged_in db password (find_user username db.users))

  -- `get_values`: the database after it, and `game_data_` if the answer is true.
  unfoldable pub get_values : Database → Bytes → Bytes → Outcome (Database × Option GameData)
  get_values db username password = do
    online ← is_online services db username
    elim online [
      | true ↦ ok (db, none)
      | false ↦ do there ← user_exists services db username; get_of_user db username password there
    ]

-- The user id of the join, where the session is the given one.
abbrev pub matching_id : Option UserRow → List SessionRow → Bytes → Option ℕ
matching_id none ss session_id = none
matching_id (some u) ss session_id =
    if same_text (find_session u.user_id ss) session_id then some u.user_id else none

unfoldable pub set_radish_num : Bytes → ℤ → List UserRow → List UserRow
set_radish_num username num [] = []
set_radish_num username num (u ∷ us) =
    (if equal u.username username then record u { radish_num = num } else u)
    ∷ set_radish_num username num us

unfoldable pub put_upgrades : Option ℕ → Map ℤ → List UpgradeRow → List UpgradeRow
put_upgrades id [] rs = rs
put_upgrades id ((type, num) ∷ more) rs = put_upgrades id more (put_upgrade id type num rs)

-- `DELETE FROM sessions WHERE session_id=? AND user_id=...`
unfoldable pub delete_session : Option UserRow → Bytes → List SessionRow → List SessionRow
delete_session o session_id [] = []
delete_session none session_id (s ∷ ss) = s ∷ ss
delete_session (some u) session_id (s ∷ ss) =
    let rest = delete_session (some u) session_id ss in
    if equal s.session_id session_id && s.user_id == u.user_id then rest else s ∷ rest

abbrev pub if_matching : Option ℕ → List UserRow → List UserRow → List UserRow
if_matching none changed us = us
if_matching (some _) changed us = changed

-- The statements of the transaction.
unfoldable pub store_values : Database → Bytes → Bytes → ℤ → Map ℤ → Database
store_values db username session_id radish_num upgrades =
    let user = find_user username db.users in
    let id = matching_id user db.sessions session_id in
    record {
      users = if_matching id (set_radish_num username radish_num db.users) db.users;
      sessions = delete_session user session_id db.sessions;
      upgrades = put_upgrades id upgrades db.upgrades;
    }

module _ (services : Services) where
  -- `update_values`: the database after it, and its answer.
  unfoldable pub update_values : Database → Bytes → Bytes → ℤ → Map ℤ → Outcome (Database × Bool)
  update_values db username session_id radish_num upgrades = do
    online ← is_online services db username
    elim online [
      | false ↦ ok (db, false)
      | true ↦ do
        matched ← has_session_id services db username session_id
        elim matched [
          | true ↦ ok (db, false)
          | false ↦ do
            _ ← opened services updating db
            ok (store_values db username session_id radish_num upgrades, true)
        ]
    ]
