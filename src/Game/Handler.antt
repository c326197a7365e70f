-- ===== src/Game/Handler.antt =====
-- `handle_request` of src/game_request_handler.cc. The JSON library is what `GameJson` holds.
pub mod Answers
pub mod Keyed
pub mod Once
use raddish.Base.{
  Bool, true, false, ◌&&◌, List, [], ◌∷◌, ◌++◌, Bytes, Option, none, some, codes, if◌then◌else◌, ℤ,
}
use raddish.Std.{Exception, runtime_error, invalid_argument, out_of_range}
use raddish.Std.Map.{Map}
use raddish.Std.Outcome.{Outcome, ok, throw, undefined, ◌>>=◌}
use raddish.Http
use raddish.Http.{
  Verb, put, post, Request, Status, bad_request, internal_server_error, unprocessable_entity,
  Response, Beast, Reply, init_response,
}
use raddish.Game.Database.{Database, Services, GameData, add_user}
use raddish.Game.Play.{get_values, update_values}

-- nlohmann::json: `parse` with `none` for its parse_error, and its other exceptions thrown, as
-- out_of_range for a number that is too large; `contains` with `find` for a key; `==` with a text;
-- the conversions, with `none` for a type_error and its message; and the dump of the object that
-- answers a login. The dump is total, since it fails on text that is not UTF-8 only, and the names of
-- the upgrades come from `parse`, which refuses such text.
pub record GameJson : Type 1 where
  pub Value : Type 0
  pub parse : Bytes → Outcome (Option Value)
  pub field : Bytes → Value → Option Value
  pub is_text : Value → Bytes → Bool
  pub as_string : Value → Option Bytes
  pub as_int : Value → Option ℤ
  pub as_map : Value → Option (Map ℤ)
  pub type_error : Bytes
  pub dump : GameData → Bytes

-- The database and the reply.
abbrev pub Played : Type 0
Played = Outcome (Database × Reply)

module _ (json : GameJson) (services : Services) (db : Database) (res : Response) where
  unfoldable pub reply_as : Status → Bytes → Bytes → Reply
  reply_as status text message = record {
    response = record res { result = status; body = text };
    log_messages = message ∷ [];
  }

  -- `catch(const std::runtime_error &e)` and `catch(const std::exception &e)`
  unfoldable pub caught : Exception → Played
  caught (runtime_error e) =
      ok (
        db,
        reply_as internal_server_error e (codes "Unrecoverable error happened - database issue"),
      )
  caught _ = ok (db, reply_as unprocessable_entity json.type_error (codes "Wrong types given"))

  abbrev pub wrong_types : Played
  wrong_types = ok (db, reply_as unprocessable_entity json.type_error (codes "Wrong types given"))

  -- The end of the branch for PUT.
  abbrev pub updated : Outcome (Database × Bool) → Played
  updated (ok (db', true)) = ok (
    db',
    reply_as Http.ok (codes "Changes successful!\n")
        (codes "Logout successful - changes successfully made"),
  )
  updated (ok (db', false)) = ok (
    db',
    reply_as bad_request (codes "Update failed\n")
        (codes "Unable to update database - user may be offline or nonexistent"),
  )
  updated (throw e) = caught e
  updated undefined = undefined

  abbrev pub converted_put : Option Bytes → Option Bytes → Option ℤ → Option (Map ℤ) → Played
  converted_put (some name) (some session_id) (some num) (some upgrades) =
      updated (update_values services db name session_id num upgrades)
  converted_put _ _ _ _ = wrong_types

  abbrev pub put_fields :
      Option json.Value → Option json.Value → Option json.Value → Option json.Value → Played
  put_fields (some name) (some session_id) (some num) (some upgrades) =
      converted_put (json.as_string name) (json.as_string session_id) (json.as_int num)
        (json.as_map upgrades)
  put_fields _ _ _ _ = ok (
    db,
    reply_as bad_request (codes "Must have username, session id, radish number, and upgrades\n")
        (codes "Missing one of the fields to update or logout"),
  )

  -- The end of the branch for a new user.
  abbrev pub created : Outcome (Database × Bool) → Played
  created (ok (db', true)) =
      ok (
        db',
        reply_as Http.ok (codes "User successfully added\n") (codes "User successfully added"),
      )
  created (ok (db', false)) = ok (
    db',
    reply_as bad_request (codes "Unable to add user\n")
        (codes "User cannot be added - may already exist"),
  )
  created (throw e) = caught e
  created undefined = undefined

  -- The end of the branch for a login.
  abbrev pub logged_in : Outcome (Database × Option GameData) → Played
  logged_in (ok (db', some game_data)) = ok (
    db',
    record {
      response = record res {
        result = Http.ok;
        content_type = codes "application/json";
        body = json.dump game_data;
      };
      log_messages = codes "Successfully logged in" ∷ [];
    },
  )
  logged_in (ok (db', none)) = ok (
    db',
    reply_as bad_request (codes "Unable to find offline user and/or username/password mismatch\n")
        (codes "Unable to log in - user may be online or not exist, or the password may be wrong"),
  )
  logged_in (throw e) = caught e
  logged_in undefined = undefined

  abbrev pub create_user : Option Bytes → Option Bytes → Played
  create_user (some name) (some password) = created (add_user services db name password)
  create_user _ _ = wrong_types

  abbrev pub login_user : Option Bytes → Option Bytes → Played
  login_user (some name) (some password) = logged_in (get_values services db name password)
  login_user _ _ = wrong_types

  abbrev pub invalid_action : Played
  invalid_action = ok (
    db,
    reply_as bad_request (codes "Invalid Action\n")
        (codes "Given action is not create or login - try again"),
  )

  -- The choice of the action: whether it is create, and whether it is login.
  abbrev pub act : Bool → Bool → Option Bytes → Option Bytes → Played
  act true _ name password = create_user name password
  act false true name password = login_user name password
  act false false name password = invalid_action

  abbrev pub post_fields : Option json.Value → Option json.Value → Option json.Value → Played
  post_fields (some action) (some name) (some password) =
      act (json.is_text action (codes "create")) (json.is_text action (codes "login"))
        (json.as_string name) (json.as_string password)
  post_fields _ _ _ = ok (
    db,
    reply_as bad_request (codes "Must have username and password\n")
        (codes "Missing one of the fields for creating user or logging in"),
  )

  -- The body of the `try`, for the method.
  unfoldable pub play : Verb → json.Value → Played
  play put body =
      put_fields (json.field (codes "username") body) (json.field (codes "session_id") body)
        (json.field (codes "radish_num") body) (json.field (codes "upgrades") body)
  play post body =
      post_fields (json.field (codes "action") body) (json.field (codes "username") body)
        (json.field (codes "password") body)
  play _ body = ok (
    db,
    reply_as bad_request (codes "Invalid Method\n")
        (codes "Method is not supported - only PUT and POST are supported"),
  )

  abbrev pub play_parsed : Verb → Option json.Value → Played
  play_parsed method none = ok (
    db,
    reply_as bad_request (codes "Invalid JSON\n")
        (codes "JSON could not be validated in for the clicker game"),
  )
  play_parsed method (some body) = play method body

-- `handle_request`
unfoldable pub handle_game : GameJson → Services → Beast → Database → Request → Played
handle_game json services beast db request = do
  parsed ← json.parse request.body
  play_parsed json services db (init_response beast request) request.method parsed
