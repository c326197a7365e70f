-- ===== src/Tests/Game.antt =====
-- The game's theorems at concrete inputs.
use raddish.Base.{[], ◌∷◌, Bytes, codes, Option, some, none, ◌≡◌, refl, ℤ, pos, true, false}
use raddish.Std.Outcome
use raddish.Http
use raddish.Http.{Beast, Request, Reply}
use raddish.Game.Database.{
  UserRow, SessionRow, Database, Services, GameData, add_user, find_user, find_session,
}
use raddish.Game.Play.{get_values, update_values, no_data}
use raddish.Game.Play.Login.{get_values-add_user, get_values-wrong_password, update_values-stale}
use raddish.Game.Handler.{GameJson, handle_game}
use raddish.Game.Handler.Answers.{handle_game-unchanged}

abbrev pub services : Services
services = record {
  fails = λ _ _. false;
  failure = λ _ _. raddish.Game.Database.opening;
  new_user_id = λ _. 7;
  new_session_row = λ _. 9;
  new_session_id = λ _. codes "0123456789abcdef0123456789abcdef";
  create_salt = λ _. codes "saltsaltsa";
  sha256 = λ s. s;
}

abbrev pub ann : UserRow
ann = record {
  user_id = 1;
  username = codes "ann";
  hashed_pass = codes "pwsaltsaltsa";
  salt = codes "saltsaltsa";
  radish_num = pos 5;
}

abbrev pub offline : Database
offline = record { users = ann ∷ []; sessions = []; upgrades = [] }

abbrev token : Bytes
token = codes "0123456789abcdef0123456789abcdef"

abbrev online : Database
online = record {
  users = ann ∷ [];
  sessions = record { user_id = 1; session_id = token } ∷ [];
  upgrades = [];
}

abbrev bob : UserRow
bob = record {
  user_id = 7;
  username = codes "bob";
  hashed_pass = codes "pwsaltsaltsa";
  salt = codes "saltsaltsa";
  radish_num = pos 0;
}

abbrev with_bob : Database
with_bob = record { users = bob ∷ ann ∷ []; sessions = []; upgrades = [] }

add_bob : add_user services offline (codes "bob") (codes "pw") ≡ Outcome.ok (with_bob, true)
unfolding add_user raddish.Game.Database.user_exists raddish.Game.Database.opened find_user
    raddish.Base.equal raddish.Game.Database.new_user raddish.Game.Database.hash_password
add_bob = refl

get_values-add_user_example :
    (after : Database) × (game_data : GameData) × (get_values services with_bob
        (codes "bob")
        (codes "pw")
      ≡ Outcome.ok (after, some game_data))
    × (game_data.radish_num ≡ some (pos 0))
unfolding find_session
get_values-add_user_example =
    get_values-add_user services (λ c db. refl) offline with_bob (codes "bob") (codes "pw") add_bob
      refl

find_ann : find_user (codes "ann") (ann ∷ []) ≡ some ann
unfolding find_user raddish.Base.equal
find_ann = refl

get_values-wrong_password_example :
    (after : Database) × (get_values services offline (codes "ann") (codes "guess")
      ≡ Outcome.ok (after, some no_data))
unfolding find_session raddish.Base.equal raddish.Game.Database.hash_password
get_values-wrong_password_example =
    get_values-wrong_password services (λ c db. refl) offline (codes "ann") (codes "guess") ann
      find_ann refl refl

find_token : find_session 1 (online.sessions) ≡ some token
unfolding find_session
find_token = refl

abbrev guess : Bytes
guess = codes "0000000000000000"

update_values-stale_example :
    (after : Database) × (update_values services online (codes "ann") guess (pos 99) []
      ≡ Outcome.ok (after, true))
    × (after.users ≡ online.users)
unfolding raddish.Base.equal
update_values-stale_example =
    update_values-stale services (λ c db. refl) online (codes "ann") guess (pos 99) [] ann token
      find_ann find_token refl refl refl

-- JSON texts that are the value of every key.
abbrev pub json : GameJson
json = record {
  Value = Bytes;
  parse = λ s. Outcome.ok (some s);
  field = λ _ s. some s;
  is_text = λ _ _. false;
  as_string = λ s. some s;
  as_int = λ _. none;
  as_map = λ _. none;
  type_error = codes "type must be number";
  dump = λ d. d.session_id;
}

abbrev pub beast : Beast
beast = record {
  version_string = codes "Boost.Beast/318";
  print_request = λ r. r.target;
  print_request_header = λ r. r.target;
  print_response_header = λ r. r.body;
}

abbrev put_request : Request
put_request = record { method = Http.put; target = codes "/game"; version = 11; body = codes "x" }

abbrev refused_reply : Reply
refused_reply = record {
  response = record {
    result = Http.unprocessable_entity;
    version = 11;
    server = codes "Boost.Beast/318";
    content_type = codes "text/plain";
    body = codes "type must be number";
  };
  log_messages = codes "Wrong types given" ∷ [];
}

put_refused :
    handle_game json services beast online put_request ≡ Outcome.ok (online, refused_reply)
unfolding handle_game raddish.Game.Handler.play raddish.Game.Handler.reply_as Http.init_response
put_refused = refl

handle_game-unchanged_example : online ≡ online
handle_game-unchanged_example =
    handle_game-unchanged json services beast online online put_request refused_reply put_refused
      (λ p. cc)
