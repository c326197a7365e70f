-- ===== src/Tests/Accounts.antt =====
-- A new user of the game.
use raddish.Base.{ℕ, ◌+◌, ◌≤◌, List, [], ◌∷◌, codes, equal, ◌≡◌, refl, pos, arith}
use raddish.Std.Outcome
use raddish.Http
use raddish.Http.{Request, Reply}
use raddish.Game.Database.{UserRow, Database, Services}
use raddish.Game.Handler.{GameJson, handle_game}
use raddish.Game.Play.Tables.{Keyed, Keeps, PicksNewIds, count_id}
use raddish.Game.Handler.Keyed.{handle_game-Keyed}
use raddish.Tests.Game.{services, json, offline, ann, beast}

-- One more than all ids together.
unfoldable next_user_id : List UserRow → ℕ
next_user_id [] = 1
next_user_id (u ∷ us) = u.user_id + next_user_id us

next_user_id-positive : (us : List UserRow) → 1 ≤ next_user_id us
unfolding next_user_id
next_user_id-positive [] = omega arith
next_user_id-positive (u ∷ us) = omega (arith, next_user_id-positive us)

count_id-next_user_id : (us : List UserRow) (k : ℕ) → next_user_id us ≤ k → count_id k us ≡ 0
unfolding count_id next_user_id
count_id-next_user_id [] k l = refl
count_id-next_user_id (u ∷ us) k l =
    ground (arith, l, next_user_id-positive us, count_id-next_user_id us k)

abbrev counting : Services
counting = record services { new_user_id = next_user_id }

counting-PicksNewIds : PicksNewIds counting
counting-PicksNewIds us = count_id-next_user_id us _ (omega arith)

-- Every action is create, and each field is the body.
abbrev creating : GameJson
creating = record json { is_text = λ _ t. equal t (codes "create") }

offline-Keyed : Keyed offline
unfolding raddish.Game.Play.Tables.count_name count_id raddish.Game.Play.Tables.count_session
offline-Keyed = record {
  names = λ name. ground arith;
  ids = λ id. ground arith;
  sessions = λ id. omega arith;
}

abbrev bob_request : Request
bob_request = record {
  method = Http.post;
  target = codes "/game";
  version = 11;
  body = codes "bob";
}

abbrev bob : UserRow
bob = record {
  user_id = 2;
  username = codes "bob";
  hashed_pass = codes "bobsaltsaltsa";
  salt = codes "saltsaltsa";
  radish_num = pos 0;
}

abbrev with_bob : Database
with_bob = record offline { users = bob ∷ ann ∷ [] }

abbrev added_reply : Reply
added_reply = record {
  response = record {
    result = Http.ok;
    version = 11;
    server = codes "Boost.Beast/318";
    content_type = codes "text/plain";
    body = codes "User successfully added\n";
  };
  log_messages = codes "User successfully added" ∷ [];
}

bob_added :
    handle_game creating counting beast offline bob_request ≡ Outcome.ok (with_bob, added_reply)
unfolding handle_game raddish.Game.Handler.play raddish.Game.Handler.reply_as Http.init_response
    equal raddish.Game.Database.add_user raddish.Game.Database.user_exists
    raddish.Game.Database.opened raddish.Game.Database.find_user raddish.Game.Database.new_user
    raddish.Game.Database.hash_password next_user_id
bob_added = refl

handle_game-Keyed_example : Keyed with_bob × Keeps offline with_bob
handle_game-Keyed_example =
    handle_game-Keyed creating counting beast offline with_bob bob_request added_reply
      counting-PicksNewIds offline-Keyed bob_added
