-- ===== src/Game/Handler/Once.antt =====
-- `handle_request` of src/game_request_handler.cc calls `log_request` once, if it returns.
use raddish.Base.{Bool, true, false, Bytes, Option, none, some, ℤ, refl}
use raddish.Std.{Exception, runtime_error, invalid_argument, out_of_range}
use raddish.Std.Map.{Map}
use raddish.Std.Outcome.{Outcome}
use raddish.Http
use raddish.Http.{Verb, Request, Response, Beast, init_response}
use raddish.Handlers.Once.{Once, bind-Once}
use raddish.Game.Database.{Database, Services, GameData}
use raddish.Game.Handler.{
  GameJson, reply_as, caught, updated, converted_put, put_fields, created, logged_in, act,
  post_fields, play, play_parsed, handle_game,
}

module _ (json : GameJson) (services : Services) (db : Database) (res : Response) where
  caught-Once : (e : Exception) → Once (caught json services db res e)
  unfolding caught reply_as Once
  caught-Once (runtime_error e) = (_, refl)
  caught-Once invalid_argument = (_, refl)
  caught-Once out_of_range = (_, refl)

  created-Once : (o : Outcome (Database × Bool)) → Once (created json services db res o)
  unfolding reply_as Once
  created-Once (Outcome.ok (db1, true)) = (_, refl)
  created-Once (Outcome.ok (db1, false)) = (_, refl)
  created-Once (Outcome.throw e) = caught-Once e
  created-Once Outcome.undefined = tt

  updated-Once : (o : Outcome (Database × Bool)) → Once (updated json services db res o)
  unfolding reply_as Once
  updated-Once (Outcome.ok (db1, true)) = (_, refl)
  updated-Once (Outcome.ok (db1, false)) = (_, refl)
  updated-Once (Outcome.throw e) = caught-Once e
  updated-Once Outcome.undefined = tt

  logged_in-Once :
      (o : Outcome (Database × Option GameData)) → Once (logged_in json services db res o)
  unfolding reply_as Once
  logged_in-Once (Outcome.ok (db1, some g)) = (_, refl)
  logged_in-Once (Outcome.ok (db1, none)) = (_, refl)
  logged_in-Once (Outcome.throw e) = caught-Once e
  logged_in-Once Outcome.undefined = tt

  converted_put-Once :
      (a b : Option Bytes) (c : Option ℤ) (d : Option (Map ℤ))
      → Once (converted_put json services db res a b c d)
  unfolding reply_as Once
  converted_put-Once (some name) (some session_id) (some num) (some upgrades) = updated-Once _
  converted_put-Once (some _) (some _) (some _) none = (_, refl)
  converted_put-Once (some _) (some _) none _ = (_, refl)
  converted_put-Once (some _) none _ _ = (_, refl)
  converted_put-Once none _ _ _ = (_, refl)

  put_fields-Once : (a b c d : Option json.Value) → Once (put_fields json services db res a b c d)
  unfolding reply_as Once
  put_fields-Once (some name) (some session_id) (some num) (some upgrades) =
      converted_put-Once _ _ _ _
  put_fields-Once (some _) (some _) (some _) none = (_, refl)
  put_fields-Once (some _) (some _) none _ = (_, refl)
  put_fields-Once (some _) none _ _ = (_, refl)
  put_fields-Once none _ _ _ = (_, refl)

  act-Once : (c l : Bool) (a b : Option Bytes) → Once (act json services db res c l a b)
  unfolding reply_as Once
  act-Once true _ (some name) (some password) = created-Once _
  act-Once true _ (some _) none = (_, refl)
  act-Once true _ none _ = (_, refl)
  act-Once false true (some name) (some password) = logged_in-Once _
  act-Once false true (some _) none = (_, refl)
  act-Once false true none _ = (_, refl)
  act-Once false false _ _ = (_, refl)

  post_fields-Once : (a b c : Option json.Value) → Once (post_fields json services db res a b c)
  unfolding reply_as Once
  post_fields-Once (some action) (some name) (some password) = act-Once _ _ _ _
  post_fields-Once (some _) (some _) none = (_, refl)
  post_fields-Once (some _) none _ = (_, refl)
  post_fields-Once none _ _ = (_, refl)

  play_parsed-Once :
      (method : Verb) (o : Option json.Value) → Once (play_parsed json services db res method o)
  unfolding play reply_as Once
  play_parsed-Once method none = (_, refl)
  play_parsed-Once Http.put (some body) = put_fields-Once _ _ _ _
  play_parsed-Once Http.post (some body) = post_fields-Once _ _ _
  play_parsed-Once Http.get (some body) = (_, refl)
  play_parsed-Once Http.delete (some body) = (_, refl)
  play_parsed-Once (Http.other name) (some body) = (_, refl)

pub handle_game-Once :
    (json : GameJson) (services : Services) (beast : Beast) (db : Database) (request : Request)
    → Once (handle_game json services beast db request)
unfolding handle_game
handle_game-Once json services beast db request =
    bind-Once _ _
      (λ parsed. play_parsed-Once json services db (init_response beast request) _ parsed)
