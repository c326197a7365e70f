-- ===== src/Game/Handler/Answers.antt =====
-- Which requests change the database of the game.
use raddish.Base.{Bool, true, false, Bytes, Option, none, some, ℤ, ◌≡◌, ◌≢◌, refl, sym, ap, ◌∙◌}
use raddish.Std.{Exception, runtime_error, invalid_argument, out_of_range}
use raddish.Std.Map.{Map}
use raddish.Std.Outcome.{Outcome, ok, >>=-eq-ok, throw, undefined}
use raddish.Http
use raddish.Http.{
  get, put, post, delete, other, Verb, Request, Response, Beast, Reply, init_response,
}
use raddish.Game.Database.{Database, Services, GameData}
use raddish.Game.Play.Accounts.{returned, add_user-false, update_values-false, get_values-none}
use raddish.Game.Handler.{
  GameJson, Played, caught, updated, converted_put, put_fields, created, logged_in, act,
  post_fields, play, play_parsed, handle_game, reply_as,
}

module _ (json : GameJson) (services : Services) (db : Database) (res : Response) where
  -- A reply that is not 200 leaves the database.
  abbrev Refusal : Played → Type 0
  Refusal played =
      (db' : Database) (reply : Reply)
      → played ≡ ok (db', reply)
      → reply.response.result ≢ Http.ok
      → db' ≡ db

  left : (reply : Reply) → Refusal (ok (db, reply))
  left reply db' reply' h n = sym ((returned h).0)

  caught-Refusal : (e : Exception) → Refusal (caught json services db res e)
  unfolding caught
  caught-Refusal (runtime_error e) = left _
  caught-Refusal invalid_argument = left _
  caught-Refusal out_of_range = left _

  -- The reply of a call is 200 where its answer is true.
  accepted :
      (db1 : Database) (reply : Reply) → reply.response.result ≡ Http.ok → Refusal (ok (db1, reply))
  accepted db1 reply s db' reply' h n =
      absurd (n (ap (λ r. r.response.result) (sym ((returned h).1)) ∙ s))

  created-Refusal :
      (o : Outcome (Database × Bool))
      → ((db' : Database) → o ≡ ok (db', false) → db' ≡ db)
      → Refusal (created json services db res o)
  unfolding reply_as
  created-Refusal (ok (db1, true)) same = accepted db1 _ refl
  created-Refusal (ok (db1, false)) same = λ db' reply h n. sym ((returned h).0) ∙ same db1 refl
  created-Refusal (throw e) same = caught-Refusal e
  created-Refusal undefined same = λ db' reply h n. cc h

  updated-Refusal :
      (o : Outcome (Database × Bool))
      → ((db' : Database) → o ≡ ok (db', false) → db' ≡ db)
      → Refusal (updated json services db res o)
  unfolding reply_as
  updated-Refusal (ok (db1, true)) same = accepted db1 _ refl
  updated-Refusal (ok (db1, false)) same = λ db' reply h n. sym ((returned h).0) ∙ same db1 refl
  updated-Refusal (throw e) same = caught-Refusal e
  updated-Refusal undefined same = λ db' reply h n. cc h

  logged_in-Refusal :
      (o : Outcome (Database × Option GameData))
      → ((db' : Database) → o ≡ ok (db', none) → db' ≡ db)
      → Refusal (logged_in json services db res o)
  unfolding reply_as
  logged_in-Refusal (ok (db1, some game_data)) same = accepted db1 _ refl
  logged_in-Refusal (ok (db1, none)) same = λ db' reply h n. sym ((returned h).0) ∙ same db1 refl
  logged_in-Refusal (throw e) same = caught-Refusal e
  logged_in-Refusal undefined same = λ db' reply h n. cc h

  converted_put-Refusal :
      (a b : Option Bytes) (c : Option ℤ) (d : Option (Map ℤ))
      → Refusal (converted_put json services db res a b c d)
  converted_put-Refusal (some name) (some session_id) (some num) (some upgrades) =
      updated-Refusal _ (λ db'. update_values-false services db db' name session_id num upgrades)
  converted_put-Refusal (some _) (some _) (some _) none = left _
  converted_put-Refusal (some _) (some _) none _ = left _
  converted_put-Refusal (some _) none _ _ = left _
  converted_put-Refusal none _ _ _ = left _

  put_fields-Refusal :
      (a b c d : Option json.Value) → Refusal (put_fields json services db res a b c d)
  put_fields-Refusal (some name) (some session_id) (some num) (some upgrades) =
      converted_put-Refusal _ _ _ _
  put_fields-Refusal (some _) (some _) (some _) none = left _
  put_fields-Refusal (some _) (some _) none _ = left _
  put_fields-Refusal (some _) none _ _ = left _
  put_fields-Refusal none _ _ _ = left _

  act-Refusal : (c l : Bool) (a b : Option Bytes) → Refusal (act json services db res c l a b)
  act-Refusal true _ (some name) (some password) =
      created-Refusal _ (λ db'. add_user-false services db db' name password)
  act-Refusal true _ (some _) none = left _
  act-Refusal true _ none _ = left _
  act-Refusal false true (some name) (some password) =
      logged_in-Refusal _ (λ db'. get_values-none services db db' name password)
  act-Refusal false true (some _) none = left _
  act-Refusal false true none _ = left _
  act-Refusal false false _ _ = left _

  post_fields-Refusal :
      (a b c : Option json.Value) → Refusal (post_fields json services db res a b c)
  post_fields-Refusal (some action) (some name) (some password) = act-Refusal _ _ _ _
  post_fields-Refusal (some _) (some _) none = left _
  post_fields-Refusal (some _) none _ = left _
  post_fields-Refusal none _ _ = left _

  play_parsed-Refusal :
      (method : Verb) (o : Option json.Value) → Refusal (play_parsed json services db res method o)
  unfolding play
  play_parsed-Refusal method none = left _
  play_parsed-Refusal put (some body) = put_fields-Refusal _ _ _ _
  play_parsed-Refusal post (some body) = post_fields-Refusal _ _ _
  play_parsed-Refusal get (some body) = left _
  play_parsed-Refusal delete (some body) = left _
  play_parsed-Refusal (other name) (some body) = left _

-- If the game handler replies with a status other than 200, then the database is as it was.
pub handle_game-unchanged :
    (json : GameJson) (services : Services) (beast : Beast) (db db' : Database) (request : Request)
    (reply : Reply)
    → handle_game json services beast db request ≡ ok (db', reply)
    → reply.response.result ≢ Http.ok
    → db' ≡ db
unfolding handle_game
handle_game-unchanged json services beast db db' request reply h n =
    let (parsed, _, h1) = >>=-eq-ok (json.parse request.body) _ h in
    play_parsed-Refusal json services db (init_response beast request) request.method parsed db'
      reply h1 n
