-- ===== src/Game/Handler/Keyed.antt =====
-- The keys of the tables and the accounts, through every request to the game handler.
use raddish.Base.{Bool, true, false, Bytes, Option, none, some, ℤ, ◌≡◌, refl, subst}
use raddish.Std.{Exception, runtime_error, invalid_argument, out_of_range}
use raddish.Std.Map.{Map}
use raddish.Std.Outcome.{Outcome, ok, >>=-eq-ok, throw, undefined}
use raddish.Http.{
  get, put, post, delete, other, Verb, Request, Response, Beast, Reply, init_response,
}
use raddish.Game.Database.{Database, Services, GameData, add_user}
use raddish.Game.Play.{get_values, update_values}
use raddish.Game.Play.Accounts.{returned}
use raddish.Game.Play.Tables.{Keyed, Keeps, PicksNewIds, Keeps-refl}
use raddish.Game.Play.Keyed.{add_user-Keyed, get_values-Keyed, update_values-Keyed}
use raddish.Game.Handler.{
  GameJson, Played, caught, updated, converted_put, put_fields, created, logged_in, act,
  post_fields, play, play_parsed, handle_game,
}

-- What each call of the three functions leaves, the request leaves.
module _ (json : GameJson) (services : Services) (db : Database) (res : Response)
    (P : Database → Type 0) (same : P db) where
  abbrev Leaves : Played → Type 0
  Leaves played = (db' : Database) (reply : Reply) → played ≡ ok (db', reply) → P db'

  left : (reply : Reply) → Leaves (ok (db, reply))
  left reply db' reply' h = subst P ((returned h).0) same

  answered : (db1 : Database) (reply : Reply) → P db1 → Leaves (ok (db1, reply))
  answered db1 reply p db' reply' h = subst P ((returned h).0) p

  caught-Leaves : (e : Exception) → Leaves (caught json services db res e)
  unfolding caught
  caught-Leaves (runtime_error e) = left _
  caught-Leaves invalid_argument = left _
  caught-Leaves out_of_range = left _

  created-Leaves :
      (o : Outcome (Database × Bool))
      → ((db' : Database) (b : Bool) → o ≡ ok (db', b) → P db')
      → Leaves (created json services db res o)
  created-Leaves (ok (db1, true)) p = answered db1 _ (p db1 true refl)
  created-Leaves (ok (db1, false)) p = answered db1 _ (p db1 false refl)
  created-Leaves (throw e) p = caught-Leaves e
  created-Leaves undefined p = λ db' reply h. cc h

  updated-Leaves :
      (o : Outcome (Database × Bool))
      → ((db' : Database) (b : Bool) → o ≡ ok (db', b) → P db')
      → Leaves (updated json services db res o)
  updated-Leaves (ok (db1, true)) p = answered db1 _ (p db1 true refl)
  updated-Leaves (ok (db1, false)) p = answered db1 _ (p db1 false refl)
  updated-Leaves (throw e) p = caught-Leaves e
  updated-Leaves undefined p = λ db' reply h. cc h

  logged_in-Leaves :
      (o : Outcome (Database × Option GameData))
      → ((db' : Database) (g : Option GameData) → o ≡ ok (db', g) → P db')
      → Leaves (logged_in json services db res o)
  logged_in-Leaves (ok (db1, some g)) p = answered db1 _ (p db1 (some g) refl)
  logged_in-Leaves (ok (db1, none)) p = answered db1 _ (p db1 none refl)
  logged_in-Leaves (throw e) p = caught-Leaves e
  logged_in-Leaves undefined p = λ db' reply h. cc h

  module _
      (adds : (name password : Bytes) (db' : Database) (b : Bool)
        → add_user services db name password ≡ ok (db', b)
        → P db')
      (gets : (name password : Bytes) (db' : Database) (g : Option GameData)
        → get_values services db name password ≡ ok (db', g)
        → P db')
      (updates : (name session_id : Bytes) (n : ℤ) (upgrades : Map ℤ) (db' : Database) (b : Bool)
        → update_values services db name session_id n upgrades ≡ ok (db', b)
        → P db') where
    converted_put-Leaves :
        (a b : Option Bytes) (c : Option ℤ) (d : Option (Map ℤ))
        → Leaves (converted_put json services db res a b c d)
    converted_put-Leaves (some name) (some session_id) (some num) (some upgrades) =
        updated-Leaves _ (updates name session_id num upgrades)
    converted_put-Leaves (some _) (some _) (some _) none = left _
    converted_put-Leaves (some _) (some _) none _ = left _
    converted_put-Leaves (some _) none _ _ = left _
    converted_put-Leaves none _ _ _ = left _

    put_fields-Leaves :
        (a b c d : Option json.Value) → Leaves (put_fields json services db res a b c d)
    put_fields-Leaves (some name) (some session_id) (some num) (some upgrades) =
        converted_put-Leaves _ _ _ _
    put_fields-Leaves (some _) (some _) (some _) none = left _
    put_fields-Leaves (some _) (some _) none _ = left _
    put_fields-Leaves (some _) none _ _ = left _
    put_fields-Leaves none _ _ _ = left _

    act-Leaves : (c l : Bool) (a b : Option Bytes) → Leaves (act json services db res c l a b)
    act-Leaves true _ (some name) (some password) = created-Leaves _ (adds name password)
    act-Leaves true _ (some _) none = left _
    act-Leaves true _ none _ = left _
    act-Leaves false true (some name) (some password) = logged_in-Leaves _ (gets name password)
    act-Leaves false true (some _) none = left _
    act-Leaves false true none _ = left _
    act-Leaves false false _ _ = left _

    post_fields-Leaves :
        (a b c : Option json.Value) → Leaves (post_fields json services db res a b c)
    post_fields-Leaves (some action) (some name) (some password) = act-Leaves _ _ _ _
    post_fields-Leaves (some _) (some _) none = left _
    post_fields-Leaves (some _) none _ = left _
    post_fields-Leaves none _ _ = left _

    play_parsed-Leaves :
        (method : Verb) (o : Option json.Value) → Leaves (play_parsed json services db res method o)
    unfolding play
    play_parsed-Leaves method none = left _
    play_parsed-Leaves put (some body) = put_fields-Leaves _ _ _ _
    play_parsed-Leaves post (some body) = post_fields-Leaves _ _ _
    play_parsed-Leaves get (some body) = left _
    play_parsed-Leaves delete (some body) = left _
    play_parsed-Leaves (other name) (some body) = left _

-- If no two users have one name or one id and no user has two sessions, and SQLite picks ids that are
-- new, then after any request that the game handler answers this still holds, and every account is
-- still found under its name, with the same id, hash of the password and salt. So no request removes
-- an account, takes its name or changes its password.
pub handle_game-Keyed :
    (json : GameJson) (services : Services) (beast : Beast) (db db' : Database) (request : Request)
    (reply : Reply)
    → PicksNewIds services
    → Keyed db
    → handle_game json services beast db request ≡ ok (db', reply)
    → Keyed db' × Keeps db db'
unfolding handle_game
handle_game-Keyed json services beast db db' request reply new k h =
    let (parsed, _, h1) = >>=-eq-ok (json.parse request.body) _ h in
    play_parsed-Leaves json services db (init_response beast request) (λ d. Keyed d × Keeps db d)
      (k, Keeps-refl db db refl)
      (λ name password d b e. add_user-Keyed services db name password d b new e k)
      (λ name password d g e. get_values-Keyed services db name password d g e k)
      (λ name session_id n upgrades d b e.
        update_values-Keyed services db name session_id n upgrades d b e k)
      request.method parsed db' reply h1
