-- ===== src/Game/Play/Login.antt =====
-- What a login and an update of the game do, where SQLite does not fail.
use raddish.Base.{
  true, false, Bytes, none, some, equal, equal_refl, ℤ, pos, ltb, length, take, ◌++◌, ◌∷◌, [], ◌≡◌,
  inl, inr, refl, sym, ap, ◌∙◌, Bool-cases,
}
use raddish.Std.Map.{Map}
use raddish.Std.Outcome.{ok, >>=-eq-ok}
use raddish.Game.Database.{
  Call, UserRow, Database, Services, GameData, adding, getting, updating, find_user, find_session,
  opened, user_exists, is_online, has_session_id, add_user, new_user, hash_password, finding_user,
  finding_session, matching,
}
use raddish.Game.Play.{get_values, update_values, logged_in, log_in, no_data, store_values}
use raddish.Game.Play.Accounts.{returned}

module _ (services : Services)
    (works : (c : Call) (db : Database) → services.fails c db ≡ false) where
  opened-ok : (c : Call) (db : Database) → opened services c db ≡ ok tt
  unfolding opened
  opened-ok c db = rw (works c db)

  -- A login that gets as far as the password.
  get_values-log_in :
      (db : Database) (username password : Bytes) (u : UserRow)
      → find_user username db.users ≡ some u
      → find_session u.user_id db.sessions ≡ none
      → get_values services db username password ≡ ok (logged_in services db password (some u))
  unfolding get_values is_online user_exists
  get_values-log_in db username password u f s =
      rw (opened-ok finding_session db, f, s, opened-ok finding_user db, f, opened-ok getting db, f)

  -- What `add_user` leaves.
  add_user-users :
      (db db' : Database) (username password : Bytes)
      → add_user services db username password ≡ ok (db', true)
      → db' ≡ record db { users = new_user services db username password ∷ db.users }
  unfolding add_user
  add_user-users db db' username password h =
      let (there, _, h1) = >>=-eq-ok (user_exists services db username) _ h in
      elim (Bool-cases there) [
        | inl e ↦ cc ((returned (rw e at h1)).1)
        | inr e ↦
            let (_, _, h2) = >>=-eq-ok (opened services adding db) _ (rw e at h1) in
            sym ((returned h2).0)
      ]

  new_user-found :
      (db : Database) (username password : Bytes)
      → find_user username (new_user services db username password ∷ db.users)
        ≡ some (new_user services db username password)
  unfolding find_user new_user
  new_user-found db username password = rw (equal_refl username)

  logged_in-new_user :
      (db db' : Database) (username password : Bytes)
      → (game_data : GameData) × ((logged_in services db' password
            (some (new_user services db username password))).1
          ≡ some game_data)
        × (game_data.radish_num ≡ some (pos 0))
  unfolding new_user log_in
  logged_in-new_user db db' username password =
      rw (equal_refl (hash_password services password (services.create_salt db))) (_, refl, refl)

  no_session :
      (db : Database) (username password : Bytes)
      → find_session (services.new_user_id db.users) db.sessions ≡ none
      → find_session (new_user services db username password).user_id db.sessions ≡ none
  unfolding new_user
  no_session db username password s = s

  logged_in-wrong :
      (db : Database) (password : Bytes) (u : UserRow)
      → equal u.hashed_pass (hash_password services password u.salt) ≡ false
      → (logged_in services db password (some u)).1 ≡ some no_data
  unfolding log_in
  logged_in-wrong db password u w = rw w

  is_online-session :
      (db : Database) (username : Bytes) (u : UserRow) (s : Bytes)
      → find_user username db.users ≡ some u
      → find_session u.user_id db.sessions ≡ some s
      → is_online services db username ≡ ok true
  unfolding is_online
  is_online-session db username u s f e = rw (opened-ok finding_session db, f, e)

  has_session_id-other :
      (db : Database) (username session_id : Bytes) (u : UserRow) (s : Bytes)
      → find_user username db.users ≡ some u
      → find_session u.user_id db.sessions ≡ some s
      → ltb (length session_id) 15 ≡ false
      → equal s (take 16 (session_id ++ 0 ∷ [])) ≡ false
      → has_session_id services db username session_id ≡ ok false
  unfolding has_session_id
  has_session_id-other db username session_id u s f e l t = rw (opened-ok matching db, f, e, l, t)

  store_values-users :
      (db : Database) (username session_id : Bytes) (radish_num : ℤ) (upgrades : Map ℤ)
      (u : UserRow) (s : Bytes)
      → find_user username db.users ≡ some u
      → find_session u.user_id db.sessions ≡ some s
      → equal s session_id ≡ false
      → (store_values db username session_id radish_num upgrades).users ≡ db.users
  unfolding store_values
  store_values-users db username session_id radish_num upgrades u s f e m = rw (f, e, m)

  -- If SQLite does not fail, a name that was added can log in with its password, provided that the
  -- user id that was picked has no session; the number of radishes is then 0.
  pub get_values-add_user :
      (db db' : Database) (username password : Bytes)
      → add_user services db username password ≡ ok (db', true)
      → find_session (services.new_user_id db.users) db.sessions ≡ none
      → (after : Database) × (game_data : GameData) × (get_values services db' username password
          ≡ ok (after, some game_data))
        × (game_data.radish_num ≡ some (pos 0))
  get_values-add_user db db' username password h s =
      let u = new_user services db username password in
      let e = add_user-users db db' username password h in
      let (game_data, p, q) = logged_in-new_user db db' username password in
      let f : find_user username db'.users ≡ some u =
        ap (λ (m : Database). find_user username m.users) e ∙ new_user-found db username password in
      let s' : find_session u.user_id db'.sessions ≡ none =
        ap (λ (m : Database). find_session u.user_id m.sessions) e
        ∙ no_session db username password s in
      (
        _,
        game_data,
        get_values-log_in db' username password u f s'
            ∙ (λ i. ok ((logged_in services db' password (some u)).0, p i)),
        q,
      )

  -- If SQLite does not fail, a login of a user without a session is answered as a success even if
  -- the hash of the password is not the user's; the data is then what was there before: no number
  -- of radishes, no upgrades and no session.
  pub get_values-wrong_password :
      (db : Database) (username password : Bytes) (u : UserRow)
      → find_user username db.users ≡ some u
      → find_session u.user_id db.sessions ≡ none
      → equal u.hashed_pass (hash_password services password u.salt) ≡ false
      → (after : Database) × (get_values services db username password ≡ ok (after, some no_data))
  get_values-wrong_password db username password u f s w =
      let after : Database = (logged_in services db password (some u)).0 in
      (
        after,
        get_values-log_in db username password u f s
            ∙ (λ i. ok (after, logged_in-wrong db password u w i)),
      )

  -- If SQLite does not fail, an update of a user with a session, whose own session id is neither
  -- the given one, which has at least fifteen bytes, nor the sixteen bytes bound of it, is answered
  -- as a success, and the users stay as they were.
  pub update_values-stale :
      (db : Database) (username session_id : Bytes) (radish_num : ℤ) (upgrades : Map ℤ)
      (u : UserRow) (s : Bytes)
      → find_user username db.users ≡ some u
      → find_session u.user_id db.sessions ≡ some s
      → ltb (length session_id) 15 ≡ false
      → equal s session_id ≡ false
      → equal s (take 16 (session_id ++ 0 ∷ [])) ≡ false
      → (after : Database) × (update_values services db username session_id radish_num upgrades
          ≡ ok (after, true))
        × (after.users ≡ db.users)
  unfolding update_values
  update_values-stale db username session_id radish_num upgrades u s f e l m t = (
    store_values db username session_id radish_num upgrades,
    rw (
      is_online-session db username u s f e,
      has_session_id-other db username session_id u s f e l t,
      opened-ok updating db,
    ),
    store_values-users db username session_id radish_num upgrades u s f e m,
  )
