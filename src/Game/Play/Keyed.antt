-- ===== src/Game/Play/Keyed.antt =====
-- The keys and the accounts, through the functions of src/game_request_handler.cc.
use raddish.Base.{
  ℕ, ◌+◌, ◌≤◌, Bool, true, false, ◌∷◌, Bytes, Option, none, some, equal, equal_iff, ◌==◌, ==_iff,
  if◌then◌else◌, ℤ, ◌≡◌, refl, sym, ◌∙◌, subst, arith, ◌⊎◌, inl, inr, Bool-cases, Option-cases,
}
use raddish.Std.Map.{Map}
use raddish.Std.Outcome.{ok, >>=-eq-ok}
use raddish.Game.Database.{
  UserRow, SessionRow, Database, Services, GameData, finding_user, adding, getting, updating,
  find_user, find_session, opened, user_exists, is_online, has_session_id, add_user, new_user,
  is_there,
}
use raddish.Game.Play.{
  get_values, update_values, log_in, get_of_user, logged_in, store_values, set_radish_num,
  delete_session, session_row, matching_id, ignoring, if_matching, put_upgrades,
}
use raddish.Game.Play.Accounts.{returned}
use raddish.Game.Play.Tables.{
  one_if, count_name, count_id, count_session, Keyed, SameAccount, Keeps, PicksNewIds, same_account,
  Keeps-refl, count_name-find_user, count_session-find_session, count_name-set_radish_num,
  count_id-set_radish_num, count_session-delete_session, find_user-set_radish_num,
}

module _ (services : Services) (db : Database) where
  -- A user of a new name and a new id.
  new_user-Keyed :
      (username password : Bytes)
      → PicksNewIds services
      → find_user username db.users ≡ none
      → Keyed db
      → Keyed (record db { users = new_user services db username password ∷ db.users })
        × Keeps db (record db { users = new_user services db username password ∷ db.users })
  unfolding count_name count_id new_user find_user
  new_user-Keyed username password new e k = (
    record {
      names = λ name. names_of name (Bool-cases (equal username name));
      ids = λ id. ids_of id (Bool-cases (services.new_user_id db.users == id));
      sessions = k.sessions;
    },
    λ name u f. keep name u f (Bool-cases (equal username name)),
  )
    where
      names_of :
          (name : Bytes)
          → (equal username name ≡ true) ⊎ (equal username name ≡ false)
          → one_if (equal username name) + count_name name db.users ≤ 1
      names_of name (inl q) =
          let z : count_name name db.users ≡ 0 = count_name-find_user name db.users (
            subst (λ (n : Bytes). find_user n db.users ≡ none) ((equal_iff username name).0 q) e) in
          rw q (omega (arith, z))
      names_of name (inr q) = rw q (omega (arith, k.names name))

      ids_of :
          (id : ℕ)
          → ((services.new_user_id db.users == id) ≡ true)
            ⊎ ((services.new_user_id db.users == id) ≡ false)
          → one_if (services.new_user_id db.users == id) + count_id id db.users ≤ 1
      ids_of id (inl q) =
          let z : count_id id db.users ≡ 0 =
            subst (λ (i : ℕ). count_id i db.users ≡ 0) ((==_iff _ id).0 q) (new db.users) in
          rw q (omega (arith, z))
      ids_of id (inr q) = rw q (omega (arith, k.ids id))

      keep :
          (name : Bytes) (u : UserRow)
          → find_user name db.users ≡ some u
          → ((equal username name ≡ true) ⊎ (equal username name ≡ false))
          → (x : UserRow) × ((if equal username name
                then some (new_user services db username password)
                else find_user name db.users)
              ≡ some x)
            × SameAccount u x
      keep name u f (inl q) =
          let same : username ≡ name = (equal_iff username name).0 q in
          cc (sym (subst (λ (n : Bytes). find_user n db.users ≡ none) same e) ∙ f)
      keep name u f (inr q) = rw q (u, f, same_account u)

  ignoring-session :
      (row : SessionRow) (id : ℕ)
      → count_session id db.sessions ≤ 1
      → count_session id (ignoring (find_session row.user_id db.sessions) row db.sessions) ≤ 1
  unfolding count_session
  ignoring-session row id k = elim (Option-cases (find_session row.user_id db.sessions)) [
    | inl e ↦ rw e (new_row e (Bool-cases (row.user_id == id)))
    | inr (s, e) ↦ rw e k
  ]
    where
      new_row :
          find_session row.user_id db.sessions ≡ none
          → ((row.user_id == id) ≡ true) ⊎ ((row.user_id == id) ≡ false)
          → one_if (row.user_id == id) + count_session id db.sessions ≤ 1
      new_row e (inl q) =
          let z : count_session id db.sessions ≡ 0 = count_session-find_session id db.sessions (
            subst (λ (i : ℕ). find_session i db.sessions ≡ none) ((==_iff row.user_id id).0 q) e) in
          rw q (omega (arith, z))
      new_row e (inr q) = rw q (omega (arith, k))

  -- The keys hold, and the accounts are kept.
  abbrev pub KeyedAfter : Database → Type 0
  KeyedAfter db' = Keyed db' × Keeps db db'

  unchanged : (db' : Database) → Keyed db → db ≡ db' → KeyedAfter db'
  unchanged db' k e = subst KeyedAfter e (k, Keeps-refl db db refl)

  missing : (o : Option UserRow) → is_there o ≡ false → o ≡ none
  missing none e = refl
  missing (some u) e = cc e

  -- Each function, with any answer.
  pub add_user-Keyed :
      (username password : Bytes) (db' : Database) (b : Bool)
      → PicksNewIds services
      → add_user services db username password ≡ ok (db', b)
      → Keyed db
      → KeyedAfter db'
  unfolding add_user user_exists
  add_user-Keyed username password db' b new h k =
      let (there, found, h1) = >>=-eq-ok (user_exists services db username) _ h in
      let (_, _, f) = >>=-eq-ok (opened services finding_user db) _ found in
      elim (Bool-cases there) [
        | inl e ↦ unchanged db' k ((returned (rw e at h1)).0)
        | inr e ↦
            let (_, _, h2) = >>=-eq-ok (opened services adding db) _ (rw e at h1) in
            let n = missing (find_user username db.users) (cc f ∙ e) in
            subst KeyedAfter ((returned h2).0) (new_user-Keyed username password new n k)
      ]

  logged_in-Keyed :
      (password : Bytes) (o : Option UserRow) (db' : Database) (g : Option GameData)
      → ok (logged_in services db password o) ≡ ok (db', g)
      → Keyed db
      → KeyedAfter db'
  unfolding log_in
  logged_in-Keyed password none db' g h k = unchanged db' k ((returned h).0)
  logged_in-Keyed password (some u) db' g h k = subst KeyedAfter ((returned h).0) (
    record {
      names = k.names;
      ids = k.ids;
      sessions = λ id. ignoring-session (session_row services db u _) id (k.sessions id);
    },
    λ name v f. (v, f, same_account v),
  )

  get_of_user-Keyed :
      (username password : Bytes) (there : Bool) (db' : Database) (g : Option GameData)
      → get_of_user services db username password there ≡ ok (db', g)
      → Keyed db
      → KeyedAfter db'
  get_of_user-Keyed username password false db' g h k = unchanged db' k ((returned h).0)
  get_of_user-Keyed username password true db' g h k =
      let (_, _, h1) = >>=-eq-ok (opened services getting db) _ h in
      logged_in-Keyed password (find_user username db.users) db' g h1 k

  pub get_values-Keyed :
      (username password : Bytes) (db' : Database) (g : Option GameData)
      → get_values services db username password ≡ ok (db', g)
      → Keyed db
      → KeyedAfter db'
  unfolding get_values
  get_values-Keyed username password db' g h k =
      let (online, _, h1) = >>=-eq-ok (is_online services db username) _ h in
      elim (Bool-cases online) [
        | inl e ↦ unchanged db' k ((returned (rw e at h1)).0)
        | inr e ↦
            let (there, _, h2) = >>=-eq-ok (user_exists services db username) _ (rw e at h1) in
            get_of_user-Keyed username password there db' g h2 k
      ]

  store_values-Keyed :
      (username session_id : Bytes) (n : ℤ) (upgrades : Map ℤ)
      → Keyed db
      → Keyed (store_values db username session_id n upgrades)
        × Keeps db (store_values db username session_id n upgrades)
  unfolding store_values
  store_values-Keyed username session_id n upgrades k =
      let user = find_user username db.users in
      elim (matching_id user db.sessions session_id)
        as (λ o. Keyed (changed user o) × Keeps db (changed user o)) [
          | none ↦ (
            record { names = k.names; ids = k.ids; sessions = λ id. fewer user id },
            λ name v f. (v, f, same_account v),
          )
          | some i ↦ (
            record {
              names = λ name.
                  subst (λ c. c ≤ 1) (sym (count_name-set_radish_num name username n db.users))
                    (k.names name);
              ids = λ id.
                  subst (λ c. c ≤ 1) (sym (count_id-set_radish_num id username n db.users))
                    (k.ids id);
              sessions = λ id. fewer user id;
            },
            λ name u f. find_user-set_radish_num name username n db.users u f,
          )
        ]
    where
      changed : Option UserRow → Option ℕ → Database
      changed user id = record {
        users = if_matching id (set_radish_num username n db.users) db.users;
        sessions = delete_session user session_id db.sessions;
        upgrades = put_upgrades id upgrades db.upgrades;
      }

      fewer :
          (user : Option UserRow) (id : ℕ)
          → count_session id (delete_session user session_id db.sessions) ≤ 1
      fewer user id =
          omega (arith, count_session-delete_session id user session_id db.sessions, k.sessions id)

  pub update_values-Keyed :
      (username session_id : Bytes) (n : ℤ) (upgrades : Map ℤ) (db' : Database) (b : Bool)
      → update_values services db username session_id n upgrades ≡ ok (db', b)
      → Keyed db
      → KeyedAfter db'
  unfolding update_values
  update_values-Keyed username session_id n upgrades db' b h k =
      let (online, _, h1) = >>=-eq-ok (is_online services db username) _ h in
      elim (Bool-cases online) [
        | inr e ↦ unchanged db' k ((returned (rw e at h1)).0)
        | inl e ↦
            let (matched, _, h2) =
              >>=-eq-ok (has_session_id services db username session_id) _ (rw e at h1) in
            elim (Bool-cases matched) [
              | inl m ↦ unchanged db' k ((returned (rw m at h2)).0)
              | inr m ↦
                  let (_, _, h3) = >>=-eq-ok (opened services updating db) _ (rw m at h2) in
                  subst KeyedAfter ((returned h3).0)
                    (store_values-Keyed username session_id n upgrades k)
            ]
      ]
