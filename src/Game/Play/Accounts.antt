-- ===== src/Game/Play/Accounts.antt =====
-- When the functions of the game leave the database as it was.
use raddish.Base.{
  Bool, true, false, Bytes, Option, none, some, ℤ, ◌≡◌, inl, inr, sym, ap, Bool-cases,
}
use raddish.Std.Map.{Map}
use raddish.Std.Outcome.{Outcome, ok, >>=-eq-ok}
use raddish.Game.Database.{
  UserRow, Database, Services, GameData, adding, getting, updating, find_user, opened, user_exists,
  is_online, has_session_id, add_user,
}
use raddish.Game.Play.{get_values, update_values, get_of_user, logged_in}

-- The parts of a pair that a call returns.
pub returned {ℓ} :
    {A : Type ℓ} {db db' : Database} {a b : A}
    → ◌≡◌ {A = Outcome (Database × A)} (ok (db, a)) (ok (db', b))
    → (db ≡ db') × (a ≡ b)
returned {A = A} {db = db} {db' = db'} {a = a} {b = b} h =
    let p : ◌≡◌ {A = Database × A} (db, a) (db', b) = cc h in (ap (λ p. p.0) p, ap (λ p. p.1) p)

module _ (services : Services) (db db' : Database) where
  -- An answer false of `add_user` leaves the database.
  pub add_user-false :
      (username password : Bytes)
      → add_user services db username password ≡ ok (db', false)
      → db' ≡ db
  unfolding add_user
  add_user-false username password h =
      let (there, _, h1) = >>=-eq-ok (user_exists services db username) _ h in
      elim (Bool-cases there) [
        | inl e ↦ sym ((returned (rw e at h1)).0)
        | inr e ↦
            let (_, _, h2) = >>=-eq-ok (opened services adding db) _ (rw e at h1) in
            cc ((returned h2).1)
      ]

  -- An answer false of `update_values` leaves the database.
  pub update_values-false :
      (username session_id : Bytes) (radish_num : ℤ) (upgrades : Map ℤ)
      → update_values services db username session_id radish_num upgrades ≡ ok (db', false)
      → db' ≡ db
  unfolding update_values
  update_values-false username session_id radish_num upgrades h =
      let (online, _, h1) = >>=-eq-ok (is_online services db username) _ h in
      elim (Bool-cases online) [
        | inr e ↦ sym ((returned (rw e at h1)).0)
        | inl e ↦
            let (matched, _, h2) =
              >>=-eq-ok (has_session_id services db username session_id) _ (rw e at h1) in
            elim (Bool-cases matched) [
              | inl m ↦ sym ((returned (rw m at h2)).0)
              | inr m ↦
                  let (_, _, h3) = >>=-eq-ok (opened services updating db) _ (rw m at h2) in
                  cc ((returned h3).1)
            ]
      ]

  logged_in-none :
      (password : Bytes) (o : Option UserRow)
      → ◌≡◌ {A = Outcome (Database × Option GameData)}
          (ok (logged_in services db password o))
          (ok (db', none))
      → db' ≡ db
  logged_in-none password none h = sym ((returned h).0)
  logged_in-none password (some u) h = cc ((returned h).1)

  get_of_user-none :
      (username password : Bytes) (there : Bool)
      → get_of_user services db username password there ≡ ok (db', none)
      → db' ≡ db
  get_of_user-none username password false h = sym ((returned h).0)
  get_of_user-none username password true h =
      let (_, _, h1) = >>=-eq-ok (opened services getting db) _ h in
      logged_in-none password (find_user username db.users) h1

  -- A refused login leaves the database.
  pub get_values-none :
      (username password : Bytes)
      → get_values services db username password ≡ ok (db', none)
      → db' ≡ db
  unfolding get_values
  get_values-none username password h =
      let (online, _, h1) = >>=-eq-ok (is_online services db username) _ h in
      elim (Bool-cases online) [
        | inl e ↦ sym ((returned (rw e at h1)).0)
        | inr e ↦
            let (there, _, h2) = >>=-eq-ok (user_exists services db username) _ (rw e at h1) in
            get_of_user-none username password there h2
      ]
