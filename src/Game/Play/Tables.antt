-- ===== src/Game/Play/Tables.antt =====
-- The keys of the game's tables, and the accounts, through the statements of
-- src/game_request_handler.cc.
use raddish.Base.{
  ℕ, ◌+◌, ◌≤◌, Bool, true, false, List, [], ◌∷◌, Bytes, Option, none, some, equal, ◌==◌, ℤ, ◌≡◌,
  refl, ◌∙◌, ap, subst, arith, inl, inr, Bool-cases,
}
use raddish.Game.Database.{UserRow, SessionRow, Database, Services, find_user, find_session}
use raddish.Game.Play.{set_radish_num, delete_session}

abbrev pub one_if : Bool → ℕ
one_if true = 1
one_if false = 0

-- How often a name, an id, or a session's user stands in its table.
unfoldable pub count_name : Bytes → List UserRow → ℕ
count_name name [] = 0
count_name name (u ∷ us) = one_if (equal u.username name) + count_name name us

unfoldable pub count_id : ℕ → List UserRow → ℕ
count_id id [] = 0
count_id id (u ∷ us) = one_if (u.user_id == id) + count_id id us

unfoldable pub count_session : ℕ → List SessionRow → ℕ
count_session id [] = 0
count_session id (s ∷ ss) = one_if (s.user_id == id) + count_session id ss

-- No two users have one name or one id, and no user has two sessions.
pub record Keyed (db : Database) : Type 0 where
  pub names : (name : Bytes) → count_name name db.users ≤ 1
  pub ids : (id : ℕ) → count_id id db.users ≤ 1
  pub sessions : (id : ℕ) → count_session id db.sessions ≤ 1

-- A row of the same account: all but the number of radishes.
pub record SameAccount (u v : UserRow) : Type 0 where
  pub user_id : v.user_id ≡ u.user_id
  pub username : v.username ≡ u.username
  pub hashed_pass : v.hashed_pass ≡ u.hashed_pass
  pub salt : v.salt ≡ u.salt

-- Every account is still found under its name.
abbrev pub Keeps : Database → Database → Type 0
Keeps db db' =
    (name : Bytes) (u : UserRow)
    → find_user name db.users ≡ some u
    → (v : UserRow) × (find_user name db'.users ≡ some v) × SameAccount u v

-- The ids that SQLite picks are new.
abbrev pub PicksNewIds : Services → Type 0
PicksNewIds services = (us : List UserRow) → count_id (services.new_user_id us) us ≡ 0

pub same_account : (u : UserRow) → SameAccount u u
same_account u = record { user_id = refl; username = refl; hashed_pass = refl; salt = refl }

pub Keeps-refl : (db db' : Database) → db'.users ≡ db.users → Keeps db db'
Keeps-refl db db' e name u f = (u, ap (find_user name) e ∙ f, same_account u)

pub count_name-find_user :
    (name : Bytes) (us : List UserRow) → find_user name us ≡ none → count_name name us ≡ 0
unfolding count_name find_user
count_name-find_user name [] e = refl
count_name-find_user name (u ∷ us) e = ground (arith, count_name-find_user name us)

pub count_session-find_session :
    (id : ℕ) (ss : List SessionRow) → find_session id ss ≡ none → count_session id ss ≡ 0
unfolding count_session find_session
count_session-find_session id [] e = refl
count_session-find_session id (s ∷ ss) e = ground (arith, count_session-find_session id ss)

pub count_name-set_radish_num :
    (name username : Bytes) (n : ℤ) (us : List UserRow)
    → count_name name (set_radish_num username n us) ≡ count_name name us
unfolding count_name set_radish_num
count_name-set_radish_num name username n [] = refl
count_name-set_radish_num name username n (u ∷ us) =
    ground (arith, count_name-set_radish_num name username n us)

pub count_id-set_radish_num :
    (id : ℕ) (username : Bytes) (n : ℤ) (us : List UserRow)
    → count_id id (set_radish_num username n us) ≡ count_id id us
unfolding count_id set_radish_num
count_id-set_radish_num id username n [] = refl
count_id-set_radish_num id username n (u ∷ us) =
    ground (arith, count_id-set_radish_num id username n us)

pub count_session-delete_session :
    (id : ℕ) (o : Option UserRow) (session_id : Bytes) (ss : List SessionRow)
    → count_session id (delete_session o session_id ss) ≤ count_session id ss
unfolding count_session delete_session
count_session-delete_session id o session_id [] = omega arith
count_session-delete_session id none session_id (s ∷ ss) = omega arith
count_session-delete_session id (some u) session_id (s ∷ ss) =
    ground (arith, count_session-delete_session id (some u) session_id ss)

-- A row is replaced by one of the same account.
find_user-row :
    (name : Bytes) (w v u : UserRow) (us vs : List UserRow)
    → SameAccount w v
    → find_user name (w ∷ us) ≡ some u
    → (find_user name us ≡ some u → (x : UserRow) × (find_user name vs ≡ some x) × SameAccount u x)
    → (x : UserRow) × (find_user name (v ∷ vs) ≡ some x) × SameAccount u x
unfolding find_user
find_user-row name w v u us vs same e rest = elim (Bool-cases (equal w.username name)) [
  | inl b ↦
      let q : w ≡ u = cc (rw b at e) in
      (v, rw (same.username, b) refl, subst (λ (u : UserRow). SameAccount u v) q same)
  | inr b ↦ let (x, f, g) = rest (rw b at e) in (x, rw (same.username, b) f, g)
]

pub find_user-set_radish_num :
    (name username : Bytes) (n : ℤ) (us : List UserRow) (u : UserRow)
    → find_user name us ≡ some u
    → (v : UserRow) × (find_user name (set_radish_num username n us) ≡ some v) × SameAccount u v
unfolding find_user set_radish_num
find_user-set_radish_num name username n [] u e = cc e
find_user-set_radish_num name username n (w ∷ us) u e =
    let rest = find_user-set_radish_num name username n us u in
    elim (Bool-cases (equal w.username username)) [
      | inl a ↦ rw a (find_user-row name w (record w { radish_num = n }) u us _ same_but e rest)
      | inr a ↦ rw a (find_user-row name w w u us _ (same_account w) e rest)
    ]
  where
    same_but : SameAccount w (record w { radish_num = n })
    same_but = record { user_id = refl; username = refl; hashed_pass = refl; salt = refl }
