-- ===== src/Config/Settings/Bounds.antt =====
-- The port of a configuration that is accepted.
use raddish.Base.{ℕ, ◌≤◌, ◌<◌, ◌≡◌, refl, arith, pos, negsuc, ℤ, ◌⊎◌, inl, inr, Bool-cases, ltb}
use raddish.Config.Tree.{Statements}
use raddish.Config.Settings.{
  ConfigInfo, Flow, ok, return_false, throw, undefined, hangs, ◌>>=◌, Locals, check_port,
  statement_loop, initial_locals, get_server_settings_inner, max_port,
}

-- What a sequence of two calls says of each, where it returns a value.
pub >>=-eq-ok {ℓ κ} :
    {A : Type ℓ} {B : Type κ} (call : Flow A) (next : A → Flow B) {result : B}
    → (call >>= next) ≡ ok result
    → (x : A) × (call ≡ ok x) × (next x ≡ ok result)
>>=-eq-ok return_false next p = cc
>>=-eq-ok (throw e) next p = cc
>>=-eq-ok undefined next p = cc
>>=-eq-ok hangs next p = cc
>>=-eq-ok (ok x) next p = (x, refl, p)

check_port-bounds :
    (n : ℤ) (σ : Locals) {info : ConfigInfo}
    → σ.port_num ≡ n
    → check_port σ ≡ ok info
    → (k : ℕ) × (info.port_num ≡ pos k) × (k ≤ 65353)
unfolding check_port
check_port-bounds (pos k) σ e h = (k, ground arith, ground arith)
check_port-bounds (negsuc k) σ e h = ground arith

-- A port that the server may have, and one that it may not.
abbrev pub IsPort : ℤ → Type 0
IsPort z = (n : ℕ) × (z ≡ pos n) × (n ≤ 65353)

abbrev pub IsNoPort : ℤ → Type 0
IsNoPort z = ((k : ℕ) × (z ≡ negsuc k)) ⊎ ((n : ℕ) × (z ≡ pos n) × (65353 < n))

-- What follows from the end of the loops over the statements: the variables are copied if the port
-- is one, and the function returns false if it is none; every other end is its end.
abbrev pub Checked : Flow Locals → Flow ConfigInfo → Type 0
Checked (ok σ) result =
    (IsPort σ.port_num
      × (result
          ≡ ok (record {
            port_num = σ.port_num;
            location_to_handler = σ.location_to_handler;
            location_to_directives = σ.location_to_directives;
          })))
    ⊎ (IsNoPort σ.port_num × (result ≡ return_false))
Checked return_false result = result ≡ return_false
Checked (throw e) result = result ≡ throw e
Checked undefined result = result ≡ undefined
Checked hangs result = result ≡ hangs

check_port-Checked : (z : ℤ) (σ : Locals) → σ.port_num ≡ z → Checked (ok σ) (check_port σ)
unfolding check_port
check_port-Checked (negsuc k) σ e = inr (inl (k, e), rw e refl)
check_port-Checked (pos n) σ e = elim (Bool-cases (ltb max_port n)) [
  | inl h ↦ inr (inr (n, e, ground (arith, h)), rw (e, h) refl)
  | inr h ↦ inl ((n, e, ground (arith, h)), rw (e, h) refl)
]

-- The function returns true exactly if its loops over the statements end, with a port from 0 to
-- 65353, and then it stores that port and the maps of the locations. It returns false if they end
-- with another number or return false, and every other end of the loops is its end.
pub get_server_settings_inner-Checked :
    (stray : ℕ) (config : Statements)
    → Checked (statement_loop stray config initial_locals) (get_server_settings_inner stray config)
unfolding get_server_settings_inner
get_server_settings_inner-Checked stray config = then_check _
  where
    then_check : (f : Flow Locals) → Checked f (f >>= check_port)
    then_check (ok σ) = check_port-Checked σ.port_num σ refl
    then_check return_false = refl
    then_check (throw e) = refl
    then_check undefined = refl
    then_check hangs = refl

-- If the function returns true, then the port that it stores is a number from 0 to 65353.
pub get_server_settings_inner-port :
    (stray : ℕ) (config : Statements) {info : ConfigInfo}
    → get_server_settings_inner stray config ≡ ok info
    → (n : ℕ) × (info.port_num ≡ pos n) × (n ≤ 65353)
unfolding get_server_settings_inner
get_server_settings_inner-port stray config h =
    let (σ, _, e) = >>=-eq-ok (statement_loop stray config initial_locals) check_port h in
    check_port-bounds σ.port_num σ refl e
