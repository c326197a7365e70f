-- ===== src/Crud/Target/Path.antt =====
-- The paths that `extract_elements` takes apart.
use raddish.Base.{ℕ, suc, ◌<◌, true, [], ◌∷◌, ◌++◌, Bytes, some, pos, ◌≡◌, ◌≢◌, refl, arith, All}
use raddish.Std.Numbers.{to_string, is_digit, int_limit}
use raddish.Std.Numbers.Decimal.{digits-All, digits-ne-nil, stoi-to_string}
use raddish.Std.Outcome.{ok}
use raddish.Crud.Target.{
  is_letter, skip_slashes, letters, after_letters, all_digits, digits_group, id_group,
  extract_elements,
}

letters-append :
    (entity rest : Bytes)
    → All is_letter entity
    → (letters (entity ++ b'/' ∷ rest) ≡ entity)
      × (after_letters (entity ++ b'/' ∷ rest) ≡ b'/' ∷ rest)
unfolding letters after_letters
letters-append [] rest a = (refl, refl)
letters-append (c ∷ cs) rest (h, a) =
    let (p, q) = letters-append cs rest a in (rw (h, p), rw (h, q))

all_digits-All : (ds : Bytes) → All is_digit ds → all_digits ds ≡ true
unfolding all_digits
all_digits-All [] a = refl
all_digits-All (d ∷ ds) (h, a) = rw (h, all_digits-All ds a)

skip_slashes-digits :
    (d : ℕ) (ds : Bytes) → is_digit d ≡ true → skip_slashes (b'/' ∷ d ∷ ds) ≡ d ∷ ds
unfolding skip_slashes
skip_slashes-digits d ds h = ground arith

digits_group-digits :
    (entity : Bytes) (d : ℕ) (ds : Bytes)
    → all_digits (d ∷ ds) ≡ true
    → digits_group entity true (d ∷ ds) ≡ some (entity, some (d ∷ ds))
unfolding digits_group
digits_group-digits entity d ds h = rw h

id_group-digits :
    (entity ds : Bytes)
    → ds ≢ []
    → All is_digit ds
    → id_group entity (b'/' ∷ ds) ≡ some (entity, some ds)
unfolding id_group
id_group-digits entity [] n a = absurd (n refl)
id_group-digits entity (d ∷ ds) n (h, a) =
    rw (skip_slashes-digits d ds h)
      (digits_group-digits entity d ds (all_digits-All (d ∷ ds) (h, a)))

skip_slashes-letter : (c : ℕ) (cs : Bytes) → is_letter c ≡ true → skip_slashes (c ∷ cs) ≡ c ∷ cs
unfolding skip_slashes
skip_slashes-letter c cs h = ground arith

to_string-All : (n : ℕ) → All is_digit (to_string (pos n))
unfolding to_string
to_string-All n = digits-All (suc n) n

-- The path of an entity and a number that fits an int gives the two back.
pub extract_elements-to_string :
    (entity : Bytes) (n : ℕ)
    → All is_letter entity
    → entity ≢ []
    → n < int_limit
    → extract_elements (b'/' ∷ (entity ++ b'/' ∷ to_string (pos n))) ≡ ok (some (entity, pos n))
unfolding extract_elements to_string
extract_elements-to_string [] n a ne h = absurd (ne refl)
extract_elements-to_string (c ∷ cs) n (l, a) ne h =
    let tail : Bytes = b'/' ∷ to_string (pos n) in
    let (p, q) = letters-append (c ∷ cs) (to_string (pos n)) (l, a) in
    let slash : skip_slashes (b'/' ∷ c ∷ (cs ++ tail)) ≡ c ∷ (cs ++ tail) =
      skip_slashes-letter c (cs ++ tail) l in
    rw (
      slash,
      p,
      q,
      id_group-digits (c ∷ cs) (to_string (pos n)) (digits-ne-nil n n) (to_string-All n),
      stoi-to_string n h,
    )
