-- ===== src/Std/Numbers/Decimal.antt =====
-- Decimal numbers, printed by `to_string` and read by `stoi`.
use raddish.Base.{
  ℕ, zero, suc, ◌+◌, ◌-◌, ◌*◌, ◌/◌, ◌%◌, ◌<◌, Bool, true, false, [], ◌∷◌, ◌++◌, Bytes, ltb, ◌==◌,
  if◌then◌else◌, ℤ, pos, negsuc, ◌≡◌, ◌≢◌, refl, ◌∙◌, ap, arith, All, Bool-cases, inl, inr, lt→ltb,
}
use raddish.Std.Files.{has_slash}
use raddish.Std.Numbers.{
  in_range, value, thrown, out_of_range, is_digit, skip_space, digits_prefix, decimal, int_limit,
  convert, signed, stoi, digits, to_string,
}

All-append : (p : ℕ → Bool) (xs ys : Bytes) → All p xs → All p ys → All p (xs ++ ys)
All-append p [] ys a b = b
All-append p (x ∷ xs) ys (h, a) b = (h, All-append p xs ys a b)

pub digits-All : (fuel n : ℕ) → All is_digit (digits fuel n)
unfolding digits
digits-All zero n = tt
digits-All (suc fuel) n = elim (Bool-cases (ltb n 10)) [
  | inl h ↦ rw h (ground arith, tt)
  | inr h ↦
      rw h
        (All-append is_digit (digits fuel (n / 10)) _ (digits-All fuel (n / 10)) (ground arith, tt))
]

pub decimal-append :
    (acc : ℕ) (xs : Bytes) (d : ℕ) → decimal acc (xs ++ d ∷ []) ≡ decimal acc xs * 10 + (d - b'0')
unfolding decimal
decimal-append acc [] d = refl
decimal-append acc (x ∷ xs) d = decimal-append (acc * 10 + (x - b'0')) xs d

decimal-digits : (fuel n : ℕ) → n < fuel → decimal 0 (digits fuel n) ≡ n
unfolding digits
decimal-digits zero n h = absurd (omega arith)
decimal-digits (suc fuel) n h = elim (Bool-cases (ltb n 10)) [
  | inl e ↦ rw e (unfold decimal in omega arith)
  | inr e ↦ rw e (
      rw (decimal-append 0 (digits fuel (n / 10)) (b'0' + n % 10))
        (ground (arith, decimal-digits fuel (n / 10) (ground arith))))
]

pub digits-ne-nil : (fuel n : ℕ) → digits (suc fuel) n ≢ []
unfolding digits
digits-ne-nil fuel n = elim (Bool-cases (ltb n 10)) [
  | inl e ↦ rw e (λ p. cc)
  | inr e ↦ rw e (append-ne-nil (digits fuel (n / 10)) _)
]
  where
    append-ne-nil : (xs : Bytes) (x : ℕ) → (xs ++ x ∷ []) ≢ []
    append-ne-nil [] x = λ p. cc
    append-ne-nil (y ∷ xs) x = λ p. cc

digits_prefix-All : (ds : Bytes) → All is_digit ds → digits_prefix ds ≡ ds
unfolding digits_prefix
digits_prefix-All [] a = refl
digits_prefix-All (d ∷ ds) (h, a) = rw h (rw (digits_prefix-All ds a))

skip_space-digit : (d : ℕ) (ds : Bytes) → is_digit d ≡ true → skip_space (d ∷ ds) ≡ d ∷ ds
unfolding skip_space
skip_space-digit d ds h = ground arith

signed-digits :
    (d : ℕ) (ds : Bytes) → All is_digit (d ∷ ds) → signed (d ∷ ds) ≡ convert false (d ∷ ds)
unfolding signed
signed-digits d ds (h, a) = ground (arith, digits_prefix-All (d ∷ ds) (h, a))

-- A text of digits alone is converted to its value, if that is an `int`, and is out of range if
-- not.
pub stoi-digits :
    (ds : Bytes)
    → ds ≢ []
    → All is_digit ds
    → stoi ds
      ≡ (if ltb (decimal 0 ds) int_limit then value (pos (decimal 0 ds)) else thrown out_of_range)
unfolding stoi
stoi-digits [] ne a = absurd (ne refl)
stoi-digits (d ∷ ds) ne (h, a) = ap signed (skip_space-digit d ds h) ∙ signed-digits d ds (h, a)

-- `stoi` reads back what `to_string` prints for an `int` that is not negative.
pub stoi-to_string : (n : ℕ) → n < int_limit → stoi (to_string (pos n)) ≡ value (pos n)
unfolding to_string
stoi-to_string n h =
    stoi-digits (digits (suc n) n) (digits-ne-nil n n) (digits-All (suc n) n)
    ∙ rw (decimal-digits (suc n) n (omega arith)) (rw (lt→ltb n int_limit h))

-- The values of an `int`.
abbrev pub InRange : ℤ → Type 0
InRange (pos n) = n < int_limit
InRange (negsuc n) = n < int_limit

in_range-InRange : (negative : Bool) (n : ℕ) {z : ℤ} → in_range negative n ≡ value z → InRange z
in_range-InRange true zero h = ground arith
in_range-InRange true (suc n) h = ground arith
in_range-InRange false n h = ground arith

convert-InRange : (negative : Bool) (ds : Bytes) {z : ℤ} → convert negative ds ≡ value z → InRange z
convert-InRange negative [] h = cc
convert-InRange negative (d ∷ ds) h = in_range-InRange negative (decimal 0 (d ∷ ds)) h

signed-InRange : (s : Bytes) {z : ℤ} → signed s ≡ value z → InRange z
unfolding signed
signed-InRange [] h = cc
signed-InRange (c ∷ cs) h = elim (Bool-cases (c == b'-')) [
  | inl e ↦ convert-InRange true (digits_prefix cs) (rw e at h)
  | inr e ↦ elim (Bool-cases (c == b'+')) [
    | inl e' ↦ convert-InRange false (digits_prefix cs) (rw e' at (rw e at h))
    | inr e' ↦ convert-InRange false (digits_prefix (c ∷ cs)) (rw e' at (rw e at h))
  ]
]

-- What `stoi` returns is an `int`.
pub stoi-InRange : (s : Bytes) {z : ℤ} → stoi s ≡ value z → InRange z
unfolding stoi
stoi-InRange s h = signed-InRange (skip_space s) h

convert-negative :
    (n : ℕ) (ds : Bytes)
    → ds ≢ []
    → decimal 0 ds ≡ suc n
    → n < int_limit
    → convert true ds ≡ value (negsuc n)
convert-negative n [] ne e h = absurd (ne refl)
convert-negative n (d ∷ ds) ne e h = rw e (ground arith)

signed-minus : (ds : Bytes) → All is_digit ds → stoi (b'-' ∷ ds) ≡ convert true ds
unfolding stoi skip_space signed
signed-minus ds a = ap (convert true) (digits_prefix-All ds a)

-- `stoi` reads back what `to_string` prints, for every `int`.
pub stoi-to_string-InRange : (z : ℤ) → InRange z → stoi (to_string z) ≡ value z
unfolding to_string
stoi-to_string-InRange (pos n) h = stoi-to_string n h
stoi-to_string-InRange (negsuc n) h =
    let ds : Bytes = digits (suc (suc n)) (suc n) in
    signed-minus ds (digits-All (suc (suc n)) (suc n))
    ∙ convert-negative n ds (digits-ne-nil (suc n) (suc n))
        (decimal-digits (suc (suc n)) (suc n) (omega arith)) h

has_slash-digits : (ds : Bytes) → All is_digit ds → has_slash ds ≡ false
unfolding has_slash
has_slash-digits [] a = refl
has_slash-digits (d ∷ ds) (h, a) = ground (arith, has_slash-digits ds a)

-- A printed number is a plain file name.
pub has_slash-to_string : (z : ℤ) → has_slash (to_string z) ≡ false
unfolding to_string has_slash
has_slash-to_string (pos n) = has_slash-digits (digits (suc n) n) (digits-All (suc n) n)
has_slash-to_string (negsuc n) =
    has_slash-digits (digits (suc (suc n)) (suc n)) (digits-All (suc (suc n)) (suc n))
