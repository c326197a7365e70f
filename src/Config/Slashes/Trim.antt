-- ===== src/Config/Slashes/Trim.antt =====
-- What the two loops compute, against a plain definition of the string with no slash at its end.
use raddish.Base.{
  ℕ, zero, suc, ◌-◌, ◌≤◌, ◌<◌, true, false, List, [], ◌∷◌, ◌++◌, Bytes, none, some, ◌==◌, ◌≡◌, ◌⊎◌,
  inl, inr, refl, ◌∙◌, sym, ap, arith, length, take, if◌then◌else◌, Bool-cases, ==_iff,
  length-append, take-append, take_of_length-le, append_assoc,
}
use raddish.Config.Slashes.{last_char, trim_loop, strip_loop, remove_slashes, has_key, contains}

abbrev join : ℕ → Bytes → Bytes
join c [] = if c == b'/' then [] else c ∷ []
join c (d ∷ ds) = c ∷ d ∷ ds

-- The string without the slashes at its end.
unfoldable pub trim : Bytes → Bytes
trim [] = []
trim (c ∷ cs) = join c (trim cs)

-- A list is empty or has a last element.
data Snoc (s : Bytes) : Type 0 where
  empty : s ≡ [] → Snoc s
  snoc : (xs : Bytes) (x : ℕ) → s ≡ xs ++ (x ∷ []) → Snoc s

Snoc-cons : (c : ℕ) (cs : Bytes) → Snoc cs → Snoc (c ∷ cs)
Snoc-cons c cs (empty e) = snoc [] c (ap (◌∷◌ c) e)
Snoc-cons c cs (snoc xs x e) = snoc (c ∷ xs) x (ap (◌∷◌ c) e)

Snoc-view : (s : Bytes) → Snoc s
Snoc-view [] = empty refl
Snoc-view (c ∷ cs) = Snoc-cons c cs (Snoc-view cs)

last_char-snoc : (stray : ℕ) (xs : Bytes) (x : ℕ) → last_char stray (xs ++ x ∷ []) ≡ x
unfolding last_char
last_char-snoc stray [] x = refl
last_char-snoc stray (y ∷ []) x = refl
last_char-snoc stray (y ∷ z ∷ xs) x = last_char-snoc stray (z ∷ xs) x

take-snoc : (xs : Bytes) (x : ℕ) → take (length (xs ++ x ∷ []) - 1) (xs ++ x ∷ []) ≡ xs
take-snoc xs x =
    ap (λ (n : ℕ). take n (xs ++ x ∷ [])) (omega (arith, length-append xs (x ∷ [])))
    ∙ take-append xs (x ∷ [])

trim-slash : (xs : Bytes) → trim (xs ++ b'/' ∷ []) ≡ trim xs
unfolding trim
trim-slash [] = refl
trim-slash (c ∷ xs) = ap (join c) (trim-slash xs)

trim-other : (xs : Bytes) (x : ℕ) → (x == b'/') ≡ false → trim (xs ++ x ∷ []) ≡ xs ++ x ∷ []
unfolding trim
trim-other [] x h = rw h
trim-other (c ∷ []) x h = rw h
trim-other (c ∷ d ∷ xs) x h = rw (trim-other (d ∷ xs) x h)

length-snoc : (xs : Bytes) (x : ℕ) → length (xs ++ x ∷ []) ≡ suc (length xs)
length-snoc xs x = omega (arith, length-append xs (x ∷ []))

module _ (stray : ℕ) where
  trim_loop-slash :
      (fuel : ℕ) (xs : Bytes) (x : ℕ)
      → (x == b'/') ≡ true
      → trim_loop stray (suc fuel) (xs ++ x ∷ []) ≡ trim_loop stray fuel xs
  unfolding trim_loop
  trim_loop-slash fuel xs x h =
      rw (trim_loop, last_char-snoc stray xs x, h) (ap (trim_loop stray fuel) (take-snoc xs x))

  trim_loop-other :
      (fuel : ℕ) (xs : Bytes) (x : ℕ)
      → (x == b'/') ≡ false
      → trim_loop stray (suc fuel) (xs ++ x ∷ []) ≡ some (xs ++ x ∷ [])
  unfolding trim_loop
  trim_loop-other fuel xs x h = rw (trim_loop, last_char-snoc stray xs x, h)

  strip_loop-slash :
      (fuel n : ℕ) (xs : Bytes) (x : ℕ)
      → (x == b'/') ≡ true
      → strip_loop stray (suc fuel) n (xs ++ x ∷ [])
        ≡ strip_loop stray fuel n (take (n - 1) (xs ++ x ∷ []))
  unfolding strip_loop
  strip_loop-slash fuel n xs x h = rw (strip_loop, last_char-snoc stray xs x, h)

  strip_loop-other :
      (fuel n : ℕ) (xs : Bytes) (x : ℕ)
      → (x == b'/') ≡ false
      → strip_loop stray (suc fuel) n (xs ++ x ∷ []) ≡ some (xs ++ x ∷ [])
  unfolding strip_loop
  strip_loop-other fuel n xs x h = rw (strip_loop, last_char-snoc stray xs x, h)

trim_eq-slash : (x : ℕ) (xs : Bytes) → (x == b'/') ≡ true → trim (xs ++ x ∷ []) ≡ trim xs
trim_eq-slash x xs h = ap (λ (c : ℕ). trim (xs ++ c ∷ [])) ((==_iff x b'/').0 h) ∙ trim-slash xs

-- With fuel for every byte the loop of `hasKey` removes exactly the slashes at the end, provided
-- the byte before an empty string is no slash.
pub trim_loop-trim :
    (stray : ℕ)
    → (stray == b'/') ≡ false
    → (fuel : ℕ) (key : Bytes) → length key < fuel
    → trim_loop stray fuel key ≡ some (trim key)
trim_loop-trim stray other zero key h = absurd (omega arith)
trim_loop-trim stray other (suc fuel) key h = go (Snoc-view key) (trim_loop-trim stray other fuel)
  where
    go :
        Snoc key
        → ((k : Bytes) → length k < fuel → trim_loop stray fuel k ≡ some (trim k))
        → trim_loop stray (suc fuel) key ≡ some (trim key)
    go (empty e) ih = rw e (unfold trim_loop last_char trim in rw (trim_loop, other))
    go (snoc xs x e) ih = elim (Bool-cases (x == b'/')) [
      | inl q ↦ rw e (
          trim_loop-slash stray fuel xs x q
          ∙ ih xs (omega (arith, ap length e, length-snoc xs x))
          ∙ ap some (sym (trim_eq-slash x xs q)))
      | inr q ↦ rw e (trim_loop-other stray fuel xs x q ∙ ap some (sym (trim-other xs x q)))
    ]

-- `hasKey` compares the location without the slashes at its end with the ones seen, provided that
-- the byte before an empty string is no slash.
pub has_key-trim :
    (stray : ℕ) (seen : List Bytes) (location : Bytes)
    → (stray == b'/') ≡ false
    → has_key stray seen location ≡ some (contains seen (trim location))
unfolding has_key
has_key-trim stray seen location other =
    rw (trim_loop-trim stray other (suc (length location)) location (omega arith))

-- A location has at most one slash at its end.
abbrev pub AtMostOneSlash : Bytes → Type 0
AtMostOneSlash location = (location ≡ trim location) ⊎ (location ≡ trim location ++ b'/' ∷ [])

last_char-join :
    (stray c : ℕ) (t : Bytes)
    → (stray == b'/') ≡ false
    → (last_char stray t == b'/') ≡ false
    → (last_char stray (join c t) == b'/') ≡ false
unfolding last_char
last_char-join stray c [] other h = elim (Bool-cases (c == b'/')) [
  | inl e ↦ rw e other
  | inr e ↦ rw e e
]
last_char-join stray c (d ∷ ds) other h = h

last_char-trim :
    (stray : ℕ) (s : Bytes) → (stray == b'/') ≡ false → (last_char stray (trim s) == b'/') ≡ false
unfolding trim last_char
last_char-trim stray [] other = other
last_char-trim stray (c ∷ cs) other =
    last_char-join stray c (trim cs) other (last_char-trim stray cs other)

strip_loop-done :
    (stray fuel n : ℕ) (s : Bytes)
    → (last_char stray s == b'/') ≡ false
    → strip_loop stray (suc fuel) n s ≡ some s
unfolding strip_loop
strip_loop-done stray fuel n s h = rw (strip_loop, h)

-- The loop over `remove_slash` removes the slash at the end of a location that has at most one,
-- provided that the byte before an empty string is no slash.
pub remove_slashes-trim :
    (stray : ℕ) (location : Bytes)
    → (stray == b'/') ≡ false
    → AtMostOneSlash location
    → remove_slashes stray location ≡ some (trim location)
unfolding remove_slashes
remove_slashes-trim stray location other (inl e) =
    strip_loop-done stray 2 (length location) location (rw e (last_char-trim stray location other))
    ∙ ap some e
remove_slashes-trim stray location other (inr e) =
    let t : Bytes = trim location in
    ap (λ (l : Bytes). strip_loop stray 3 (length l) l) e
    ∙ strip_loop-slash stray 2 (length (t ++ b'/' ∷ [])) t b'/' refl
    ∙ ap (strip_loop stray 2 (length (t ++ b'/' ∷ []))) (take-snoc t b'/')
    ∙ strip_loop-done stray 1 _ t (last_char-trim stray location other)

strip_loop-stuck :
    (stray fuel n : ℕ) (xs : Bytes)
    → length (xs ++ b'/' ∷ []) ≤ n - 1
    → strip_loop stray fuel n (xs ++ b'/' ∷ []) ≡ none
unfolding strip_loop
strip_loop-stuck stray zero n xs h = refl
strip_loop-stuck stray (suc fuel) n xs h =
    strip_loop-slash stray fuel n xs b'/' refl
    ∙ ap (strip_loop stray fuel n) (take_of_length-le (n - 1) (xs ++ b'/' ∷ []) h)
    ∙ strip_loop-stuck stray fuel n xs h

-- The loop over `remove_slash` never ends for a location with two slashes at its end: no number
-- of rounds is enough.
pub strip_loop-hangs :
    (stray fuel : ℕ) (location prefix : Bytes)
    → location ≡ prefix ++ (b'/' ∷ b'/' ∷ [])
    → strip_loop stray fuel (length location) location ≡ none
unfolding strip_loop
strip_loop-hangs stray zero location prefix e = refl
strip_loop-hangs stray (suc fuel) location prefix e =
    let xs : Bytes = prefix ++ b'/' ∷ [] in
    let e' : location ≡ xs ++ b'/' ∷ [] = e ∙ sym (append_assoc prefix (b'/' ∷ []) (b'/' ∷ [])) in
    rw e' (
      strip_loop-slash stray fuel (length (xs ++ b'/' ∷ [])) xs b'/' refl
      ∙ ap (strip_loop stray fuel (length (xs ++ b'/' ∷ []))) (take-snoc xs b'/')
      ∙ strip_loop-stuck stray fuel _ prefix (omega (arith, length-snoc xs b'/')))
