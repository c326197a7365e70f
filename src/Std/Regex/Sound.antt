-- ===== src/Std/Regex/Sound.antt =====
-- The search for an expression finds what it describes.
use raddish.Base.{
  ℕ, Bool, true, false, [], ◌∷◌, ◌++◌, Bytes, ◌≡◌, refl, sym, ◌∙◌, ap, subst, ◌⊎◌, inl, inr,
  Bool-cases, arith,
}
use raddish.Std.Regex.{
  Regex, fails, empty, char, seq, alt, star, Repeats, done, more, Matches, nullable, alt_right,
  either, both, when, derivative, regex_match,
}

-- Both sides of what the simplified constructors describe.
abbrev Same : (Bytes → Type 0) → (Bytes → Type 0) → Type 0
Same P Q = (s : Bytes) → (P s → Q s) × (Q s → P s)

same : (r : Regex) → Same (Matches r) (Matches r)
same r s = (λ x. x, λ x. x)

alt_right-Same : (q r : Regex) → Same (Matches (alt q r)) (Matches (alt_right q r))
alt_right-Same q fails s = (λ x. elim x [ inl m ↦ m | inr e ↦ elim e [ ] ], inl)
alt_right-Same q empty s = same (alt q empty) s
alt_right-Same q (char p) s = same (alt q (char p)) s
alt_right-Same q (seq a b) s = same (alt q (seq a b)) s
alt_right-Same q (alt a b) s = same (alt q (alt a b)) s
alt_right-Same q (star a) s = same (alt q (star a)) s

either-Same : (q r : Regex) → Same (Matches (alt q r)) (Matches (either q r))
either-Same fails r s = (λ x. elim x [ inl e ↦ elim e [ ] | inr m ↦ m ], inr)
either-Same empty r s = alt_right-Same empty r s
either-Same (char p) r s = alt_right-Same (char p) r s
either-Same (seq a b) r s = alt_right-Same (seq a b) r s
either-Same (alt a b) r s = alt_right-Same (alt a b) r s
either-Same (star a) r s = alt_right-Same (star a) r s

both-Same : (q r : Regex) → Same (Matches (seq q r)) (Matches (both q r))
both-Same fails r s = (λ (_, _, _, x, _). elim x [ ], λ x. elim x [ ])
both-Same empty r s = (
  λ (xs, ys, e, n, m). subst (Matches r) (sym (e ∙ ap (λ xs. xs ++ ys) n)) m,
  λ m. ([], s, refl, refl, m),
)
both-Same (char p) r s = same (seq (char p) r) s
both-Same (seq a b) r s = same (seq (seq a b) r) s
both-Same (alt a b) r s = same (seq (alt a b) r) s
both-Same (star a) r s = same (seq (star a) r) s

++-empty : (xs ys : Bytes) → [] ≡ xs ++ ys → (xs ≡ []) × (ys ≡ [])
++-empty [] ys e = (refl, sym e)
++-empty (x ∷ xs) ys e = cc e

nullable-Matches : (r : Regex) → nullable r ≡ true → Matches r []
nullable-Matches fails e = cc e
nullable-Matches empty e = refl
nullable-Matches (char p) e = cc e
nullable-Matches (seq q r) e =
    ([], [], refl, nullable-Matches q (ground (arith, e)), nullable-Matches r (ground (arith, e)))
nullable-Matches (alt q r) e = elim (Bool-cases (nullable q)) [
  | inl a ↦ inl (nullable-Matches q a)
  | inr a ↦ inr (nullable-Matches r (ground (arith, e, a)))
]
nullable-Matches (star r) e = done refl

Matches-nullable : (r : Regex) → Matches r [] → nullable r ≡ true
Matches-nullable fails m = elim m [ ]
Matches-nullable empty m = refl
Matches-nullable (char p) (c, e, _) = cc e
Matches-nullable (seq q r) (xs, ys, e, m, n) =
    let (a, b) = ++-empty xs ys e in
    let f = Matches-nullable q (subst (Matches q) a m) in
    let g = Matches-nullable r (subst (Matches r) b n) in rw (f, g) refl
Matches-nullable (alt q r) (inl m) = rw (Matches-nullable q m) refl
Matches-nullable (alt q r) (inr m) = let f = Matches-nullable r m in ground (arith, f)
Matches-nullable (star r) m = refl

when-to : (b : Bool) (r : Regex) (s : Bytes) → b ≡ true → Matches r s → Matches (when b r) s
when-to true r s e m = m
when-to false r s e m = cc e

when-from : (b : Bool) (r : Regex) (s : Bytes) → Matches (when b r) s → (b ≡ true) × Matches r s
when-from true r s m = (refl, m)
when-from false r s m = elim m [ ]

-- A text behind a byte, cut in two.
abbrev Cut : ℕ → Bytes → Bytes → Bytes → Type 0
Cut c s xs ys = ((xs ≡ []) × (ys ≡ c ∷ s)) ⊎ ((zs : Bytes) × (xs ≡ c ∷ zs) × (s ≡ zs ++ ys))

cut : (c : ℕ) (s xs ys : Bytes) → c ∷ s ≡ xs ++ ys → Cut c s xs ys
cut c s [] ys e = inl (refl, sym e)
cut c s (x ∷ xs) ys e = inr (xs, cc e, cc e)

-- The first part of repeats that is not empty.
first_part :
    {P : Bytes → Type 0} (c : ℕ) (s : Bytes) {t : Bytes}
    → Repeats P t
    → t ≡ c ∷ s
    → (xs : Bytes) × (ys : Bytes) × (s ≡ xs ++ ys) × P (c ∷ xs) × Repeats P ys
first_part c s (done e) f = cc (sym e ∙ f)
first_part {P} c s (more xs ys e m n) f = elim (cut c s xs ys (sym f ∙ e)) [
  | inl (a, b) ↦ first_part c s n b
  | inr (zs, a, b) ↦ (zs, ys, b, subst P a m, n)
]

Matches-derivative :
    (c : ℕ) (r : Regex) (s : Bytes) → Matches r (c ∷ s) → Matches (derivative c r) s
Matches-derivative c fails s m = elim m [ ]
Matches-derivative c empty s e = cc e
Matches-derivative c (char p) s (d, e, q) =
    let f : d ≡ c = cc e in when-to (p c) empty s (ap p (sym f) ∙ q) (cc e)
Matches-derivative c (alt q r) s m =
    (either-Same (derivative c q) (derivative c r) s).0 (elim m [
      | inl m ↦ inl (Matches-derivative c q s m)
      | inr m ↦ inr (Matches-derivative c r s m)
    ])
Matches-derivative c (seq q r) s (xs, ys, e, m, n) =
    (either-Same (both (derivative c q) r) _ s).0 (elim (cut c s xs ys e) [
      | inl (a, b) ↦ inr (
          when-to (nullable q) _ s (Matches-nullable q (subst (Matches q) a m))
            (Matches-derivative c r s (subst (Matches r) b n)))
      | inr (zs, a, b) ↦ inl (
          (both-Same (derivative c q) r s).0
            (zs, ys, b, Matches-derivative c q zs (subst (Matches q) a m), n))
    ])
Matches-derivative c (star r) s m =
    let (xs, ys, e, a, b) = first_part c s m refl in
    (both-Same (derivative c r) (star r) s).0 (xs, ys, e, Matches-derivative c r xs a, b)

derivative-Matches :
    (c : ℕ) (r : Regex) (s : Bytes) → Matches (derivative c r) s → Matches r (c ∷ s)
derivative-Matches c fails s m = elim m [ ]
derivative-Matches c empty s m = elim m [ ]
derivative-Matches c (char p) s m =
    let (e, q) = when-from (p c) empty s m in (c, ap (λ xs. c ∷ xs) q, e)
derivative-Matches c (alt q r) s m = elim ((either-Same (derivative c q) (derivative c r) s).1 m) [
  | inl m ↦ inl (derivative-Matches c q s m)
  | inr m ↦ inr (derivative-Matches c r s m)
]
derivative-Matches c (seq q r) s m = elim ((either-Same (both (derivative c q) r) _ s).1 m) [
  | inl m ↦
      let (xs, ys, e, a, b) = (both-Same (derivative c q) r s).1 m in
      (c ∷ xs, ys, ap (λ xs. c ∷ xs) e, derivative-Matches c q xs a, b)
  | inr m ↦
      let (e, n) = when-from (nullable q) _ s m in
      ([], c ∷ s, refl, nullable-Matches q e, derivative-Matches c r s n)
]
derivative-Matches c (star r) s m =
    let (xs, ys, e, a, b) = (both-Same (derivative c r) (star r) s).1 m in
    more (c ∷ xs) ys (ap (λ xs. c ∷ xs) e) (derivative-Matches c r xs a) b

-- A match is found where there is one, and only there.
pub Matches-regex_match : (r : Regex) (s : Bytes) → Matches r s → regex_match r s ≡ true
unfolding regex_match
Matches-regex_match r [] m = Matches-nullable r m
Matches-regex_match r (c ∷ s) m =
    Matches-regex_match (derivative c r) s (Matches-derivative c r s m)

pub regex_match-Matches : (r : Regex) (s : Bytes) → regex_match r s ≡ true → Matches r s
unfolding regex_match
regex_match-Matches r [] e = nullable-Matches r e
regex_match-Matches r (c ∷ s) e =
    derivative-Matches c r s (regex_match-Matches (derivative c r) s e)
