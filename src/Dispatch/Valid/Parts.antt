-- ===== src/Dispatch/Valid/Parts.antt =====
-- The parts of the expression of src/request_dispatcher.cc, and what they describe.
use raddish.Base.{
  ℕ, true, [], ◌∷◌, ◌++◌, Bytes, codes, ==_iff, ◌≡◌, ◌≢◌, refl, sym, ◌∙◌, ap, subst, ◌⊎◌, inl, inr,
  arith,
}
use raddish.Std.Regex.{star, Repeats, done, more, Matches, literal, dot, plus, is_any, anything}
use raddish.Dispatch.Valid.{methods, newline, header}

-- Bytes that are not NUL.
abbrev pub NoNul : Bytes → Type 0
NoNul [] = Unit
NoNul (c ∷ cs) = (c ≢ 0) × NoNul cs

abbrev pub IsMethod : Bytes → Type 0
IsMethod m = (m ≡ codes "GET") ⊎ ((m ≡ codes "POST") ⊎ ((m ≡ codes "PUT") ⊎ (m ≡ codes "DELETE")))

abbrev pub IsNewline : Bytes → Type 0
IsNewline n = (n ≡ b'\n' ∷ []) ⊎ (n ≡ b'\r' ∷ b'\n' ∷ [])

-- Pieces that each have one byte at least, a colon, one byte at least, and a line end. The bytes are
-- any but NUL, so a piece may go over several lines, and not each line has a colon.
pub data HeaderPieces : Bytes → Type 0 where
  no_piece : {s : Bytes} → s ≡ [] → HeaderPieces s
  piece :
      {s : Bytes} (name value newline rest : Bytes)
      → NoNul name
      → name ≢ []
      → NoNul value
      → value ≢ []
      → IsNewline newline
      → HeaderPieces rest
      → s ≡ (name ++ (codes ":" ++ (value ++ newline))) ++ rest
      → HeaderPieces s

pub literal-to : (t s : Bytes) → s ≡ t → Matches (literal t) s
literal-to [] s e = e
literal-to (c ∷ t) s e = (c ∷ [], t, e, (c, refl, (==_iff c c).1 refl), literal-to t t refl)

pub literal-from : (t s : Bytes) → Matches (literal t) s → s ≡ t
literal-from [] s e = e
literal-from (c ∷ t) s (xs, ys, e, (d, f, g), m) =
    let p : d ≡ c = (==_iff d c).0 g in
    e ∙ ap (λ xs. xs ++ ys) (f ∙ ap (λ d. d ∷ []) p) ∙ ap (λ ys. c ∷ ys) (literal-from t ys m)

pub is_any-to : (c : ℕ) → c ≢ 0 → is_any c ≡ true
is_any-to c h = ground (arith, h)

pub is_any-from : (c : ℕ) → is_any c ≡ true → c ≢ 0
is_any-from c e f = ground (arith, e, f)

pub dots-to : (s : Bytes) → NoNul s → Matches (star dot) s
dots-to [] h = done refl
dots-to (c ∷ s) (h, t) = more (c ∷ []) s refl (c, refl, is_any-to c h) (dots-to s t)

pub dots-from : {s : Bytes} → Repeats (Matches dot) s → NoNul s
dots-from (done e) = subst NoNul (sym e) tt
dots-from (more xs ys e (c, f, g) r) =
    subst NoNul (sym (e ∙ ap (λ xs. xs ++ ys) f)) (is_any-from c g, dots-from r)

plus-to : (s : Bytes) → NoNul s → s ≢ [] → Matches (plus dot) s
plus-to [] h n = absurd (n refl)
plus-to (c ∷ s) (h, t) n = (c ∷ [], s, refl, (c, refl, is_any-to c h), dots-to s t)

plus-from : (s : Bytes) → Matches (plus dot) s → NoNul s × (s ≢ [])
plus-from s (xs, ys, e, (c, f, g), r) =
    let p = e ∙ ap (λ xs. xs ++ ys) f in
    (subst NoNul (sym p) (is_any-from c g, dots-from r), λ q. cc (sym p ∙ q))

pub newline-to : (s : Bytes) → IsNewline s → Matches newline s
newline-to s (inl e) = inl (literal-to (b'\n' ∷ []) s e)
newline-to s (inr e) = inr (literal-to (b'\r' ∷ b'\n' ∷ []) s e)

pub newline-from : (s : Bytes) → Matches newline s → IsNewline s
newline-from s (inl m) = inl (literal-from _ s m)
newline-from s (inr m) = inr (literal-from _ s m)

pub methods-to : (s : Bytes) → IsMethod s → Matches methods s
methods-to s (inl e) = inl (literal-to (codes "GET") s e)
methods-to s (inr (inl e)) = inr (inl (literal-to (codes "POST") s e))
methods-to s (inr (inr (inl e))) = inr (inr (inl (literal-to (codes "PUT") s e)))
methods-to s (inr (inr (inr e))) = inr (inr (inr (literal-to (codes "DELETE") s e)))

pub methods-from : (s : Bytes) → Matches methods s → IsMethod s
methods-from s (inl m) = inl (literal-from _ s m)
methods-from s (inr (inl m)) = inr (inl (literal-from _ s m))
methods-from s (inr (inr (inl m))) = inr (inr (inl (literal-from _ s m)))
methods-from s (inr (inr (inr m))) = inr (inr (inr (literal-from _ s m)))

pub headers-to : {s : Bytes} → HeaderPieces s → Repeats (Matches header) s
headers-to (no_piece e) = done e
headers-to (piece name value newline rest a b c d n h e) =
    more (name ++ (codes ":" ++ (value ++ newline))) rest e
      (
        name,
        _,
        refl,
        plus-to name a b,
        (
          codes ":",
          _,
          refl,
          literal-to (codes ":") _ refl,
          (value, newline, refl, plus-to value c d, newline-to newline n),
        ),
      )
      (headers-to h)

pub headers-from : {s : Bytes} → Repeats (Matches header) s → HeaderPieces s
headers-from (done e) = no_piece e
headers-from (more xs ys e (name, tail, f, a, (colon, end, g, b, (value, newline, h, c, n))) r) =
    let (a, a') = plus-from name a in
    let (c, c') = plus-from value c in
    piece name value newline ys a a' c c' (newline-from newline n) (headers-from r) (
      e
      ∙ ap (λ xs. xs ++ ys)
          (f
            ∙ ap (λ zs. name ++ zs)
                (g
                  ∙ ap (λ zs. zs ++ end) (literal-from (codes ":") colon b)
                  ∙ ap (λ zs. codes ":" ++ zs) h)))

pub anything-to : (s : Bytes) → Matches anything s
anything-to [] = done refl
anything-to (c ∷ s) = more (c ∷ []) s refl (c, refl, refl) (anything-to s)
