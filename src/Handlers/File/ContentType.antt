-- ===== src/Handlers/File/ContentType.antt =====
-- The extension that `get_content_type` finds.
use raddish.Base.{
  ℕ, zero, suc, ◌+◌, ◌-◌, Bool, true, false, not, [], ◌∷◌, ◌++◌, Bytes, ◌==◌, ◌≡◌, ◌≢◌, refl, ◌∙◌,
  ap, arith, All, length, drop, length-append,
}
use raddish.Handlers.File.{char_at, dot_loop, file_extension}

char_at-append_right :
    (xs ys : Bytes) (i j : ℕ) → i ≡ length xs + j → char_at (xs ++ ys) i ≡ char_at ys j
unfolding char_at
char_at-append_right [] ys i j e = ap (char_at ys) (omega arith)
char_at-append_right (x ∷ xs) ys zero j e = absurd (omega arith)
char_at-append_right (x ∷ xs) ys (suc i) j e = char_at-append_right xs ys i j (omega arith)

-- A byte of a name with no dot.
abbrev pub no_dot : ℕ → Bool
no_dot c = not (c == b'.')

char_at-no_dot : (s : Bytes) (i : ℕ) → All no_dot s → (char_at s i == b'.') ≡ false
unfolding char_at
char_at-no_dot [] i a = refl
char_at-no_dot (c ∷ cs) zero (h, a) = ground arith
char_at-no_dot (c ∷ cs) (suc i) (h, a) = char_at-no_dot cs i a

dot_loop-found : (s : Bytes) (i : ℕ) → (char_at s i == b'.') ≡ true → dot_loop (suc i) s ≡ suc i
unfolding dot_loop
dot_loop-found s i h = rw (dot_loop, h)

dot_loop-passed :
    (s : Bytes) (i : ℕ) → (char_at s i == b'.') ≡ false → dot_loop (suc i) s ≡ dot_loop i s
unfolding dot_loop
dot_loop-passed s i h = rw (dot_loop, h)

dot_loop-extension :
    (p extension : Bytes) (k n : ℕ)
    → All no_dot extension
    → n ≡ length p + k
    → dot_loop (suc n) (p ++ (b'.' ∷ extension)) ≡ suc (length p)
unfolding char_at
dot_loop-extension p extension zero n a e =
    dot_loop-found _ n (ap (λ (c : ℕ). c == b'.') (char_at-append_right p (b'.' ∷ extension) n 0 e))
    ∙ ap suc (omega arith)
dot_loop-extension p extension (suc k) zero a e = absurd (omega arith)
dot_loop-extension p extension (suc k) (suc n) a e =
    dot_loop-passed _ (suc n) (
      ap (λ (c : ℕ). c == b'.') (char_at-append_right p (b'.' ∷ extension) (suc n) (suc k) e)
      ∙ char_at-no_dot extension k a)
    ∙ dot_loop-extension p extension k n a (omega arith)

drop-extension : (p extension : Bytes) → drop (suc (length p)) (p ++ (b'.' ∷ extension)) ≡ extension
drop-extension [] extension = refl
drop-extension (x ∷ p) extension = drop-extension p extension

-- The extension of a path is what follows its last dot, if something follows it.
pub file_extension_lem :
    (p extension : Bytes)
    → extension ≢ []
    → All no_dot extension
    → file_extension (p ++ (b'.' ∷ extension)) ≡ extension
unfolding file_extension
file_extension_lem p [] ne a = absurd (ne refl)
file_extension_lem p (c ∷ cs) ne a =
    let s : Bytes = p ++ (b'.' ∷ c ∷ cs) in
    let e : length s - 1 ≡ suc (length p + length cs) =
      omega (arith, length-append p (b'.' ∷ c ∷ cs)) in
    ap (λ (n : ℕ). drop (dot_loop n s) s) e
    ∙ ap (λ (n : ℕ). drop n s)
        (dot_loop-extension p (c ∷ cs) (length cs) (length p + length cs) a refl)
    ∙ drop-extension p (c ∷ cs)
