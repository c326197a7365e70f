-- ===== src/Config/Lexer/Sound.antt =====
-- What `parse_token` of src/config_parser.cc returns.
use raddish.Base.{
  ℕ, suc, ◌≤◌, ◌<◌, Bool, true, not, [], ◌∷◌, ◌++◌, ◌==◌, Bytes, ◌≡◌, refl, arith, All, length,
  ==_iff, Bool-cases, ◌⊎◌, inl, inr,
}
use raddish.Config.Lexer.{
  normal, eof, TokenParserState, initial_whitespace, single_quote, double_quote, in_comment,
  in_normal, ends_normal, Round, continue, return, unget, round, at_end, read_loop, parse_token,
}
use raddish.Config.Lexer.Words.{IsWord, word, quoted, begins_word, in_word, is_quote}

-- A test that holds of a list holds of the list with one more element that passes it.
pub All-concat : (p : ℕ → Bool) (xs : Bytes) (x : ℕ) → All p xs → p x ≡ true → All p (xs ++ x ∷ [])
All-concat p [] x h e = (e, tt)
All-concat p (y ∷ xs) x (h, hs) e = (h, All-concat p xs x hs e)

record OpenWord (v : Bytes) : Type 0 where
  first : ℕ
  others : Bytes
  begins : begins_word first ≡ true
  inside : All in_word others
  is : v ≡ first ∷ others

record OpenQuote (q : ℕ) (v : Bytes) : Type 0 where
  body : Bytes
  inside : All (λ c. not (c == q)) body
  is : v ≡ q ∷ body

-- What each state knows of the value read so far.
abbrev ValueInv : TokenParserState → Bytes → Type 0
ValueInv initial_whitespace v = v ≡ []
ValueInv in_normal v = OpenWord v
ValueInv single_quote v = OpenQuote b'\'' v
ValueInv double_quote v = OpenQuote b'"' v
ValueInv in_comment v = Unit {0}

abbrev After : Round → Type 0
After (continue s v) = ValueInv s v
After (return t v) = t ≡ normal → IsWord v
After (unget t v) = t ≡ normal → IsWord v

OpenWord-concat : {v : Bytes} (c : ℕ) → OpenWord v → in_word c ≡ true → OpenWord (v ++ c ∷ [])
OpenWord-concat c o h = record {
  first = o.first;
  others = o.others ++ c ∷ [];
  begins = o.begins;
  inside = All-concat in_word o.others c o.inside h;
  is = cc (o.is);
}

OpenQuote-concat :
    {q : ℕ} {v : Bytes} (c : ℕ) → OpenQuote q v → not (c == q) ≡ true → OpenQuote q (v ++ c ∷ [])
OpenQuote-concat {q} c o h = record {
  body = o.body ++ c ∷ [];
  inside = All-concat (λ b. not (b == q)) o.body c o.inside h;
  is = cc (o.is);
}

OpenWord-IsWord : {v : Bytes} → OpenWord v → IsWord v
OpenWord-IsWord o = word o.first o.others o.begins o.inside o.is

OpenQuote-IsWord :
    {q : ℕ} {v : Bytes} (c : ℕ)
    → is_quote q ≡ true
    → (c == q) ≡ true
    → OpenQuote q v
    → IsWord (v ++ c ∷ [])
OpenQuote-IsWord {q} c h e o = quoted q o.body h o.inside (rw ((==_iff c q).0 e, o.is))

OpenWord-start : (v : Bytes) (c : ℕ) → v ≡ [] → begins_word c ≡ true → OpenWord (v ++ c ∷ [])
OpenWord-start v c e h = record { first = c; others = []; begins = h; inside = tt; is = rw e }

OpenQuote-start : (q c : ℕ) → c ≡ q → OpenQuote q (c ∷ [])
OpenQuote-start q c e = record { body = []; inside = tt; is = rw e }

round-After : (s : TokenParserState) (v : Bytes) (c : ℕ) → ValueInv s v → After (round s v c)
unfolding round
round-After initial_whitespace v c h =
    ground (arith, OpenWord-start v c h, OpenQuote-start b'"' c, OpenQuote-start b'\'' c)
round-After single_quote v c h = elim (Bool-cases (c == b'\'')) [
  | inl e ↦ rw e (λ _. OpenQuote-IsWord c refl e h)
  | inr e ↦ rw e (OpenQuote-concat c h (rw e))
]
round-After double_quote v c h = elim (Bool-cases (c == b'"')) [
  | inl e ↦ rw e (λ _. OpenQuote-IsWord c refl e h)
  | inr e ↦ rw e (OpenQuote-concat c h (rw e))
]
round-After in_comment v c h = ground arith
round-After in_normal v c h = elim (Bool-cases (ends_normal c)) [
  | inl e ↦ rw e (λ _. OpenWord-IsWord h)
  | inr e ↦ rw e (OpenWord-concat c h (rw e))
]

at_end-ne-normal : (s : TokenParserState) → at_end s ≡ normal → ⊥
unfolding at_end
at_end-ne-normal single_quote h = cc
at_end-ne-normal double_quote h = cc
at_end-ne-normal _ h = cc

read_loop-IsWord :
    (cs : Bytes) (s : TokenParserState) (v : Bytes)
    → ValueInv s v
    → (read_loop s v cs).type ≡ normal
    → IsWord (read_loop s v cs).value
unfolding read_loop
read_loop-IsWord [] s v h = λ e. absurd (at_end-ne-normal s e)
read_loop-IsWord (c ∷ cs) s v h = go (round s v c) refl (round-After s v c h) (read_loop-IsWord cs)
  where
    go :
        (r : Round)
        → round s v c ≡ r
        → After r
        → ((s' : TokenParserState) (v' : Bytes)
            → ValueInv s' v'
            → (read_loop s' v' cs).type ≡ normal
            → IsWord (read_loop s' v' cs).value)
        → (read_loop s v (c ∷ cs)).type ≡ normal
        → IsWord (read_loop s v (c ∷ cs)).value
    go (continue s' v') p a ih = rw (p, read_loop) (ih s' v' a)
    go (return t v') p a ih = rw (p, read_loop) a
    go (unget t v') p a ih = rw (p, read_loop) a

-- A token of type `normal` is a word.
pub parse_token-normal : (s : Bytes) → (parse_token s).type ≡ normal → IsWord (parse_token s).value
unfolding parse_token
parse_token-normal s = read_loop-IsWord s initial_whitespace [] refl

read_loop-length :
    (cs : Bytes) (s : TokenParserState) (v : Bytes) → length (read_loop s v cs).rest ≤ length cs
unfolding read_loop
read_loop-length [] s v = omega arith
read_loop-length (c ∷ cs) s v = go (round s v c) refl (read_loop-length cs)
  where
    go :
        (r : Round)
        → round s v c ≡ r
        → ((s' : TokenParserState) (v' : Bytes) → length (read_loop s' v' cs).rest ≤ length cs)
        → length (read_loop s v (c ∷ cs)).rest ≤ suc (length cs)
    go (continue s' v') p ih = rw (p, read_loop) (omega (arith, ih s' v'))
    go (return t v') p ih = rw (p, read_loop) (omega arith)
    go (unget t v') p ih = rw (p, read_loop) (omega arith)

-- The first state never puts a byte back.
abbrev Takes : Round → Type 0
Takes (unget t v) = ⊥
Takes _ = Unit {0}

round-Takes : (v : Bytes) (c : ℕ) → Takes (round initial_whitespace v c)
unfolding round
round-Takes v c = ground arith

read_loop-initial :
    (cs v : Bytes)
    → ((read_loop initial_whitespace v cs).type ≡ eof)
      ⊎ (length (read_loop initial_whitespace v cs).rest < length cs)
unfolding read_loop at_end
read_loop-initial [] v = inl refl
read_loop-initial (c ∷ cs) v = inr (go (round initial_whitespace v c) refl (round-Takes v c))
  where
    go :
        (r : Round)
        → round initial_whitespace v c ≡ r
        → Takes r
        → length (read_loop initial_whitespace v (c ∷ cs)).rest < suc (length cs)
    go (continue s' v') p a = rw (p, read_loop) (omega (arith, read_loop-length cs s' v'))
    go (return t v') p a = rw (p, read_loop) (omega arith)
    go (unget t v') p a = absurd a

-- Every token but the end of the file takes at least one byte.
pub parse_token-length :
    (s : Bytes) → ((parse_token s).type ≡ eof) ⊎ (length (parse_token s).rest < length s)
unfolding parse_token
parse_token-length s = read_loop-initial s []
