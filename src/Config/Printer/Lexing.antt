-- ===== src/Config/Printer/Lexing.antt =====
-- The tokens of a text that `ToString` of src/config_parser.cc prints.
use raddish.Base.{
  ℕ, zero, suc, true, List, [], ◌∷◌, ◌++◌, Bytes, codes, ◌≡◌, ◌≢◌, refl, arith, append_assoc, ◌∙◌,
}
use raddish.Config.Tree.{Statement, simple, block, Statements, nil, cons}
use raddish.Config.Lexer.{
  normal, start_block, end_block, statement_end, initial_whitespace, is_blank, round, read_loop,
  parse_token, continue,
}
use raddish.Config.Lexer.Words.{IsWord, Delimits, parse_token-IsWord, read_loop-continue}
use raddish.Config.Parser.Tokens.{Token, Lexes, last, more}
use raddish.Config.Printer.{indentation, more_tokens, join_tokens, statement_to_string, to_string}

-- Every statement has a token, and every token is a word.
abbrev pub AllWords : List Bytes → Type 0
AllWords [] = Unit {0}
AllWords (t ∷ ts) = IsWord t × AllWords ts

abbrev pub HasTokens : List Bytes → Type 0
HasTokens ts = (ts ≢ []) × AllWords ts

mutual
  pub data IsPrintable : Statements → Type 0 where
    nil_printable : IsPrintable nil
    cons_printable :
        {x : Statement} {s : Statements}
        → IsPrintableStatement x
        → IsPrintable s
        → IsPrintable (cons x s)

  pub data IsPrintableStatement : Statement → Type 0 where
    simple_printable : {ts : List Bytes} → HasTokens ts → IsPrintableStatement (simple ts)
    block_printable :
        {ts : List Bytes} {b : Statements}
        → HasTokens ts
        → IsPrintable b
        → IsPrintableStatement (block ts b)

abbrev pub words : List Bytes → List Token → List Token
words [] rest = rest
words (t ∷ ts) rest = (normal, t) ∷ words ts rest

-- The tokens of a configuration, in front of the tokens `rest`.
unfoldable mutual
  pub statement_tokens : Statement → List Token → List Token
  statement_tokens (simple ts) rest = words ts ((statement_end, codes ";") ∷ rest)
  statement_tokens (block ts b) rest =
      words ts ((start_block, codes "{") ∷ config_tokens b ((end_block, codes "}") ∷ rest))

  pub config_tokens : Statements → List Token → List Token
  config_tokens nil rest = rest
  config_tokens (cons x s) rest = statement_tokens x (config_tokens s rest)

round-blank :
    (c : ℕ) → is_blank c ≡ true → round initial_whitespace [] c ≡ continue initial_whitespace []
unfolding round
round-blank c h = ground arith

Lexes_of_eq :
    {s s' : Bytes} {ts : List Token} → parse_token s' ≡ parse_token s → Lexes s ts → Lexes s' ts
Lexes_of_eq e (last t v rest p f) = last t v rest (e ∙ p) f
Lexes_of_eq e (more t v rest p f l) = more t v rest (e ∙ p) f l

-- Blanks before a token are skipped.
Lexes-blank :
    (c : ℕ) (s : Bytes) {ts : List Token} → is_blank c ≡ true → Lexes s ts → Lexes (c ∷ s) ts
unfolding parse_token
Lexes-blank c s h = Lexes_of_eq (read_loop-continue initial_whitespace [] c s (round-blank c h))

Lexes-indentation :
    (depth : ℕ) (s : Bytes) {ts : List Token} → Lexes s ts → Lexes (indentation depth ++ s) ts
unfolding indentation
Lexes-indentation zero s l = l
Lexes-indentation (suc depth) s l =
    Lexes-blank b' ' _ refl (Lexes-blank b' ' _ refl (Lexes-indentation depth s l))

Lexes-word :
    {w : Bytes} (rest : Bytes) {ts : List Token}
    → IsWord w
    → Delimits rest
    → Lexes rest ts
    → Lexes (w ++ rest) ((normal, w) ∷ ts)
Lexes-word rest w d l = more normal _ rest (parse_token-IsWord rest w d) refl l

Delimits-more_tokens :
    (ts : List Bytes) (rest : Bytes) → Delimits rest → Delimits (more_tokens ts ++ rest)
unfolding more_tokens
Delimits-more_tokens [] rest d = d
Delimits-more_tokens (t ∷ ts) rest d = refl

Lexes-more_tokens :
    (words_of : List Bytes) (rest : Bytes) {ts : List Token}
    → AllWords words_of
    → Delimits rest
    → Lexes rest ts
    → Lexes (more_tokens words_of ++ rest) (words words_of ts)
unfolding more_tokens
Lexes-more_tokens [] rest a d l = l
Lexes-more_tokens (t ∷ ws) rest (h, hs) d l = rw (append_assoc t (more_tokens ws) rest) (
    Lexes-blank b' ' _ refl
      (Lexes-word _ h (Delimits-more_tokens ws rest d) (Lexes-more_tokens ws rest hs d l)))

Lexes-join_tokens :
    (words_of : List Bytes) (rest : Bytes) {ts : List Token}
    → HasTokens words_of
    → Delimits rest
    → Lexes rest ts
    → Lexes (join_tokens words_of ++ rest) (words words_of ts)
unfolding join_tokens
Lexes-join_tokens [] rest (ne, a) d l = absurd (ne refl)
Lexes-join_tokens (t ∷ ws) rest (ne, (h, hs)) d l =
    rw (append_assoc t (more_tokens ws) rest)
      (Lexes-word _ h (Delimits-more_tokens ws rest d) (Lexes-more_tokens ws rest hs d l))

-- A mark is a token of one byte.
Lexes-semicolon :
    (s : Bytes) {ts : List Token} → Lexes s ts → Lexes (b';' ∷ s) ((statement_end, codes ";") ∷ ts)
unfolding parse_token read_loop round
Lexes-semicolon s l = more statement_end _ s refl refl l

Lexes-open :
    (s : Bytes) {ts : List Token} → Lexes s ts → Lexes (b'{' ∷ s) ((start_block, codes "{") ∷ ts)
unfolding parse_token read_loop round
Lexes-open s l = more start_block _ s refl refl l

Lexes-close :
    (s : Bytes) {ts : List Token} → Lexes s ts → Lexes (b'}' ∷ s) ((end_block, codes "}") ∷ ts)
unfolding parse_token read_loop round
Lexes-close s l = more end_block _ s refl refl l

mutual
  unfolding statement_to_string statement_tokens

  Lexes-statement_to_string :
      {x : Statement} (depth : ℕ) (rest : Bytes) {ts : List Token}
      → IsPrintableStatement x
      → Lexes rest ts
      → Lexes (statement_to_string x depth ++ rest) (statement_tokens x ts)
  Lexes-statement_to_string depth rest (simple_printable {ts = ws} h) l = simp append_assoc (
      Lexes-indentation depth _
        (Lexes-join_tokens ws _ h refl (Lexes-semicolon _ (Lexes-blank b'\n' _ refl l))))
  Lexes-statement_to_string depth rest (block_printable {ts = ws} {b} h p) l = simp append_assoc (
      Lexes-indentation depth _ (
        Lexes-join_tokens ws _ h refl (
          Lexes-blank b' ' _ refl (
            Lexes-open _ (
              Lexes-blank b'\n' _ refl (
                Lexes-to_string (suc depth) _ p
                  (Lexes-indentation depth _ (Lexes-close _ (Lexes-blank b'\n' _ refl l)))))))))

  pub Lexes-to_string :
      {s : Statements} (depth : ℕ) (rest : Bytes) {ts : List Token}
      → IsPrintable s
      → Lexes rest ts
      → Lexes (to_string s depth ++ rest) (config_tokens s ts)
  Lexes-to_string depth rest nil_printable l = l
  Lexes-to_string depth rest (cons_printable {x} {s} h hs) l =
      rw (append_assoc (statement_to_string x depth) (to_string s depth) rest)
        (Lexes-statement_to_string depth _ h (Lexes-to_string depth rest hs l))
