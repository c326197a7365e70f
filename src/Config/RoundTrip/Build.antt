-- ===== src/Config/RoundTrip/Build.antt =====
-- The parser, run over the tokens of a configuration that is given.
use raddish.Base.{
  zero, suc, true, false, List, [], ◌∷◌, ◌++◌, Bytes, codes, ◌≡◌, refl, ◌∙◌, some, ℤ, pos, negsuc,
  inc, dec, append_assoc, append-nil, arith,
}
use raddish.Config.Tree
use raddish.Config.Tree.{Statement, simple, block, Statements, nil, cons, append}
use raddish.Config.Lexer.{TokenType, normal, start_block, end_block, statement_end, start, eof}
use raddish.Config.Parser.{
  State, accepted, next, step, before_normal, before_eof, before_end_block, is_normal, push_token,
  reset_child, initial,
}
use raddish.Config.Parser.Tokens.{Token, run, run-next, run-halt}
use raddish.Config.Printer.Lexing.{
  HasTokens, IsPrintable, nil_printable, cons_printable, IsPrintableStatement, simple_printable,
  block_printable, words, statement_tokens, config_tokens,
}

abbrev state : List Statements → TokenType → ℤ → State
state stack t n = record { config_stack = stack; last = t; indent_count = n }

abbrev one : Statement → Statements
one x = cons x nil

-- Both operations act on the last statement.
pub push_token-append :
    (done : Statements) (ts : List Bytes) (v : Bytes)
    → push_token (append done (one (simple ts))) v
      ≡ some (append done (one (simple (ts ++ v ∷ []))))
unfolding push_token
push_token-append nil ts v = refl
push_token-append (cons x nil) ts v = refl
push_token-append (cons x (cons y s)) ts v = rw (push_token-append (cons y s) ts v)

reset_child-simple :
    (done : Statements) (ts : List Bytes) (b : Statements)
    → reset_child (append done (one (simple ts))) b ≡ some (append done (one (block ts b)))
unfolding reset_child
reset_child-simple nil ts b = refl
reset_child-simple (cons x nil) ts b = refl
reset_child-simple (cons x (cons y s)) ts b = rw (reset_child-simple (cons y s) ts b)

reset_child-block :
    (done : Statements) (ts : List Bytes) (a b : Statements)
    → reset_child (append done (one (block ts a))) b ≡ some (append done (one (block ts b)))
unfolding reset_child
reset_child-block nil ts a b = refl
reset_child-block (cons x nil) ts a b = refl
reset_child-block (cons x (cons y s)) ts a b = rw (reset_child-block (cons y s) ts a b)

dec-inc : (n : ℤ) → dec (inc n) ≡ n
dec-inc (pos n) = refl
dec-inc (negsuc zero) = refl
dec-inc (negsuc (suc n)) = refl

-- The types after which a word begins a statement.
abbrev Begins : TokenType → Type 0
Begins t = (before_normal t ≡ true) × (is_normal t ≡ false)

module _ (done : Statements) (below : List Statements) (n : ℤ) where
  step-first :
      (t : TokenType) (v : Bytes)
      → before_normal t ≡ true
      → is_normal t ≡ false
      → step (state (done ∷ below) t n) normal v
        ≡ next (state (append done (one (simple (v ∷ []))) ∷ below) normal n)
  unfolding step
  step-first start v h f = ground (arith, push_token-append done [] v)
  step-first statement_end v h f = ground (arith, push_token-append done [] v)
  step-first start_block v h f = ground (arith, push_token-append done [] v)
  step-first end_block v h f = ground (arith, push_token-append done [] v)
  step-first normal v h f = cc
  step-first _ v h f = cc

  step-more :
      (ts : List Bytes) (v : Bytes)
      → step (state (append done (one (simple ts)) ∷ below) normal n) normal v
        ≡ next (state (append done (one (simple (ts ++ v ∷ []))) ∷ below) normal n)
  unfolding step
  step-more ts v = ground (arith, push_token-append done ts v)

  step-open :
      (ts : List Bytes) (v : Bytes)
      → step (state (append done (one (simple ts)) ∷ below) normal n) start_block v
        ≡ next (state (nil ∷ append done (one (block ts nil)) ∷ below) start_block (inc n))
  unfolding step
  step-open ts v = ground (arith, reset_child-simple done ts nil)

  step-close :
      (ts : List Bytes) (a b : Statements) (t : TokenType) (v : Bytes)
      → before_end_block t ≡ true
      → step (state (b ∷ append done (one (block ts a)) ∷ below) t (inc n)) end_block v
        ≡ next (state (append done (one (block ts b)) ∷ below) end_block n)
  unfolding step
  step-close ts a b t v h = ground (arith, reset_child-block done ts a b, dec-inc n)

  run-words :
      (ts us : List Bytes) (rest : List Token)
      → run (state (append done (one (simple ts)) ∷ below) normal n) (words us rest)
        ≡ run (state (append done (one (simple (ts ++ us))) ∷ below) normal n) rest
  run-words ts [] rest = rw append-nil
  run-words ts (v ∷ us) rest =
      run-next _ normal v (words us rest) (step-more ts v)
      ∙ run-words (ts ++ v ∷ []) us rest
      ∙ rw append_assoc

  run-all_words :
      (ts : List Bytes) (t : TokenType) (rest : List Token)
      → HasTokens ts
      → Begins t
      → run (state (done ∷ below) t n) (words ts rest)
        ≡ run (state (append done (one (simple ts)) ∷ below) normal n) rest
  run-all_words [] t rest (ne, a) b = absurd (ne refl)
  run-all_words (v ∷ us) t rest h (b, f) =
      run-next _ normal v (words us rest) (step-first t v b f) ∙ run-words (v ∷ []) us rest

-- The type of the last token of a statement, and of a list of statements after a token.
abbrev closes : Statement → TokenType
closes (simple _) = statement_end
closes (block _ _) = end_block

abbrev last_type : TokenType → Statements → TokenType
last_type t nil = t
last_type t (cons x s) = last_type (closes x) s

closes-Begins : (x : Statement) → Begins (closes x)
closes-Begins (simple _) = (refl, refl)
closes-Begins (block _ _) = (refl, refl)

last_type-before_end_block :
    (t : TokenType) (s : Statements)
    → before_end_block t ≡ true
    → before_end_block (last_type t s) ≡ true
last_type-before_end_block t nil h = h
last_type-before_end_block t (cons (simple _) s) h = last_type-before_end_block statement_end s refl
last_type-before_end_block t (cons (block _ _) s) h = last_type-before_end_block end_block s refl

last_type-before_eof :
    (t : TokenType) (s : Statements) → before_eof t ≡ true → before_eof (last_type t s) ≡ true
last_type-before_eof t nil h = h
last_type-before_eof t (cons (simple _) s) h = last_type-before_eof statement_end s refl
last_type-before_eof t (cons (block _ _) s) h = last_type-before_eof end_block s refl

mutual
  unfolding statement_tokens step

  run-statement_tokens :
      {x : Statement} (done : Statements) (below : List Statements) (n : ℤ) (t : TokenType)
      (rest : List Token)
      → IsPrintableStatement x
      → Begins t
      → run (state (done ∷ below) t n) (statement_tokens x rest)
        ≡ run (state (append done (one x) ∷ below) (closes x) n) rest
  run-statement_tokens done below n t rest (simple_printable {ts} h) b =
      run-all_words done below n ts t _ h b ∙ run-next _ statement_end _ rest refl
  run-statement_tokens done below n t rest (block_printable {ts} {b = c} h p) b =
      run-all_words done below n ts t _ h b
      ∙ run-next _ start_block _ _ (step-open done below n ts (codes "{"))
      ∙ run-statements nil (append done (one (block ts nil)) ∷ below) (inc n) start_block _ p
          (refl, refl)
      ∙ run-next _ end_block _ rest (
          step-close done below n ts nil c (last_type start_block c) (codes "}")
            (last_type-before_end_block start_block c refl))

  run-statements :
      {s : Statements} (done : Statements) (below : List Statements) (n : ℤ) (t : TokenType)
      (rest : List Token)
      → IsPrintable s
      → Begins t
      → run (state (done ∷ below) t n) (config_tokens s rest)
        ≡ run (state (append done s ∷ below) (last_type t s) n) rest
  run-statements done below n t rest nil_printable b = rw Tree.append-nil
  run-statements done below n t rest (cons_printable {x} {s} h hs) b =
      run-statement_tokens done below n t _ h b
      ∙ run-statements (append done (one x)) below n (closes x) rest hs (closes-Begins x)
      ∙ rw Tree.append_assoc

-- The run over the tokens of a configuration and the end of the file accepts that configuration.
pub run-config_tokens :
    {s : Statements}
    → IsPrintable s
    → run initial (config_tokens s ((eof, []) ∷ [])) ≡ some (accepted s)
unfolding step
run-config_tokens {s} p =
    run-statements nil [] (pos 0) start _ p (refl, refl)
    ∙ run-halt _ eof [] [] (rw (last_type-before_eof start s refl))
