-- ===== src/Config/Parser/Filled.antt =====
-- Configurations whose last statement has a token, through the actions of `parse` of
-- src/config_parser.cc.
use raddish.Base.{ℕ, zero, suc, Bool, true, false, List, [], ◌∷◌, Bytes, Option, none, some}
use raddish.Config.Tree.{Statement, simple, block, Statements, nil, cons}
use raddish.Config.Lexer.{start_block, end_block}
use raddish.Config.Parser.Tokens.{Token}
use raddish.Config.Parser.{push_token, reset_child, emplace_back, behind}

-- Whether some prefix of the tokens closes more blocks than it opens, with `d` blocks open before.
abbrev pub over_closes : ℕ → List Token → Bool
over_closes d [] = false
over_closes d ((start_block, v) ∷ ts) = over_closes (suc d) ts
over_closes zero ((end_block, v) ∷ ts) = true
over_closes (suc d) ((end_block, v) ∷ ts) = over_closes d ts
over_closes d ((_, v) ∷ ts) = over_closes d ts

abbrev pub IsFilled : Statements → Type 0
IsFilled nil = ⊥
IsFilled (cons _ _) = Unit

abbrev pub Filled : Option Statements → Type 0
Filled none = ⊥
Filled (some s) = IsFilled s

behind-Filled : (x : Statement) (o : Option Statements) → Filled o → Filled (behind x o)
behind-Filled x none h = h
behind-Filled x (some s) h = tt

pub push_token-Filled : (s : Statements) (v : Bytes) → IsFilled s → Filled (push_token s v)
unfolding push_token
push_token-Filled nil v h = h
push_token-Filled (cons (simple ts) nil) v h = tt
push_token-Filled (cons (block ts b) nil) v h = tt
push_token-Filled (cons x (cons y s)) v h =
    behind-Filled x (push_token (cons y s) v) (push_token-Filled (cons y s) v tt)

pub reset_child-Filled : (s b : Statements) → IsFilled s → Filled (reset_child s b)
unfolding reset_child
reset_child-Filled nil b h = h
reset_child-Filled (cons (simple ts) nil) b h = tt
reset_child-Filled (cons (block ts c) nil) b h = tt
reset_child-Filled (cons x (cons y s)) b h =
    behind-Filled x (reset_child (cons y s) b) (reset_child-Filled (cons y s) b tt)

pub emplace_back-IsFilled : (s : Statements) → IsFilled (emplace_back s)
emplace_back-IsFilled nil = tt
emplace_back-IsFilled (cons x s) = tt
