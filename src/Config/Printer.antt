-- ===== src/Config/Printer.antt =====
-- `NginxConfig::ToString` and `NginxConfigStatement::ToString` of src/config_parser.cc.
pub mod Lexing
use raddish.Base.{ℕ, zero, suc, List, [], ◌∷◌, ◌++◌, Bytes, codes}
use raddish.Config.Tree.{Statement, simple, block, Statements, nil, cons}

-- Two spaces for each level.
unfoldable pub indentation : ℕ → Bytes
indentation zero = []
indentation (suc depth) = b' ' ∷ b' ' ∷ indentation depth

-- The tokens after the first, each with the space before it.
unfoldable pub more_tokens : List Bytes → Bytes
more_tokens [] = []
more_tokens (t ∷ ts) = b' ' ∷ (t ++ more_tokens ts)

unfoldable pub join_tokens : List Bytes → Bytes
unfolding more_tokens
join_tokens [] = []
join_tokens (t ∷ ts) = t ++ more_tokens ts

unfoldable mutual
  unfolding indentation join_tokens

  pub statement_to_string : Statement → ℕ → Bytes
  statement_to_string (simple ts) depth = indentation depth ++ (join_tokens ts ++ codes ";\n")
  statement_to_string (block ts b) depth =
      indentation depth
      ++ (join_tokens ts
          ++ (codes " {\n" ++ (to_string b (suc depth) ++ (indentation depth ++ codes "}\n"))))

  pub to_string : Statements → ℕ → Bytes
  to_string nil depth = []
  to_string (cons x s) depth = statement_to_string x depth ++ to_string s depth
