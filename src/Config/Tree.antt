-- ===== src/Config/Tree.antt =====
-- `NginxConfig` and `NginxConfigStatement` of include/config_parser.h. A statement without a
-- child block (`child_block_` is null) is `simple`, one with a child block is `block`.
use raddish.Base.{List, ◌≡◌, refl, ap, Bytes}

mutual
  pub data Statement : Type 0 where
    simple : List Bytes → Statement
    block : List Bytes → Statements → Statement

  -- `std::vector<std::shared_ptr<NginxConfigStatement>>`
  pub data Statements : Type 0 where
    nil : Statements
    cons : Statement → Statements → Statements

abbrev pub tokens_of : Statement → List Bytes
tokens_of (simple ts) = ts
tokens_of (block ts _) = ts

abbrev pub append : Statements → Statements → Statements
append nil t = t
append (cons x s) t = cons x (append s t)

pub append-nil : (s : Statements) → append s nil ≡ s
append-nil nil = refl
append-nil (cons x s) = ap (cons x) (append-nil s)

pub append_assoc : (s t u : Statements) → append (append s t) u ≡ append s (append t u)
append_assoc nil t u = refl
append_assoc (cons x s) t u = ap (cons x) (append_assoc s t u)
