-- ===== src/Config/Parser.antt =====
-- `NginxConfigParser::parse` of src/config_parser.cc, over the whole text of the file.
-- `config_stack` is a list with the top first. A child block is held by pointer in the last
-- statement of the block below it on the stack: the model writes it back there when it is popped.
pub mod Tokens
pub mod Filled
pub mod Depth
use raddish.Base.{
  ℕ, zero, suc, Bool, true, false, List, [], ◌∷◌, ◌++◌, if◌then◌else◌, Bytes, Option, none, some,
  length, ℤ, pos, inc, dec, is_zero,
}
use raddish.Config.Tree.{Statement, simple, block, Statements, nil, cons, append}
use raddish.Config.Lexer.{
  TokenType, start, normal, start_block, end_block, comment, statement_end, eof, error, Read,
  parse_token,
}

pub record State : Type 0 where
  pub config_stack : List Statements
  pub last : TokenType
  pub indent_count : ℤ

-- How `parse` ends: it returns true; it logs a bad transition and returns false; it logs that the
-- blocks do not match and returns false; or it takes the top of an empty stack, the last element
-- of an empty vector, or pops an empty stack, and its behaviour is undefined.
pub data Verdict : Type 0 where
  accepted : Statements → Verdict
  bad_transition : TokenType → TokenType → Verdict
  mismatched : Verdict
  undefined : Verdict

pub data Step : Type 0 where
  next : State → Step
  halt : Verdict → Step

-- The lists of last token types that each token admits.
abbrev pub before_normal : TokenType → Bool
before_normal start = true
before_normal statement_end = true
before_normal start_block = true
before_normal end_block = true
before_normal normal = true
before_normal _ = false

abbrev pub is_normal : TokenType → Bool
is_normal normal = true
is_normal _ = false

abbrev pub before_end_block : TokenType → Bool
before_end_block statement_end = true
before_end_block start_block = true
before_end_block end_block = true
before_end_block _ = false

abbrev pub before_eof : TokenType → Bool
before_eof statement_end = true
before_eof end_block = true
before_eof start = true
before_eof _ = false

abbrev pub behind : Statement → Option Statements → Option Statements
behind x none = none
behind x (some s) = some (cons x s)

-- `statements_.back()->tokens_.push_back(token)`
unfoldable pub push_token : Statements → Bytes → Option Statements
push_token nil v = none
push_token (cons (simple ts) nil) v = some (cons (simple (ts ++ v ∷ [])) nil)
push_token (cons (block ts b) nil) v = some (cons (block (ts ++ v ∷ []) b) nil)
push_token (cons x (cons y s)) v = behind x (push_token (cons y s) v)

-- `statements_.back()->child_block_.reset(child)`
unfoldable pub reset_child : Statements → Statements → Option Statements
reset_child nil b = none
reset_child (cons (simple ts) nil) b = some (cons (block ts b) nil)
reset_child (cons (block ts _) nil) b = some (cons (block ts b) nil)
reset_child (cons x (cons y s)) b = behind x (reset_child (cons y s) b)

-- `statements_.emplace_back(new NginxConfigStatement)`
abbrev pub emplace_back : Statements → Statements
emplace_back s = append s (cons (simple []) nil)

abbrev pub put_top : Option Statements → List Statements → Option (List Statements)
put_top none below = none
put_top (some top) below = some (top ∷ below)

abbrev pub put_new : Option (List Statements) → Option (List Statements)
put_new none = none
put_new (some stack) = some (nil ∷ stack)

-- A change of the block on top of the stack.
unfoldable pub on_top :
    List Statements → (Statements → Option Statements) → Option (List Statements)
on_top [] f = none
on_top (top ∷ below) f = put_top (f top) below

abbrev pub with_stack : Option (List Statements) → TokenType → ℤ → Step
with_stack none t n = halt undefined
with_stack (some s) t n = next (record { config_stack = s; last = t; indent_count = n })

unfoldable pub push_block : List Statements → Option (List Statements)
unfolding on_top
push_block stack = put_new (on_top stack (λ top. reset_child top nil))

-- `config_stack.pop()`; the popped block is written back into the statement that points to it.
unfoldable pub pop_block : List Statements → Option (List Statements)
pop_block [] = none
pop_block (root ∷ []) = some []
pop_block (child ∷ parent ∷ below) = put_top (reset_child parent child) below

-- The object that the caller passed in. With `indent_count` at 0 it is the whole stack.
abbrev pub bottom : List Statements → Statements
bottom [] = nil
bottom (root ∷ []) = root
bottom (_ ∷ parent ∷ below) = bottom (parent ∷ below)

-- One round of the `while` loop, on the token read.
unfoldable pub step : State → TokenType → Bytes → Step
unfolding push_block on_top pop_block
step σ error v = halt (bad_transition σ.last error)
step σ comment v = next σ
step σ start v = halt (bad_transition σ.last start)
step σ normal v =
    if before_normal σ.last
    then with_stack
        (on_top σ.config_stack
          (λ top. push_token (if is_normal σ.last then top else emplace_back top) v))
        normal σ.indent_count
    else halt (bad_transition σ.last normal)
step σ statement_end v =
    if is_normal σ.last
    then next (record σ { last = statement_end })
    else halt (bad_transition σ.last statement_end)
step σ start_block v =
    if is_normal σ.last
    then with_stack (push_block σ.config_stack) start_block (inc σ.indent_count)
    else halt (bad_transition σ.last start_block)
step σ end_block v =
    if before_end_block σ.last
    then with_stack (pop_block σ.config_stack) end_block (dec σ.indent_count)
    else halt (bad_transition σ.last end_block)
step σ eof v =
    if before_eof σ.last
    then (if is_zero σ.indent_count
        then halt (accepted (bottom σ.config_stack))
        else halt mismatched)
    else halt (bad_transition σ.last eof)

-- The loop, on fuel; `none` means that the fuel ran out.
unfoldable pub parse_loop : ℕ → State → Bytes → Option Verdict
unfolding step
parse_loop zero σ s = none
parse_loop (suc fuel) σ s =
    let token = parse_token s in
    elim (step σ token.type token.value) [
      | next σ' ↦ parse_loop fuel σ' token.rest
      | halt verdict ↦ some verdict
    ]

abbrev pub initial : State
initial = record { config_stack = nil ∷ []; last = start; indent_count = pos 0 }

-- Each token but the last takes a byte, so one round more than there are bytes is enough.
unfoldable pub parse : Bytes → Option Verdict
unfolding parse_loop push_token reset_child
parse s = parse_loop (suc (length s)) initial s
