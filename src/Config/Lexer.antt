-- ===== src/Config/Lexer.antt =====
-- `NginxConfigParser::parse_token` of src/config_parser.cc. The input stream is the list of the
-- bytes not read yet: `get` at its end clears `good`, and `unget` puts the byte back.
pub mod Words
pub mod Sound
use raddish.Base.{ℕ, Bool, true, false, ◌||◌, List, [], ◌∷◌, ◌++◌, ◌==◌, if◌then◌else◌, Bytes}

pub data TokenType : Type 0 where
  start normal start_block end_block comment statement_end eof error : TokenType

pub data TokenParserState : Type 0 where
  initial_whitespace single_quote double_quote in_comment in_normal : TokenParserState

-- What one round of the loop does: `continue` with a state and a value, or `return` with a token
-- type and a value. `unget` returns after the byte is put back.
pub data Round : Type 0 where
  continue : TokenParserState → Bytes → Round
  return : TokenType → Bytes → Round
  unget : TokenType → Bytes → Round

-- The four whitespace bytes of the first state.
abbrev pub is_blank : ℕ → Bool
is_blank c = c == b' ' || c == b'\t' || c == b'\n' || c == b'\r'

-- The bytes that end a word. The test names the tab twice, and not the carriage return.
abbrev pub ends_normal : ℕ → Bool
ends_normal c =
    c == b' ' || c == b'\t' || c == b'\n' || c == b'\t' || c == b';' || c == b'{' || c == b'}'

-- The `switch` on the state, for the byte `c` and the value read so far.
unfoldable pub round : TokenParserState → Bytes → ℕ → Round
round initial_whitespace v c =
    if c == b'{'
    then return start_block (c ∷ [])
    else if c == b'}'
    then return end_block (c ∷ [])
    else if c == b'#'
    then continue in_comment (c ∷ [])
    else if c == b'"'
    then continue double_quote (c ∷ [])
    else if c == b'\''
    then continue single_quote (c ∷ [])
    else if c == b';'
    then return statement_end (c ∷ [])
    else if is_blank c
    then continue initial_whitespace v
    else continue in_normal (v ++ c ∷ [])
round single_quote v c =
    if c == b'\'' then return normal (v ++ c ∷ []) else continue single_quote (v ++ c ∷ [])
round double_quote v c =
    if c == b'"' then return normal (v ++ c ∷ []) else continue double_quote (v ++ c ∷ [])
round in_comment v c =
    if c == b'\n' || c == b'\r' then return comment v else continue in_comment (v ++ c ∷ [])
round in_normal v c = if ends_normal c then unget normal v else continue in_normal (v ++ c ∷ [])

-- The type that is returned at the end of the file: an open quote is an error.
unfoldable pub at_end : TokenParserState → TokenType
at_end single_quote = error
at_end double_quote = error
at_end _ = eof

-- A token with the bytes behind it.
pub record Read : Type 0 where
  pub type : TokenType
  pub value : Bytes
  pub rest : Bytes

-- The `while` loop.
unfoldable pub read_loop : TokenParserState → Bytes → Bytes → Read
unfolding at_end
read_loop s v [] = record { type = at_end s; value = v; rest = [] }
read_loop s v (c ∷ cs) = elim (round s v c) [
  | continue s' v' ↦ read_loop s' v' cs
  | return t v' ↦ record { type = t; value = v'; rest = cs }
  | unget t v' ↦ record { type = t; value = v'; rest = c ∷ cs }
]

unfoldable pub parse_token : Bytes → Read
unfolding read_loop round
parse_token = read_loop initial_whitespace []
