-- ===== src/Config/Lexer/Words.antt =====
-- The tokens of type `normal` of `parse_token` of src/config_parser.cc, and the bytes they hold.
use raddish.Base.{
  ℕ, Bool, true, not, ◌||◌, [], ◌∷◌, ◌++◌, ◌==◌, if◌then◌else◌, Bytes, ◌≡◌, ◌∙◌, arith, All,
  append-nil, append_assoc,
}
use raddish.Config.Lexer.{
  TokenType, normal, TokenParserState, initial_whitespace, single_quote, double_quote, in_normal,
  continue, is_blank, ends_normal, round, Read, read_loop, parse_token,
}

-- A byte that may begin an unquoted word.
abbrev pub begins_word : ℕ → Bool
begins_word c =
    not (is_blank c || c == b'{' || c == b'}' || c == b'#' || c == b'"' || c == b'\'' || c == b';')

abbrev pub in_word : ℕ → Bool
in_word c = not (ends_normal c)

abbrev pub is_quote : ℕ → Bool
is_quote c = c == b'"' || c == b'\''

-- An unquoted word, or a text between two equal quotes that does not hold that quote.
pub data IsWord (w : Bytes) : Type 0 where
  word : (c : ℕ) (cs : Bytes) → begins_word c ≡ true → All in_word cs → w ≡ c ∷ cs → IsWord w
  quoted :
      (q : ℕ) (body : Bytes)
      → is_quote q ≡ true
      → All (λ c. not (c == q)) body
      → w ≡ q ∷ (body ++ (q ∷ []))
      → IsWord w

-- What stands behind a word: nothing of it belongs to the word.
abbrev pub Delimits : Bytes → Type 0
Delimits [] = ⊥
Delimits (c ∷ _) = ends_normal c ≡ true

abbrev pub read : TokenType → Bytes → Bytes → Read
read t v rest = record { type = t; value = v; rest = rest }

read_loop-in_normal :
    (v cs rest : Bytes)
    → All in_word cs
    → Delimits rest
    → read_loop in_normal v (cs ++ rest) ≡ read normal (v ++ cs) rest
unfolding read_loop round
read_loop-in_normal v [] [] h d = absurd d
read_loop-in_normal v [] (r ∷ rest) h d = rw append-nil (ground arith)
read_loop-in_normal v (c ∷ cs) rest (h, hs) d =
    ground (arith, read_loop-in_normal (v ++ c ∷ []) cs rest hs d, append_assoc v (c ∷ []) cs)

abbrev state_of : ℕ → TokenParserState
state_of q = if q == b'"' then double_quote else single_quote

read_loop-quoted :
    (q : ℕ) (v body rest : Bytes)
    → is_quote q ≡ true
    → All (λ c. not (c == q)) body
    → read_loop (state_of q) v (body ++ (q ∷ rest)) ≡ read normal (v ++ (body ++ (q ∷ []))) rest
unfolding read_loop round
read_loop-quoted q v [] rest hq h = ground arith
read_loop-quoted q v (c ∷ body) rest hq (h, hs) = ground (
  arith,
  read_loop-quoted q (v ++ c ∷ []) body rest hq hs,
  append_assoc v (c ∷ []) (body ++ (q ∷ [])),
)

round-begins_word :
    (c : ℕ) → begins_word c ≡ true → round initial_whitespace [] c ≡ continue in_normal (c ∷ [])
unfolding round
round-begins_word c h = ground arith

round-is_quote :
    (q : ℕ) → is_quote q ≡ true → round initial_whitespace [] q ≡ continue (state_of q) (q ∷ [])
unfolding round
round-is_quote q h = ground arith

pub read_loop-continue :
    (s : TokenParserState) (v : Bytes) (c : ℕ) (cs : Bytes) {s' : TokenParserState} {v' : Bytes}
    → round s v c ≡ continue s' v'
    → read_loop s v (c ∷ cs) ≡ read_loop s' v' cs
unfolding read_loop
read_loop-continue s v c cs e = rw (e, read_loop)

-- The lexer reads a word back, whatever delimiter stands behind it.
pub parse_token-IsWord :
    {w : Bytes} (rest : Bytes)
    → IsWord w
    → Delimits rest
    → parse_token (w ++ rest) ≡ read normal w rest
unfolding parse_token
parse_token-IsWord rest (word c cs hc hcs e) d = rw e (
    read_loop-continue initial_whitespace [] c (cs ++ rest) (round-begins_word c hc)
    ∙ read_loop-in_normal (c ∷ []) cs rest hcs d)
parse_token-IsWord rest (quoted q body hq hb e) d =
    rw (e, append_assoc body (q ∷ []) rest)
      (read_loop-continue initial_whitespace [] q _ (round-is_quote q hq)
        ∙ read_loop-quoted q (q ∷ []) body rest hq hb)
