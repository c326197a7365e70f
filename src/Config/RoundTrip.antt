-- ===== src/Config/RoundTrip.antt =====
-- `parse` after `ToString`, and `ToString` after `parse`.
pub mod Build
pub mod Sound
use raddish.Base.{◌≡◌, refl, ◌∙◌, sym, ap, Bytes, [], ◌∷◌, some, append-nil, ℤ, pos, inl, inr}
use raddish.Config.Tree.{Statement, Statements, nil, append}
use raddish.Config.Lexer.{start, eof, read_loop, parse_token}
use raddish.Config.Parser.{Verdict, accepted, initial, parse, step}
use raddish.Config.Parser.Tokens.{Lexes, last, run, parse-run, lex}
use raddish.Config.Printer.{to_string}
use raddish.Config.Printer.Lexing.{IsPrintable, config_tokens, Lexes-to_string}
use raddish.Config.RoundTrip.Build.{run-config_tokens}
use raddish.Config.RoundTrip.Sound.{run-IsPrintable}

Lexes-nil : Lexes [] ((eof, []) ∷ [])
unfolding parse_token read_loop
Lexes-nil = last eof [] [] refl refl

-- Parsing the text that `ToString` prints for a configuration gives that configuration back, if
-- each of its statements has a token and each token is a word.
pub parse-to_string : {s : Statements} → IsPrintable s → parse (to_string s 0) ≡ some (accepted s)
parse-to_string {s} p =
    ap parse (sym (append-nil (to_string s 0)))
    ∙ parse-run (Lexes-to_string 0 [] p Lexes-nil)
    ∙ run-config_tokens p

-- Whatever text `parse` accepts, each statement of the result has a token and each token is a
-- word.
pub parse-IsPrintable :
    (text : Bytes) {s : Statements} → parse text ≡ some (accepted s) → IsPrintable s
parse-IsPrintable text e = let (ts, l) = lex text in run-IsPrintable l (sym (parse-run l) ∙ e)

-- Printing what was parsed gives a text that is parsed to the same configuration.
pub parse-to_string-parse :
    (text : Bytes) {s : Statements}
    → parse text ≡ some (accepted s)
    → parse (to_string s 0) ≡ parse text
parse-to_string-parse text e = parse-to_string (parse-IsPrintable text e) ∙ sym e
