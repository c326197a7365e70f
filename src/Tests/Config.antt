-- ===== src/Tests/Config.antt =====
-- The configuration's theorems at concrete inputs.
use raddish.Base.{
  negsuc, equal, List, [], ◌∷◌, ◌++◌, Bytes, codes, some, none, ◌≡◌, inr, refl, pos, true, arith,
}
use raddish.Config.Tree.{simple, block, Statements, nil, cons, append}
use raddish.Config.Lexer.{parse_token, normal}
use raddish.Config.Lexer.Words.{read, IsWord, quoted, parse_token-IsWord}
use raddish.Config.Lexer.Sound.{parse_token-normal}
use raddish.Config.Parser.{parse, accepted, undefined, Verdict}
use raddish.Config.Parser.Tokens.{parse_total, lex}
use raddish.Config.Parser.Depth.{parse-over_closes}
use raddish.Config.Parser.Filled.{over_closes}
use raddish.Config.Printer.{to_string}
use raddish.Config.Printer.Lexing.{IsPrintable}
use raddish.Config.RoundTrip.{parse-to_string, parse-IsPrintable, parse-to_string-parse}
use raddish.Config.Slashes.{contains, has_key, remove_slashes, strip_loop}
use raddish.Config.Slashes.Trim.{trim, has_key-trim, remove_slashes-trim, strip_loop-hangs}
use raddish.Std.Numbers.{stoi}
use raddish.Config.Settings.{
  unquote, get_server_settings_inner, ok, return_false, ConfigInfo, statement_loop, initial_locals,
}
use raddish.Config.Settings.Bounds.{Checked, get_server_settings_inner-Checked}
use raddish.Config.Settings.Spec.{
  Item, port_item, location_item, to_statements, Holds, IsWellFormed, port_at, all_seen,
}
use raddish.Config.Settings.Items.{
  get_server_settings_inner-items, get_server_settings_inner-duplicate,
}

-- A configuration with a block.
abbrev text : Bytes
text = codes "port 80; location /a E { root \"x y\"; }"

abbrev tree : Statements
tree = cons (simple (codes "port" ∷ codes "80" ∷ [])) (
    cons
      (block (codes "location" ∷ codes "/a" ∷ codes "E" ∷ [])
        (cons (simple (codes "root" ∷ codes "\"x y\"" ∷ [])) nil))
      nil)

parse_text : parse text ≡ some (accepted tree)
unfolding parse parse_token
parse_text = refl

tree-IsPrintable : IsPrintable tree
tree-IsPrintable = parse-IsPrintable text parse_text

parse-to_string-parse_example : parse (to_string tree 0) ≡ parse text
parse-to_string-parse_example = parse-to_string-parse text parse_text

parse-to_string_example : parse (to_string tree 0) ≡ some (accepted tree)
parse-to_string_example = parse-to_string tree-IsPrintable

parse-IsPrintable_example : IsPrintable tree
parse-IsPrintable_example = parse-IsPrintable text parse_text

parse_total_example : (d : Verdict) × (parse (codes "port 80; {") ≡ some d)
parse_total_example = parse_total (codes "port 80; {")

-- A block that was never opened is closed, and a word follows.
abbrev stray_text : Bytes
stray_text = codes "a; } b;"

parse_stray_text : parse stray_text ≡ some undefined
unfolding parse parse_token
parse_stray_text = refl

parse-over_closes_example : over_closes 0 ((lex stray_text).0) ≡ true
parse-over_closes_example = parse-over_closes ((lex stray_text).1) parse_stray_text

parse_token-IsWord_example :
    parse_token (codes "'a b'" ++ codes "; c") ≡ read normal (codes "'a b'") (codes "; c")
parse_token-IsWord_example =
    parse_token-IsWord (codes "; c")
      (quoted b'\'' (codes "a b") refl (refl, (refl, (refl, tt))) refl) refl

normal_token : (parse_token (codes " ab;")).type ≡ normal
unfolding parse_token
normal_token = refl

parse_token-normal_example : IsWord (parse_token (codes " ab;")).value
parse_token-normal_example = parse_token-normal (codes " ab;") normal_token

has_key-trim_example :
    has_key 0 (codes "/a" ∷ []) (codes "/a//")
    ≡ some (contains (codes "/a" ∷ []) (trim (codes "/a//")))
has_key-trim_example = has_key-trim 0 (codes "/a" ∷ []) (codes "/a//") refl

one_slash : codes "/a/" ≡ trim (codes "/a/") ++ b'/' ∷ []
unfolding trim
one_slash = refl

remove_slashes-trim_example : remove_slashes 0 (codes "/a/") ≡ some (trim (codes "/a/"))
remove_slashes-trim_example = remove_slashes-trim 0 (codes "/a/") refl (inr one_slash)

strip_loop-hangs_example : strip_loop 0 1000 4 (codes "/a//") ≡ none
strip_loop-hangs_example = strip_loop-hangs 0 1000 (codes "/a//") (codes "/a") refl

abbrev pub items : List Item
items =
    port_item (codes "8080")
    ∷ location_item (codes "/a/") (codes "EchoRequestHandler") ((codes "root", codes "\"x\"") ∷ [])
    ∷ []

pub items-IsWellFormed : IsWellFormed [] items
unfolding stoi trim unquote contains equal
items-IsWellFormed = ((pos 8080, refl), ((inr refl, refl, refl, refl), tt))

pub items-port : port_at (negsuc 0) items ≡ pos 8080
unfolding stoi
items-port = refl

get_server_settings_inner-items_example :
    (info : ConfigInfo) × (get_server_settings_inner 0 (to_statements items) ≡ ok info)
    × Holds items info
get_server_settings_inner-items_example =
    get_server_settings_inner-items 0 items 8080 refl items-IsWellFormed items-port (omega arith)

items-seen : contains (all_seen items []) (trim (unquote (codes "'/a'"))) ≡ true
unfolding contains trim unquote equal
items-seen = refl

get_server_settings_inner-duplicate_example :
    get_server_settings_inner 0 (
      append (to_statements items) (
        cons (block (codes "location" ∷ codes "'/a'" ∷ codes "HealthRequestHandler" ∷ []) nil) nil))
    ≡ return_false
get_server_settings_inner-duplicate_example =
    get_server_settings_inner-duplicate 0 items (codes "'/a'") (codes "HealthRequestHandler") nil
      nil refl items-IsWellFormed items-seen

abbrev small : Statements
small = cons (simple (codes "port" ∷ codes "80" ∷ [])) nil

get_server_settings_inner-Checked_example :
    Checked (statement_loop 0 small initial_locals) (get_server_settings_inner 0 small)
get_server_settings_inner-Checked_example = get_server_settings_inner-Checked 0 small
