-- ===== src/Startup.antt =====
-- `main` and `signalHandler` of src/server_main.cc, with what they use of src/config_parser.cc
-- outside the parser: `parse` of a file, `get_config_settings`, and the log of the parser.
pub mod Exits
pub mod Online
use raddish.Base.{
  ℕ, Bool, true, false, List, [], ◌∷◌, ◌++◌, Bytes, codes, Option, none, some, ℤ, pos, negsuc, ◌==◌,
  if◌then◌else◌,
}
use raddish.Std.{Exception}
use raddish.Config.Lexer.{TokenType}
use raddish.Config.Lexer
use raddish.Config.Parser.{Verdict, parse, accepted, bad_transition, mismatched}
use raddish.Config.Parser
use raddish.Config.Tree.{Statements}
use raddish.Config.Settings.{ConfigInfo, Flow, ok, return_false, throw, get_server_settings_inner}
use raddish.Config.Settings
use raddish.Http.{LogEntry, Severity, info, error, fatal}

unfoldable pub token_type_as_string : TokenType → Bytes
token_type_as_string Lexer.start = codes "TOKEN_TYPE_START"
token_type_as_string Lexer.normal = codes "TOKEN_TYPE_NORMAL"
token_type_as_string Lexer.start_block = codes "TOKEN_TYPE_START_BLOCK"
token_type_as_string Lexer.end_block = codes "TOKEN_TYPE_END_BLOCK"
token_type_as_string Lexer.comment = codes "TOKEN_TYPE_COMMENT"
token_type_as_string Lexer.statement_end = codes "TOKEN_TYPE_STATEMENT_END"
token_type_as_string Lexer.eof = codes "TOKEN_TYPE_EOF"
token_type_as_string Lexer.error = codes "TOKEN_TYPE_ERROR"

-- `number_to_token_string`: every other number stands for the error.
unfoldable pub number_to_token_string : ℤ → Bytes
unfolding token_type_as_string
number_to_token_string (negsuc _) = token_type_as_string Lexer.error
number_to_token_string (pos n) = token_type_as_string (
    if n == 0
    then Lexer.start
    else if n == 1
    then Lexer.normal
    else if n == 2
    then Lexer.start_block
    else if n == 3
    then Lexer.end_block
    else if n == 4
    then Lexer.comment
    else if n == 5
    then Lexer.statement_end
    else if n == 6
    then Lexer.eof
    else Lexer.error)

abbrev pub entry : Bytes → Severity → Bytes → LogEntry
entry process severity message = record {
  process = process;
  severity = severity;
  message = message;
}

abbrev pub parser_entry : Severity → Bytes → LogEntry
parser_entry = entry (codes "Config Parser")

-- What `parse` logs before it returns.
unfoldable pub parse_log : Verdict → List LogEntry
unfolding token_type_as_string
parse_log (accepted s) = []
parse_log (bad_transition last token) =
    parser_entry error (
      codes "Bad transition from "
      ++ (token_type_as_string last ++ (codes " to " ++ token_type_as_string token)))
    ∷ []
parse_log mismatched = parser_entry error (codes "Mismatched amount of start/end blocks") ∷ []
parse_log Parser.undefined = []

-- What the server gets from its environment: the content of the file that a stream of this name
-- reads, `none` if the stream is not good; the text of an exception; and the text of the
-- exception that the acceptor throws for a port, if it throws one.
pub record Environment : Type 0 where
  pub stray : ℕ
  pub read_stream : Bytes → Option Bytes
  pub what : Exception → Bytes
  pub bind : ℤ → Option Bytes

-- How `parse` of a file ends: the stream is not good, or the stream is parsed. It is `none` if the
-- parser runs forever.
pub data Parsed : Type 0 where
  not_opened : Parsed
  parsed : Verdict → Parsed

-- How `main` ends: with this exit code and these log entries; it runs the server; undefined
-- behaviour; or it runs forever before there is a server.
pub data Main : Type 0 where
  exited : ℕ → List LogEntry → Main
  online : ConfigInfo → List LogEntry → Main
  undefined : Main
  hangs : Main

-- `get_config_settings` and `get_config_info`
unfoldable pub get_config_settings : ℕ → Statements → Flow ConfigInfo
unfolding get_server_settings_inner
get_config_settings stray config = get_server_settings_inner stray config

abbrev pub to_parsed : Option Verdict → Option Parsed
to_parsed none = none
to_parsed (some v) = some (parsed v)

module _ (env : Environment) where
  abbrev pub parse_opened : Option Bytes → Option Parsed
  parse_opened none = some not_opened
  parse_opened (some text) = to_parsed (parse text)

  -- `parse` of a file
  unfoldable pub parse_file : Bytes → Option Parsed
  unfolding parse
  parse_file file_name = parse_opened (env.read_stream file_name)

  abbrev pub starting : LogEntry
  starting = entry (codes "Server Startup") info (codes "Getting the (con)figs - Start!")

  -- The `catch` of `main`, which falls through to `return 0`.
  unfoldable pub caught : List LogEntry → Bytes → Main
  caught log what = exited 0 (
      log
      ++ entry (codes "Server Startup") fatal (codes "Raddish Down (Exception) : " ++ what) ∷ [])

  -- The constructor of the server, and the loop.
  abbrev pub started : ConfigInfo → List LogEntry → Option Bytes → Main
  started config log (some what) = caught log what
  started config log none =
      online config (log ++ entry (codes "Server") info (codes "Raddish Online!") ∷ [])

  abbrev pub configured : List LogEntry → Flow ConfigInfo → Main
  configured log (ok config) = started config log (env.bind config.port_num)
  configured log return_false =
      exited 1
        (log ++ entry (codes "Server Startup") fatal (codes "Failed to parse config file") ∷ [])
  configured log (throw e) = caught log (env.what e)
  configured log Settings.undefined = undefined
  configured log Settings.hangs = hangs

  abbrev pub bad_configs : List LogEntry → Main
  bad_configs log = exited 1 (
      log ++ entry (codes "Server Startup") fatal (codes "Oh no! Bad (con)figs were provided") ∷ [])

  unfoldable pub after_parse : Bytes → Option Parsed → Main
  unfolding get_config_settings parse_log caught
  after_parse file_name none = hangs
  after_parse file_name (some not_opened) =
      bad_configs
        (starting ∷ parser_entry error (codes "Failed to open config file: " ++ file_name) ∷ [])
  after_parse file_name (some (parsed (accepted config))) =
      configured (starting ∷ []) (get_config_settings env.stray config)
  after_parse file_name (some (parsed (bad_transition last token))) =
      bad_configs (starting ∷ parse_log (bad_transition last token))
  after_parse file_name (some (parsed mismatched)) = bad_configs (starting ∷ parse_log mismatched)
  after_parse file_name (some (parsed Parser.undefined)) = undefined

  -- `main`, for its arguments. The parser's own entries about a port and about the locations, good or
  -- bad, are left out.
  unfoldable pub main : List Bytes → Main
  unfolding after_parse parse_file
  main (_ ∷ file_name ∷ []) = after_parse file_name (parse_file file_name)
  main _ = exited 1 []

-- `signalHandler`: its log and its exit code.
unfoldable pub signal_handler : Main
signal_handler = exited 0 (entry (codes "Server") info (codes "Raddish Down (Terminated)") ∷ [])
