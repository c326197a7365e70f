-- ===== src/Startup/Exits.antt =====
-- What the end of `main` tells.
use raddish.Base.{
  ℕ, ◌≤◌, List, [], ◌∷◌, ◌++◌, Bytes, codes, Option, none, some, ◌≡◌, refl, pos, length, ◌⊎◌, inl,
  inr, ap, arith, ◌≢◌, sym, subst, ◌∙◌,
}
use raddish.Std.{Exception}
use raddish.Config.Lexer.{TokenType}
use raddish.Config.Settings.{ConfigInfo, Flow, ok, return_false, throw, get_server_settings_inner}
use raddish.Config.Settings
use raddish.Config.Settings.Bounds.{get_server_settings_inner-port}
use raddish.Config.Tree.{Statements}
use raddish.Config.Parser.{parse, accepted, bad_transition, mismatched, Verdict}
use raddish.Config.Parser
use raddish.Config.Parser.Tokens.{parse_total}
use raddish.Http.{LogEntry, fatal, error}
use raddish.Startup.{
  Environment, parsed, Main, exited, online, undefined, hangs, main, configured, after_parse,
  caught, parse_file, started, parse_opened, to_parsed, bad_configs, parser_entry,
  get_config_settings, starting, parse_log,
}

abbrev down : Bytes → Bytes
down what = codes "Raddish Down (Exception) : " ++ what

-- The last entry of a log.
abbrev pub EndsWith : List LogEntry → (LogEntry → Type 0) → Type 0
EndsWith log P = (before : List LogEntry) × (e : LogEntry) × (log ≡ before ++ e ∷ []) × P e

-- The arguments name a file that the stream reads, and the parser ends on its text like this.
pub record Read (env : Environment) (args : List Bytes) (verdict : Verdict) : Type 0 where
  pub program : Bytes
  pub file_name : Bytes
  pub text : Bytes
  pub shape : args ≡ program ∷ file_name ∷ []
  pub reads : env.read_stream file_name ≡ some text
  pub parses : parse text ≡ some verdict

-- The arguments name a file that the stream does not read.
pub record Unread (env : Environment) (args : List Bytes) : Type 0 where
  pub program : Bytes
  pub file_name : Bytes
  pub shape : args ≡ program ∷ file_name ∷ []
  pub fails : env.read_stream file_name ≡ none

module _ (env : Environment) where
  -- The file holds a configuration, on which the settings end like this.
  abbrev pub Settled : List Bytes → Flow ConfigInfo → Type 0
  Settled args result =
      (config : Statements) × Read env args (accepted config)
      × (get_server_settings_inner env.stray config ≡ result)

  -- Why a configuration is refused.
  abbrev pub Refused : List Bytes → Type 0
  Refused args =
      Unread env args
      ⊎ ((last token : TokenType) × Read env args (bad_transition last token))
      ⊎ Read env args mismatched
      ⊎ Settled args return_false

  -- Where an exception with this text comes from: the settings, or the acceptor.
  abbrev pub Thrown : List Bytes → Bytes → Type 0
  Thrown args what =
      ((x : Exception) × Settled args (throw x) × (what ≡ env.what x))
      ⊎ ((info : ConfigInfo) × Settled args (ok info) × (env.bind info.port_num ≡ some what))

  -- What each end means.
  abbrev pub Means : List Bytes → Main → Type 0
  Means args (exited c log) =
      ((c ≡ 1) × (length args ≢ 2) × (log ≡ []))
      ⊎ ((c ≡ 1) × Refused args × EndsWith log (λ e. e.severity ≡ fatal))
      ⊎ ((c ≡ 0)
          × ((what : Bytes) × Thrown args what
              × EndsWith log (λ e. (e.severity ≡ fatal) × (e.message ≡ down what))))
  Means args (online info log) =
      Settled args (ok info)
      × ((n : ℕ) × (info.port_num ≡ pos n) × (n ≤ 65353))
      × (env.bind info.port_num ≡ none)
  Means args undefined = Read env args Parser.undefined ⊎ Settled args Settings.undefined
  Means args hangs = Settled args Settings.hangs

  module _ (program file_name : Bytes) where
    abbrev both : List Bytes
    both = program ∷ file_name ∷ []

    started-Means :
        (config : ConfigInfo) (log : List LogEntry) (o : Option Bytes)
        → Settled both (ok config)
        → (n : ℕ) × (config.port_num ≡ pos n) × (n ≤ 65353)
        → env.bind config.port_num ≡ o
        → Means both (started env config log o)
    unfolding caught
    started-Means config log none s p b = (s, p, b)
    started-Means config log (some what) s p b =
        inr (inr (refl, (what, inr (config, s, b), (log, _, refl, (refl, refl)))))

    configured-Means :
        (config : Statements) (log : List LogEntry) (f : Flow ConfigInfo)
        → Read env both (accepted config)
        → get_server_settings_inner env.stray config ≡ f
        → Means both (configured env log f)
    unfolding caught
    configured-Means config log (ok info) r e =
        started-Means info log _ (config, r, e) (get_server_settings_inner-port env.stray config e)
          refl
    configured-Means config log return_false r e =
        inr (inl (refl, inr (inr (inr (config, r, e))), (log, _, refl, refl)))
    configured-Means config log (throw x) r e =
        inr (inr (refl, (env.what x, inl (x, (config, r, e), refl), (log, _, refl, (refl, refl)))))
    configured-Means config log Settings.undefined r e = inr (config, r, e)
    configured-Means config log Settings.hangs r e = (config, r, e)

    bad_configs-Means : (log : List LogEntry) → Refused both → Means both (bad_configs env log)
    bad_configs-Means log r = inr (inl (refl, r, (log, _, refl, refl)))

    verdict-Means :
        (v : Verdict) → Read env both v → Means both (after_parse env file_name (some (parsed v)))
    unfolding after_parse get_config_settings
    verdict-Means (accepted config) r = configured-Means config (starting env ∷ []) _ r refl
    verdict-Means (bad_transition last token) r =
        bad_configs-Means (starting env ∷ parse_log (bad_transition last token))
          (inr (inl (last, token, r)))
    verdict-Means mismatched r =
        bad_configs-Means (starting env ∷ parse_log mismatched) (inr (inr (inl r)))
    verdict-Means Parser.undefined r = inl r

    opened-Means : (o : Option Bytes) → env.read_stream file_name ≡ o → Means both (main env both)
    unfolding main parse_file after_parse
    opened-Means none e =
        let unread : Unread env both = record {
          program = program;
          file_name = file_name;
          shape = refl;
          fails = e;
        } in
        rw e (
          bad_configs-Means
            (starting env
              ∷ parser_entry error (codes "Failed to open config file: " ++ file_name)
              ∷ [])
            (inl unread))
    opened-Means (some text) e =
        let (v, q) = parse_total text in
        let r : Read env both v = record {
          program = program;
          file_name = file_name;
          text = text;
          shape = refl;
          reads = e;
          parses = q;
        } in
        subst (λ o. Means both (after_parse env file_name o))
          (sym (ap (parse_opened env) e ∙ ap to_parsed q)) (verdict-Means v r)

  -- However `main` ends, for any arguments. Exit code 1 is a wrong number of arguments, with nothing
  -- logged, or, with a fatal last entry, a file that does not open, that the parser refuses, or
  -- whose settings return false. Exit code 0 is an exception of the settings or of the acceptor,
  -- whose text the fatal last entry has. A server that is online has the settings of the file, with
  -- a port from 0 to 65353 that the acceptor could bind. Undefined behaviour is the parser's on the
  -- text of the file or that of its settings. `main` runs forever without a server only if the
  -- parser accepts the text and the settings of that configuration run forever.
  pub main-Means : (args : List Bytes) → Means args (main env args)
  unfolding main
  main-Means [] = inl (refl, (λ e. ground (arith, e)), refl)
  main-Means (_ ∷ []) = inl (refl, (λ e. ground (arith, e)), refl)
  main-Means (program ∷ file_name ∷ []) = opened-Means program file_name _ refl
  main-Means (_ ∷ _ ∷ _ ∷ args) = inl (refl, (λ e. omega (arith, e)), refl)
