-- ===== src/Startup/Online.antt =====
-- A configuration that brings the server online.
use raddish.Base.{
  ℕ, ◌≤◌, ◌==◌, false, List, [], ◌∷◌, Bytes, codes, some, none, ◌≡◌, ap, ◌∙◌, negsuc, pos,
}
use raddish.Http.{info}
use raddish.Config.Printer.{to_string}
use raddish.Config.Printer.Lexing.{IsPrintable}
use raddish.Config.RoundTrip.{parse-to_string}
use raddish.Config.Settings.{ConfigInfo, max_port}
use raddish.Config.Settings.Spec.{Item, to_statements, IsWellFormed, Holds, port_at}
use raddish.Config.Settings.Items.{get_server_settings_inner-items}
use raddish.Startup.{
  Environment, online, main, configured, after_parse, parse_file, parse_opened, to_parsed, started,
  get_config_settings, starting, entry,
}

-- If the file holds the text of well-formed and printable items with a port up to 65353 that the
-- acceptor can bind, then `main` brings a server online whose settings are what the items say, and
-- logs that it starts and that it is online. The byte before an empty string is taken to be no slash.
pub main-to_statements :
    (env : Environment) (program file_name : Bytes) (is : List Item) (n : ℕ)
    → (env.stray == b'/') ≡ false
    → IsWellFormed [] is
    → IsPrintable (to_statements is)
    → port_at (negsuc 0) is ≡ pos n
    → n ≤ max_port
    → env.read_stream file_name ≡ some (to_string (to_statements is) 0)
    → env.bind (pos n) ≡ none
    → (config : ConfigInfo) × Holds is config
      × (main env (program ∷ file_name ∷ [])
          ≡ online config
              (starting env ∷ entry (codes "Server") info (codes "Raddish Online!") ∷ []))
unfolding main after_parse parse_file get_config_settings
main-to_statements env program file_name is n other good printable port le file bound =
    let (config, e, holds) = get_server_settings_inner-items env.stray is n other good port le in
    let read = ap (parse_opened env) file ∙ ap to_parsed (parse-to_string printable) in
    (
      config,
      holds,
      ap (after_parse env file_name) read
          ∙ ap (configured env (starting env ∷ [])) e
          ∙ ap (started env config (starting env ∷ [])) (ap env.bind (holds.port ∙ port) ∙ bound),
    )
