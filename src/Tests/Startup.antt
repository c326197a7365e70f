-- ===== src/Tests/Startup.antt =====
-- The theorems on the start of the server at concrete inputs.
use raddish.Base.{List, [], ◌∷◌, Bytes, codes, some, none, ◌≡◌, refl, true, arith}
use raddish.Config.Printer.{to_string}
use raddish.Config.Settings.{ConfigInfo}
use raddish.Config.Settings.Spec.{Holds, to_statements}
use raddish.Http.{info}
use raddish.Startup.{Environment, online, main, starting, entry}
use raddish.Startup.Exits.{Means, main-Means}
use raddish.Startup.Online.{main-to_statements}
use raddish.Logger.{Core, make}
use raddish.Logger.Sinks.{set_test, rotate, run, run-sinks, two_sinks}
use raddish.Tests.Config.{items, items-IsWellFormed, items-port}
use raddish.Tests.Serve.{items-IsPrintable}

abbrev environment : Environment
environment = record {
  stray = 0;
  read_stream = λ _. some (to_string (to_statements items) 0);
  what = λ _. codes "stoi";
  bind = λ _. none;
}

abbrev arguments : List Bytes
arguments = codes "server" ∷ codes "conf" ∷ []

main-Means_example : Means environment arguments (main environment arguments)
main-Means_example = main-Means environment arguments

main-to_statements_example :
    (config : ConfigInfo) × Holds items config
    × (main environment arguments
        ≡ online config
            (starting environment ∷ entry (codes "Server") info (codes "Raddish Online!") ∷ []))
main-to_statements_example =
    main-to_statements environment (codes "server") (codes "conf") items 8080 refl
      items-IsWellFormed items-IsPrintable items-port (omega arith) refl refl

abbrev core : Core
core = record { process = codes "Unknown"; sinks = [] }

run-sinks_example : (run (set_test true ∷ rotate ∷ []) (make core)).core.sinks ≡ two_sinks true
run-sinks_example = run-sinks core (set_test true ∷ rotate ∷ []) refl
