-- ===== src/Logger/Sinks.antt =====
-- The sinks after any calls.
use raddish.Base.{Bool, true, false, List, [], ◌∷◌, ◌++◌, Bytes, codes, ◌≡◌, refl}
use raddish.Logger.{
  Sink, file_sink, console_sink, Core, Logger, log_format, file_name, init_logs, make,
  set_test_status, force_log_rotation, remove_all_sinks,
}

-- A call of one of the two operations.
pub data Call : Type 0 where
  set_test : Bool → Call
  rotate : Call

abbrev pub run : List Call → Logger → Logger
run [] l = l
run (set_test b ∷ cs) l = run cs (set_test_status b l)
run (rotate ∷ cs) l = run cs (force_log_rotation l)

-- The status that the last call set.
abbrev pub status : List Call → Bool → Bool
status [] b = b
status (set_test b ∷ cs) _ = status cs b
status (rotate ∷ cs) b = status cs b

-- Where the files of a status are, and the two sinks that belong to it.
abbrev pub directory_of : Bool → Bytes
directory_of true = codes "t_logs/"
directory_of false = codes "logs/"

abbrev pub line_format : Bytes
line_format = codes "[%TimeStamp%] [%ThreadID%] [%Process%] [%Severity%] %Message%"

abbrev pub two_sinks : Bool → List Sink
two_sinks b =
    file_sink (directory_of b ++ codes "%Y-%m-%d_%H-%M-%S-%f.log") 10000000 line_format
    ∷ console_sink line_format
    ∷ []

abbrev pub Wired : Bool → Logger → Type 0
Wired b l = l.core.sinks ≡ two_sinks b

init_logs-Wired :
    (b : Bool) (l : Logger) → l.is_test ≡ b → l.core.sinks ≡ [] → Wired b (init_logs l)
unfolding init_logs file_name log_format
init_logs-Wired true l e s = rw (e, s) refl
init_logs-Wired false l e s = rw (e, s) refl

run-Wired :
    (cs : List Call) (b : Bool) (l : Logger)
    → l.is_test ≡ b
    → Wired b l
    → Wired (status cs b) (run cs l)
unfolding set_test_status force_log_rotation init_logs
run-Wired [] b l e w = w
run-Wired (set_test b' ∷ cs) b l e w =
    run-Wired cs b' _ refl
      (init_logs-Wired b' (remove_all_sinks (record l { is_test = b' })) refl refl)
run-Wired (rotate ∷ cs) b l e w = run-Wired cs b _ e (init_logs-Wired b (remove_all_sinks l) e refl)

-- After the constructor, on a core without sinks, and any calls of `set_test_status` and
-- `force_log_rotation`, there are exactly two sinks: a file, and then the console, both with the
-- same format. The file is in `t_logs/` if the status that was set last is that of a test, and in
-- `logs/` if it is not or if none was set.
pub run-sinks :
    (core : Core) (cs : List Call)
    → core.sinks ≡ []
    → (run cs (make core)).core.sinks ≡ two_sinks (status cs false)
unfolding make init_logs
run-sinks core cs e =
    run-Wired cs false (make core) refl
      (init_logs-Wired false (record { is_test = false; core = core }) refl e)
