-- ===== src/Logger.antt =====
-- `Logger` of src/logger.cc: the sinks of the core of Boost.Log, of which there is one in a process.
pub mod Sinks
use raddish.Base.{ℕ, Bool, true, false, List, [], ◌∷◌, ◌++◌, Bytes, codes, if◌then◌else◌}

-- A sink with its format. Both flush after each record; the file is rotated at this size and at
-- midnight.
pub data Sink : Type 0 where
  file_sink : (target_file_name : Bytes) → (rotation_size : ℕ) → (format : Bytes) → Sink
  console_sink : (format : Bytes) → Sink

-- The core, with its global attribute `Process`.
pub record Core : Type 0 where
  pub process : Bytes
  pub sinks : List Sink

pub record Logger : Type 0 where
  pub is_test : Bool
  pub core : Core

unfoldable pub log_format : Bytes
log_format = codes "[%TimeStamp%] [%ThreadID%] [%Process%] [%Severity%] %Message%"

unfoldable pub file_name : Bool → Bytes
file_name is_test =
    if is_test
    then codes "t_logs/%Y-%m-%d_%H-%M-%S-%f.log"
    else codes "logs/%Y-%m-%d_%H-%M-%S-%f.log"

-- `init_logs`
unfoldable pub init_logs : Logger → Logger
unfolding file_name
init_logs l = record l {
  core = record {
    process = codes "Unknown";
    sinks =
        l.core.sinks
        ++ file_sink (file_name l.is_test) 10000000 log_format ∷ console_sink log_format ∷ [];
  };
}

abbrev pub remove_all_sinks : Logger → Logger
remove_all_sinks l = record l { core = record l.core { sinks = [] } }

-- The constructor
unfoldable pub make : Core → Logger
unfolding init_logs
make core = init_logs (record { is_test = false; core = core })

unfoldable pub set_test_status : Bool → Logger → Logger
unfolding init_logs
set_test_status is_test l = init_logs (remove_all_sinks (record l { is_test = is_test }))

unfoldable pub force_log_rotation : Logger → Logger
unfolding init_logs
force_log_rotation l = init_logs (remove_all_sinks l)
