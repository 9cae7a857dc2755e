-- ===== src/Sandbox/System.antt =====
-- What a sandbox run asks of its host, and what the host can see of it.
use akesis.Common.{ℕ, String, Bool, List, nat_eq, string_eq}
use akesis.Domain.{ℤ}
use akesis.Config.{Thousandths}
use akesis.Runtime.{Error, ErrorKind}
use akesis.Calls.{Outcome}

-- The end of `subprocess.run`: an exit code and the text of stderr, or the message of an exception.
pub data Launch : Type 0 where
  exited : ℤ → String → Launch
  not_found expired broken : String → Launch

-- The end of `wait_for(proc.communicate())`: exit code, stdout and stderr, decoded.
pub data Communication : Type 0 where
  finished : ℤ → String → String → Communication
  out_of_time : Communication
  broken_off : String → Communication

pub data HostEvent : Type 0 where
  workspace_created workspace_destroyed : String → HostEvent
  file_copied : String → String → HostEvent
  patch_written patch_removed : String → HostEvent
  -- a command on the host, and its end
  command_ended : List String → Launch → HostEvent
  container_started : List String → HostEvent
  client_killed : HostEvent

-- `resolve` of a path, `f"{x}"` of a float and `str` of `CalledProcessError` among them.
pub record Host : Type 0 where
  pub mkdtemp : ℕ → Outcome Error String
  pub exists : String → ℕ → Bool
  pub is_dir : String → ℕ → Bool
  pub listdir : String → ℕ → Outcome Error (List String)
  pub copy : String → String → ℕ → Outcome Error (Unit {0})
  pub write_text : String → String → ℕ → Outcome Error (Unit {0})
  pub unlink : String → ℕ → Outcome Error (Unit {0})
  pub run : List String → ℕ → Launch
  pub start : List String → ℕ → Outcome Error (Unit {0})
  pub communicate : Thousandths → ℕ → Communication
  pub perf_counter : ℕ → ℕ
  pub resolve : String → String
  pub format_float : Thousandths → String
  pub called_process_error : List String → ℤ → String

abbrev pub error : ErrorKind → String → Error
error k m = record { kind = k; message = m }
