-- ===== src/Sandbox/Runner.antt =====
-- The steps of a sandbox run.
use akesis.Common.{
  ℕ, suc, ◌-◌, ◌/◌, String, true, false, ◌&&◌, Option, none, some, List, [], ◌∷◌, ◌++◌, ◌==◌,
  nat_eq, string_eq, if◌then◌else◌, leb, codes, length, concat, prefix, is_blank, strip, drop,
}
use akesis.Domain.{ValidationCommand, is_zero_exit}
use akesis.Config.{Thousandths, Settings}
use akesis.Runtime.{Error, ErrorKind, ok, err}
use akesis.Calls.{
  Outcome, Run, returned, raised, Program, finish, throw, call, ask, answered, choose, rescue,
  finally, ◌>>=◌, ◌>>◌,
}
use akesis.Validation.{ValidationExecutionResult, SandboxRunner}
use akesis.Sandbox.System.{
  Host, HostEvent, workspace_created, workspace_destroyed, file_copied, patch_written,
  patch_removed, command_ended, container_started, client_killed, Launch, exited, not_found,
  expired, broken, Communication, finished, out_of_time, broken_off, error,
}

abbrev pub Steps : Type 0 → Type 0
Steps A = Program HostEvent Error A

-- `COMMAND_INVOCATION_MAP`
unfoldable pub command_invocation : ValidationCommand → List String
command_invocation ValidationCommand.pytest = "pytest" ∷ "-v" ∷ []
command_invocation ValidationCommand.ruff = "ruff" ∷ "check" ∷ "." ∷ []
command_invocation ValidationCommand.mypy = "mypy" ∷ "." ∷ []
command_invocation ValidationCommand.python_syntax = "python3" ∷ "-m" ∷ "compileall" ∷ "." ∷ []

pub record DockerSandboxRunner : Type 0 where
  pub image_name : String
  pub timeout_seconds : Thousandths
  pub memory_limit : String
  pub cpu_limit : Thousandths
  pub max_output_chars : ℕ

-- `x or y` of a number that may be `None`
abbrev pub number_or : Option ℕ → ℕ → ℕ
number_or none d = d
number_or (some n) d = if n == 0 then d else n

-- `x or y` of a text that may be `None`
abbrev pub string_or : Option String → String → String
string_or none d = d
string_or (some s) d = if is_blank s then d else s

-- `__init__`
abbrev pub docker_sandbox_runner :
    Settings → Option String → Option ℕ → Option String → Option ℕ → Option ℕ → DockerSandboxRunner
docker_sandbox_runner settings image timeout memory cpu limit = record {
  image_name = string_or image settings.sandbox_image;
  timeout_seconds = number_or timeout settings.sandbox_timeout_seconds;
  memory_limit = string_or memory settings.sandbox_memory_limit;
  cpu_limit = number_or cpu settings.sandbox_cpu_limit;
  max_output_chars = number_or limit settings.sandbox_max_output_chars;
}

-- `text[-n:]`, which is the whole text for 0
abbrev pub last_part : ℕ → String → String
last_part n s = if n == 0 then s else drop (length (codes s) - n) s

unfoldable pub truncate_output : ℕ → String → String
truncate_output max_chars text =
    if leb (length (codes text)) max_chars
    then text
    else concat (
        prefix (max_chars / 2) text
        ∷ "\n\n[... output truncated ...]\n\n"
        ∷ last_part (max_chars / 2) text
        ∷ [])

abbrev pub path : String → String → String
path dir name = concat (dir ∷ "/" ∷ name ∷ [])

-- what `_execute_container` runs
unfoldable pub docker_command : Host → DockerSandboxRunner → String → List String → List String
docker_command host self workspace cmd_args =
    ("docker"
      ∷ "run"
      ∷ "--rm"
      ∷ "--network"
      ∷ "none"
      ∷ "--cap-drop"
      ∷ "ALL"
      ∷ "--security-opt"
      ∷ "no-new-privileges"
      ∷ "--user"
      ∷ "1000:1000"
      ∷ "--memory"
      ∷ self.memory_limit
      ∷ concat ("--cpus=" ∷ host.format_float self.cpu_limit ∷ [])
      ∷ "-v"
      ∷ concat (host.resolve workspace ∷ ":/workspace:rw" ∷ [])
      ∷ "-w"
      ∷ "/workspace"
      ∷ self.image_name
      ∷ [])
    ++ cmd_args

-- the end of `tempfile.mkdtemp`
abbrev pub workspace_of : Outcome Error String → ℕ → Run HostEvent Error String
workspace_of (returned dir) n = record {
  outcome = returned dir;
  events = workspace_created dir ∷ [];
  reads = suc n;
}
workspace_of (raised e) n = record { outcome = raised e; events = []; reads = suc n }

module _ (host : Host) where
  -- `subprocess.run(argv)`
  abbrev pub run_command : List String → Steps Launch
  run_command argv = answered (command_ended argv) (host.run argv)

  -- with `check=True`
  abbrev pub check_exit : List String → Launch → Steps (Unit {0})
  check_exit argv (exited code stderr) =
      choose (is_zero_exit (some code)) (finish tt)
        (throw (error ErrorKind.unexpected (host.called_process_error argv code)))
  check_exit argv (not_found m) = throw (error ErrorKind.unexpected m)
  check_exit argv (expired m) = throw (error ErrorKind.unexpected m)
  check_exit argv (broken m) = throw (error ErrorKind.unexpected m)

  abbrev pub run_checked : List String → Steps (Unit {0})
  run_checked argv = do launch ← run_command argv; check_exit argv launch

  abbrev pub copy_item : String → String → String → Steps (Unit {0})
  copy_item source target item = choose (item == ".git") (finish tt) (
      call (file_copied (path source item) (path target item))
        (host.copy (path source item) (path target item)))

  unfoldable pub copy_items : String → String → List String → Steps (Unit {0})
  copy_items source target [] = finish tt
  copy_items source target (item ∷ items) = do
    copy_item source target item
    copy_items source target items

  unfoldable pub materialize : String → String → Steps (Unit {0})
  materialize source target = do
    items ← ask (host.listdir source)
    copy_items source target items
    run_checked ("git" ∷ "init" ∷ "-q" ∷ [])
    run_checked ("git" ∷ "config" ∷ "user.name" ∷ "Akesis" ∷ [])
    run_checked ("git" ∷ "config" ∷ "user.email" ∷ "agent@crlabs.ai" ∷ [])
    run_checked ("git" ∷ "add" ∷ "." ∷ [])
    run_checked ("git" ∷ "commit" ∷ "-q" ∷ "-m" ∷ "init" ∷ [])

  unfoldable pub materialize_workspace : String → String → Steps (Unit {0})
  materialize_workspace source target = do
    exists ← ask (λ n. returned (host.exists source n))
    is_dir ← ask (λ n. returned (host.is_dir source n))
    choose (exists && is_dir)
        (rescue (materialize source target) (λ e. throw (
          error ErrorKind.sandbox (concat ("Failed to materialize workspace: " ∷ e.message ∷ [])))))
        (throw (
          error ErrorKind.sandbox
            (concat ("Source repository directory not found: " ∷ source ∷ []))))

  -- a run whose exit code is looked at
  abbrev pub accept_exit : String → Launch → Steps (Unit {0})
  accept_exit refusal (exited code stderr) =
      choose (is_zero_exit (some code)) (finish tt)
        (throw (error ErrorKind.patch_application (concat (refusal ∷ strip stderr ∷ []))))
  accept_exit refusal (not_found m) = throw (error ErrorKind.unexpected m)
  accept_exit refusal (expired m) = throw (error ErrorKind.unexpected m)
  accept_exit refusal (broken m) = throw (error ErrorKind.unexpected m)

  abbrev pub run_accepted : List String → String → Steps (Unit {0})
  run_accepted argv refusal = do launch ← run_command argv; accept_exit refusal launch

  unfoldable pub apply_patch : String → String → Steps (Unit {0})
  apply_patch file diff = do
    call (patch_written file) (host.write_text file diff)
    run_accepted ("git" ∷ "apply" ∷ "--check" ∷ file ∷ []) "git apply --check rejected patch: "
    run_accepted ("git" ∷ "apply" ∷ file ∷ []) "git apply rejected patch: "

  -- `finally: if patch_file.exists(): patch_file.unlink()`
  unfoldable pub remove_patch : String → Steps (Unit {0})
  remove_patch file = do
    exists ← ask (λ n. returned (host.exists file n))
    choose exists (call (patch_removed file) (host.unlink file)) (finish tt)

  unfoldable pub apply_patch_exact : String → String → Steps (Unit {0})
  apply_patch_exact workspace diff =
      finally (apply_patch (path workspace "patch.diff") diff)
        (remove_patch (path workspace "patch.diff"))

  abbrev pub docker_answer : Launch → Steps (Unit {0})
  docker_answer (exited code stderr) = choose (is_zero_exit (some code)) (finish tt) (
      throw (
        error ErrorKind.docker_unavailable
          (concat ("Docker daemon not running: " ∷ strip stderr ∷ []))))
  docker_answer (not_found m) =
      throw (error ErrorKind.docker_unavailable "Docker executable not found on host PATH")
  docker_answer (expired m) =
      throw (error ErrorKind.docker_unavailable "Docker daemon connection timed out")
  docker_answer (broken m) =
      throw (error ErrorKind.docker_unavailable (concat ("Docker connection error: " ∷ m ∷ [])))

  unfoldable pub verify_docker_available : Steps (Unit {0})
  verify_docker_available = do launch ← run_command ("docker" ∷ "info" ∷ []); docker_answer launch

  -- `tempfile.mkdtemp`
  unfoldable pub make_workspace : Steps String
  make_workspace n = workspace_of (host.mkdtemp n) n

  abbrev pub read_clock : Steps ℕ
  read_clock = ask (λ n. returned (host.perf_counter n))

  module _ (self : DockerSandboxRunner) where
    -- after `communicate`; on a timeout the client of the container is killed
    abbrev pub container_result : Thousandths → ℕ → Communication → Steps ValidationExecutionResult
    container_result timeout start (finished code stdout stderr) = do
      t ← read_clock
      finish (record {
        exit_code = some code;
        stdout = truncate_output self.max_output_chars stdout;
        stderr = truncate_output self.max_output_chars stderr;
        duration_ms = t - start;
        timed_out = false;
      })
    container_result timeout start out_of_time = do
      call client_killed (λ n. returned tt)
      t ← read_clock
      u ← read_clock
      finish (record {
        exit_code = none;
        stdout = "";
        stderr = concat ("Execution timed out after " ∷ host.format_float timeout ∷ "s" ∷ []);
        duration_ms = u - start;
        timed_out = true;
      })
    container_result timeout start (broken_off m) = throw (error ErrorKind.unexpected m)

    unfoldable pub execute_container :
        String → List String → Thousandths → Steps ValidationExecutionResult
    execute_container workspace cmd_args timeout = do
      start ← read_clock
      let argv = docker_command host self workspace cmd_args
      call (container_started argv) (host.start argv)
      c ← ask (λ n. returned (host.communicate timeout n))
      container_result timeout start c

    -- the `try` block of `run_validation`
    unfoldable pub validate_in :
        String → String → String → ValidationCommand → Thousandths → Steps ValidationExecutionResult
    validate_in workspace source diff command timeout = do
      materialize_workspace source workspace
      choose (is_blank (strip diff)) (finish tt) (apply_patch_exact workspace diff)
      verify_docker_available
      execute_container workspace (command_invocation command) timeout

    unfoldable pub run_validation :
        String → String → ValidationCommand → Option Thousandths → Steps ValidationExecutionResult
    run_validation source diff command timeout_seconds = do
      workspace ← make_workspace
      finally
          (validate_in workspace source diff command
            (number_or timeout_seconds self.timeout_seconds))
          (call (workspace_destroyed workspace) (λ n. returned tt))

    -- the runner that ValidationService is given
    unfoldable pub docker_sandbox : SandboxRunner
    docker_sandbox = record {
      run_validation = λ source diff command n.
          elim (run_validation source diff command none n).outcome [
            | returned r ↦ ok r
            | raised e ↦ err e
          ];
    }
