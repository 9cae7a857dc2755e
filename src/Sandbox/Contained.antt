-- ===== src/Sandbox/Contained.antt =====
-- What it means that a sandbox run leaves nothing behind and runs nothing but the isolated container.
use akesis.Common.{
  String, ◌≡◌, ◌⊎◌, inl, inr, Bool, true, false, ◌&&◌, ◌||◌, Option, List, [], ◌∷◌, ◌++◌, ◌==◌,
  nat_eq, string_eq, All, is_blank, strip, take,
}
use akesis.Domain.{ValidationCommand, is_zero_exit}
use akesis.Runtime.{Error}
use akesis.Validation.{ValidationExecutionResult}
use akesis.Calls.{Outcome, returned, raised}
use akesis.Sandbox.System.{
  Host, HostEvent, workspace_created, workspace_destroyed, command_ended, container_started,
  client_killed, Launch, exited,
}
use akesis.Sandbox.Runner.{DockerSandboxRunner, docker_command, command_invocation, path}

-- Some element has a property.
abbrev pub Any : (HostEvent → Type 0) → List HostEvent → Type 0
Any P [] = ⊥
Any P (v ∷ vs) = P v ⊎ Any P vs

pub Any-left : (P : HostEvent → Type 0) (vs ws : List HostEvent) → Any P vs → Any P (vs ++ ws)
Any-left P [] ws h = elim h [ ]
Any-left P (v ∷ vs) ws (inl h) = inl h
Any-left P (v ∷ vs) ws (inr h) = inr (Any-left P vs ws h)

pub Any-right : (P : HostEvent → Type 0) (vs ws : List HostEvent) → Any P ws → Any P (vs ++ ws)
Any-right P [] ws h = h
Any-right P (v ∷ vs) ws h = inr (Any-right P vs ws h)

-- A step before the container: no container, and no other workspace.
abbrev pub IsHostStep : HostEvent → Type 0
IsHostStep (workspace_created dir) = ⊥
IsHostStep (workspace_destroyed dir) = ⊥
IsHostStep (container_started argv) = ⊥
IsHostStep client_killed = ⊥
IsHostStep v = Unit

abbrev pub IsKill : HostEvent → Type 0
IsKill client_killed = Unit
IsKill v = ⊥

abbrev pub IsLaunchOf : List String → Launch → List String → Type 0
IsLaunchOf argv (exited code stderr) expected =
    (argv ≡ expected) × (is_zero_exit (Option.some code) ≡ true)
IsLaunchOf argv launch expected = ⊥

-- A command ended with exit code 0.
abbrev pub IsSuccess : List String → HostEvent → Type 0
IsSuccess expected (command_ended argv launch) = IsLaunchOf argv launch expected
IsSuccess expected v = ⊥

abbrev pub Returns : {A : Type 0} → Outcome Error A → Type 0
Returns (returned a) = Unit
Returns (raised e) = ⊥

abbrev pub Fails : {A : Type 0} → Outcome Error A → Type 0
Fails (returned a) = ⊥
Fails (raised e) = Unit

-- `git apply --check` and `git apply` accepted the patch that stands in this file.
abbrev pub Accepts : String → List HostEvent → Type 0
Accepts file vs =
    Any (IsSuccess ("git" ∷ "apply" ∷ "--check" ∷ file ∷ [])) vs
    × Any (IsSuccess ("git" ∷ "apply" ∷ file ∷ [])) vs

-- The patch is blank, or was applied in the workspace.
abbrev pub IsApplied : String → String → List HostEvent → Type 0
IsApplied dir diff vs = (is_blank (strip diff) ≡ true) ⊎ Accepts (path dir "patch.diff") vs

-- No container was started and nothing is returned; or one was, by this command line, after steps
-- on the host with the property C, and nothing but the end of its client follows.
abbrev pub RunsOnce :
    (List HostEvent → Type 0)
    → List String
    → Outcome Error ValidationExecutionResult
    → List HostEvent
    → Type 0
RunsOnce C argv o vs =
    (Fails o × All IsHostStep vs)
    ⊎ ((setup rest : List HostEvent) × (vs ≡ setup ++ container_started argv ∷ rest)
        × All IsHostStep setup
        × C setup
        × All IsKill rest)

-- two words of a command line, one after the other
abbrev pub has_flag : String → String → List String → Bool
has_flag k v [] = false
has_flag k v (a ∷ []) = false
has_flag k v (a ∷ b ∷ rest) = a == k && b == v || has_flag k v (b ∷ rest)

-- The first eleven words start a container that is removed at its end, and has no network, no
-- capabilities, no new privileges and no root.
abbrev pub IsIsolated : List String → Type 0
IsIsolated argv =
    (take 3 argv ≡ "docker" ∷ "run" ∷ "--rm" ∷ [])
    × (has_flag "--network" "none" (take 11 argv) ≡ true)
    × (has_flag "--cap-drop" "ALL" (take 11 argv) ≡ true)
    × (has_flag "--security-opt" "no-new-privileges" (take 11 argv) ≡ true)
    × (has_flag "--user" "1000:1000" (take 11 argv) ≡ true)

-- No workspace was made; or one was, which was destroyed at the very end, and in between at most
-- one container ran: the isolated command line of the validation command, over that workspace,
-- after the patch was applied there. Without a container nothing is returned.
abbrev pub IsContained :
    Host
    → DockerSandboxRunner
    → String
    → ValidationCommand
    → Outcome Error ValidationExecutionResult
    → List HostEvent
    → Type 0
IsContained host self diff command o vs =
    (Fails o × (vs ≡ []))
    ⊎ ((dir : String) × (body : List HostEvent) × (vs
          ≡ workspace_created dir ∷ (body ++ workspace_destroyed dir ∷ []))
        × IsIsolated (docker_command host self dir (command_invocation command))
        × RunsOnce (IsApplied dir diff) (docker_command host self dir (command_invocation command))
            o body)
