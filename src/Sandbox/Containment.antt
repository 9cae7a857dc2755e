-- ===== src/Sandbox/Containment.antt =====
-- What a sandbox run does to its host, whatever the host answers.
use akesis.Common.{
  ℕ, String, ◌≡◌, refl, sym, ap, ◌∙◌, inl, inr, Option, List, [], ◌∷◌, ◌++◌, nat_eq, string_eq, All,
  list_append_assoc, All-append,
}
use akesis.Domain.{ValidationCommand}
use akesis.Runtime.{Error}
use akesis.Validation.{ValidationExecutionResult}
use akesis.Calls.{Outcome, returned, raised, call}
use akesis.Calls.Post.{
  Ensures, Emits, bind-Ensures, finally-Ensures, emitting, Ensures-imp, bind-ask, bind-call,
}
use akesis.Sandbox.System.{
  Host, HostEvent, workspace_created, workspace_destroyed, container_started, Communication,
  finished, broken_off,
}
use akesis.Sandbox.Runner.{
  DockerSandboxRunner, docker_command, command_invocation, execute_container, validate_in,
  container_result, make_workspace, run_validation, number_or, workspace_of,
}
use akesis.Config.{Thousandths}
use akesis.Sandbox.Contained.{
  IsIsolated, IsApplied, IsHostStep, IsKill, RunsOnce, Any-left, Any-right, IsContained, IsIsolated,
  Returns,
}
use akesis.Sandbox.Preparation.{
  materialize_workspace-OnHost, optional_patch-IsApplied, verify_docker_available-OnHost,
}

prepend-RunsOnce :
    (C D : List HostEvent → Type 0) (argv : List String) (vs : List HostEvent)
    (o : Outcome Error ValidationExecutionResult) (ws : List HostEvent)
    → All IsHostStep vs
    → ((s : List HostEvent) → C s → D (vs ++ s))
    → RunsOnce C argv o ws
    → RunsOnce D argv o (vs ++ ws)
prepend-RunsOnce C D argv vs o ws h k (inl (f, hw)) = inl (f, All-append IsHostStep vs ws h hw)
prepend-RunsOnce C D argv vs o ws h k (inr (setup, rest, e, hs, c, hr)) = inr (
  vs ++ setup,
  rest,
  ap (λ t. vs ++ t) e ∙ sym (list_append_assoc vs setup (container_started argv ∷ rest)),
  All-append IsHostStep vs setup h hs,
  k setup c,
  hr,
)

IsApplied-left :
    (dir diff : String) (vs ws : List HostEvent)
    → IsApplied dir diff vs
    → IsApplied dir diff (vs ++ ws)
IsApplied-left dir diff vs ws (inl h) = inl h
IsApplied-left dir diff vs ws (inr h) = inr (Any-left _ vs ws h.0, Any-left _ vs ws h.1)

IsApplied-right :
    (dir diff : String) (vs ws : List HostEvent)
    → IsApplied dir diff ws
    → IsApplied dir diff (vs ++ ws)
IsApplied-right dir diff vs ws (inl h) = inl h
IsApplied-right dir diff vs ws (inr h) = inr (Any-right _ vs ws h.0, Any-right _ vs ws h.1)

module _ (host : Host) (self : DockerSandboxRunner) where
  container_result-IsKill :
      (timeout : Thousandths) (start : ℕ) (c : Communication)
      → Emits IsKill (container_result host self timeout start c)
  container_result-IsKill timeout start (finished code stdout stderr) = search emitting
  container_result-IsKill timeout start Communication.out_of_time = search emitting
  container_result-IsKill timeout start (broken_off m) = search emitting

  execute_container-RunsOnce :
      (dir : String) (cmd_args : List String) (timeout : Thousandths)
      → Ensures
          (RunsOnce (λ _. Unit) (docker_command host self dir cmd_args))
          (execute_container host self dir cmd_args timeout)
  unfolding execute_container
  execute_container-RunsOnce dir cmd_args timeout =
      let argv = docker_command host self dir cmd_args in
      bind-ask (RunsOnce (λ _. Unit) argv) host.perf_counter _ (λ start.
        bind-call (RunsOnce (λ _. Unit) argv) (container_started argv) _ (host.start argv)
          (λ _.
            bind-ask (λ o ws. RunsOnce (λ _. Unit) argv o (container_started argv ∷ ws))
              (host.communicate timeout) _
              (λ c.
                Ensures-imp (λ o vs. All IsKill vs)
                  (λ o ws. RunsOnce (λ _. Unit) argv o (container_started argv ∷ ws)) _
                  (container_result-IsKill timeout start c).emits
                  (λ o vs hv. inr ([], vs, refl, tt, tt, hv))))
          (λ e. inr ([], [], refl, tt, tt, tt)))

  validate_in-RunsOnce :
      (dir source diff : String) (command : ValidationCommand) (timeout : Thousandths)
      → Ensures
          (RunsOnce
            (IsApplied dir diff)
            (docker_command host self dir (command_invocation command)))
          (validate_in host self dir source diff command timeout)
  unfolding validate_in
  validate_in-RunsOnce dir source diff command timeout =
      let argv = docker_command host self dir (command_invocation command) in
      let C : List HostEvent → Type 0 = λ vs. IsApplied dir diff vs in
      let D : List HostEvent → Type 0 = λ vs. Unit in
      bind-Ensures (λ o vs. All IsHostStep vs) (RunsOnce C argv) _ _
        (materialize_workspace-OnHost host source dir).emits
        (λ _ vs hv.
          bind-Ensures (λ o ws. All IsHostStep ws × (Returns o → C ws))
            (λ o ws. RunsOnce C argv o (vs ++ ws)) _ _ (optional_patch-IsApplied host dir diff)
            (λ _ ws hw.
              bind-Ensures (λ o us. All IsHostStep us)
                (λ o us. RunsOnce C argv o (vs ++ (ws ++ us))) _ _
                (verify_docker_available-OnHost host).emits
                (λ _ us hu.
                  Ensures-imp (RunsOnce D argv)
                    (λ o ts. RunsOnce C argv o (vs ++ (ws ++ (us ++ ts)))) _
                    (execute_container-RunsOnce dir (command_invocation command) timeout)
                    (λ o ts h.
                      prepend-RunsOnce C C argv vs o (ws ++ (us ++ ts)) hv
                        (λ t. IsApplied-right dir diff vs t)
                        (prepend-RunsOnce D C argv ws o (us ++ ts) hw.0
                          (λ t _. IsApplied-left dir diff ws t (hw.1 tt))
                          (prepend-RunsOnce D D argv us o ts hu (λ t d. d) h))))
                (λ e us hu. inl (
                  tt,
                  All-append IsHostStep vs (ws ++ us) hv (All-append IsHostStep ws us hw.0 hu),
                )))
            (λ e ws hw. inl (tt, All-append IsHostStep vs ws hv hw.0)))
        (λ e vs hv. inl (tt, hv))

  abbrev Makes : Outcome Error String → List HostEvent → Type 0
  Makes (returned dir) vs = vs ≡ workspace_created dir ∷ []
  Makes (raised e) vs = vs ≡ []

  workspace_of-Makes :
      (o : Outcome Error String) (n : ℕ) → let r = workspace_of o n in Makes r.outcome r.events
  workspace_of-Makes (returned dir) n = refl
  workspace_of-Makes (raised e) n = refl

  make_workspace-Makes : Ensures Makes (make_workspace host)
  unfolding make_workspace
  make_workspace-Makes = record { ensures = λ n. workspace_of-Makes (host.mkdtemp n) n }

  abbrev Destroys : String → Outcome Error (Unit {0}) → List HostEvent → Type 0
  Destroys dir (returned u) vs = vs ≡ workspace_destroyed dir ∷ []
  Destroys dir (raised e) vs = ⊥

  destroy-Destroys :
      (dir : String) → Ensures (Destroys dir) (call (workspace_destroyed dir) (λ n. returned tt))
  unfolding call
  destroy-Destroys dir = record { ensures = λ n. refl }

  docker_command-IsIsolated :
      (dir : String) (cmd_args : List String) → IsIsolated (docker_command host self dir cmd_args)
  unfolding docker_command
  docker_command-IsIsolated dir cmd_args = (refl, refl, refl, refl, refl)

  -- Whatever the host answers, `run_validation` made no workspace and fails, or made one that it
  -- destroyed at the very end, whether it returns or fails. In between at most one container was
  -- started, by the command line of the validation command over that workspace, whose flags leave
  -- it no network, no capabilities, no new privileges and no root, and only after `git apply
  -- --check` and `git apply` accepted the patch there, unless it is blank; after the container
  -- starts nothing runs on the host but the end of its client. Where no container was started, it
  -- fails.
  pub run_validation-IsContained :
      (source diff : String) (command : ValidationCommand) (timeout : Option Thousandths)
      → Ensures
          (IsContained host self diff command)
          (run_validation host self source diff command timeout)
  unfolding run_validation
  run_validation-IsContained source diff command timeout =
      let P = IsContained host self diff command in
      bind-Ensures Makes P _ _ make_workspace-Makes
        (λ dir vs e.
          let argv = docker_command host self dir (command_invocation command) in
          let R : Outcome Error ValidationExecutionResult → List HostEvent → Type 0 =
            RunsOnce (IsApplied dir diff) argv in
          finally-Ensures R (λ o ws. P o (vs ++ ws)) (Destroys dir) _ _
            (validate_in-RunsOnce dir source diff command (number_or timeout self.timeout_seconds))
            (destroy-Destroys dir)
            (λ o body ws h d. inr (
              dir,
              body,
              rw (e, d) refl,
              docker_command-IsIsolated dir (command_invocation command),
              h,
            ))
            (λ o x body ws h d. elim d [ ]))
        (λ x vs e. inl (tt, e))
