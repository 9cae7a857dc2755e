-- ===== src/Sandbox/Preparation.antt =====
-- The steps before the container: the workspace, the patch, and the question to Docker.
use akesis.Common.{
  String, refl, inl, inr, Option, List, [], ◌∷◌, ◌++◌, nat_eq, string_eq, Bool-cases, All, is_blank,
  strip, All-append,
}
use akesis.Domain.{is_zero_exit}
use akesis.Runtime.{Error}
use akesis.Calls.{Outcome, choose, finish, throw}
use akesis.Calls.Post.{
  Ensures, Emits, bind-Ensures, finally-Ensures, bind-Emits, emitting, bind-answered, call-Emits,
  Ensures-imp,
}
use akesis.Sandbox.System.{
  Host, HostEvent, command_ended, Launch, exited, not_found, expired, broken, patch_written,
}
use akesis.Sandbox.Runner.{
  Steps, materialize, copy_items, copy_item, run_checked, check_exit, accept_exit, apply_patch,
  remove_patch, docker_answer, path, materialize_workspace, apply_patch_exact,
  verify_docker_available, run_accepted,
}
use akesis.Sandbox.Contained.{
  IsHostStep, Any-left, Any-right, Returns, Accepts, Any, IsApplied, IsSuccess,
}

abbrev OnHost : {A : Type 0} → Steps A → Type 0
OnHost m = Emits IsHostStep m

check_exit-OnHost :
    (host : Host) (argv : List String) (l : Launch) → OnHost (check_exit host argv l)
check_exit-OnHost host argv (exited code m) = search emitting
check_exit-OnHost host argv (not_found m) = search emitting
check_exit-OnHost host argv (expired m) = search emitting
check_exit-OnHost host argv (broken m) = search emitting

docker_answer-OnHost : (host : Host) (l : Launch) → OnHost (docker_answer host l)
docker_answer-OnHost host (exited code m) = search emitting
docker_answer-OnHost host (not_found m) = search emitting
docker_answer-OnHost host (expired m) = search emitting
docker_answer-OnHost host (broken m) = search emitting

module _ (host : Host) where
  run_checked-OnHost : (argv : List String) → OnHost (run_checked host argv)
  run_checked-OnHost argv = search (emitting, check_exit-OnHost)

  copy_item-OnHost : (source target item : String) → OnHost (copy_item host source target item)
  copy_item-OnHost source target item = search emitting

  copy_items-OnHost :
      (source target : String) (items : List String) → OnHost (copy_items host source target items)
  unfolding copy_items
  copy_items-OnHost source target [] = search emitting
  copy_items-OnHost source target (item ∷ items) =
      bind-Emits IsHostStep _ _ (copy_item-OnHost source target item)
        (λ a. copy_items-OnHost source target items)

  materialize-OnHost : (source target : String) → OnHost (materialize host source target)
  unfolding materialize
  materialize-OnHost source target =
      search (emitting, copy_items-OnHost, run_checked-OnHost) depth 12

  pub materialize_workspace-OnHost :
      (source target : String) → OnHost (materialize_workspace host source target)
  unfolding materialize_workspace
  materialize_workspace-OnHost source target = search (emitting, materialize-OnHost)

  pub verify_docker_available-OnHost : OnHost (verify_docker_available host)
  unfolding verify_docker_available
  verify_docker_available-OnHost = search (emitting, docker_answer-OnHost)

  -- `git apply` in a file: a return means that it accepted the patch
  abbrev Applies : String → Outcome Error (Unit {0}) → List HostEvent → Type 0
  Applies file o vs = All IsHostStep vs × (Returns o → Accepts file vs)

  abbrev IsSound : List String → Outcome Error (Unit {0}) → List HostEvent → Type 0
  IsSound argv o vs = All IsHostStep vs × (Returns o → Any (IsSuccess argv) vs)

  accept_exit-Returns :
      (argv : List String) (refusal : String) (l : Launch)
      → Ensures (λ o vs. IsSound argv o (command_ended argv l ∷ vs)) (accept_exit host refusal l)
  unfolding choose finish throw
  accept_exit-Returns argv refusal (exited code m) =
      elim (Bool-cases (is_zero_exit (Option.some code))) [
        | inl e ↦ record { ensures = λ n. rw e ((tt, tt), λ h. inl (refl, refl)) }
        | inr e ↦ record { ensures = λ n. rw e ((tt, tt), λ h. elim h [ ]) }
      ]
  accept_exit-Returns argv refusal (not_found m) = record {
    ensures = λ n. ((tt, tt), λ h. elim h [ ]);
  }
  accept_exit-Returns argv refusal (expired m) = record {
    ensures = λ n. ((tt, tt), λ h. elim h [ ]);
  }
  accept_exit-Returns argv refusal (broken m) = record {
    ensures = λ n. ((tt, tt), λ h. elim h [ ]);
  }

  run_accepted-IsSound :
      (argv : List String) (refusal : String)
      → Ensures (IsSound argv) (run_accepted host argv refusal)
  run_accepted-IsSound argv refusal =
      bind-answered (IsSound argv) (command_ended argv) (host.run argv) (accept_exit host refusal)
        (accept_exit-Returns argv refusal)

  apply_patch-Applies : (file diff : String) → Ensures (Applies file) (apply_patch host file diff)
  unfolding apply_patch
  apply_patch-Applies file diff =
      bind-Ensures (λ o vs. All IsHostStep vs) (Applies file) _ _
        (call-Emits IsHostStep (patch_written file) _ tt).emits
        (λ a vs hv.
          bind-Ensures (IsSound ("git" ∷ "apply" ∷ "--check" ∷ file ∷ []))
            (λ o ws. Applies file o (vs ++ ws)) _ _ (run_accepted-IsSound _ _)
            (λ a ws hw.
              Ensures-imp (IsSound ("git" ∷ "apply" ∷ file ∷ []))
                (λ o us. Applies file o (vs ++ (ws ++ us))) _ (run_accepted-IsSound _ _)
                (λ o us hu. (
                  All-append IsHostStep vs (ws ++ us) hv (All-append IsHostStep ws us hw.0 hu.0),
                  λ done. (
                    Any-right _ vs (ws ++ us) (Any-left _ ws us (hw.1 tt)),
                    Any-right _ vs (ws ++ us) (Any-right _ ws us (hu.1 done)),
                  ),
                )))
            (λ e ws hw. (All-append IsHostStep vs ws hv hw.0, λ h. elim h [ ])))
        (λ e vs hv. (hv, λ h. elim h [ ]))

  remove_patch-OnHost : (file : String) → OnHost (remove_patch host file)
  unfolding remove_patch
  remove_patch-OnHost file = search emitting

  apply_patch_exact-Applies :
      (dir diff : String)
      → Ensures (Applies (path dir "patch.diff")) (apply_patch_exact host dir diff)
  unfolding apply_patch_exact
  apply_patch_exact-Applies dir diff =
      finally-Ensures (Applies (path dir "patch.diff")) (Applies (path dir "patch.diff"))
        (λ o vs. All IsHostStep vs) _ _ (apply_patch-Applies (path dir "patch.diff") diff)
        (remove_patch-OnHost (path dir "patch.diff")).emits
        (λ o vs ws hv hw. (
          All-append IsHostStep vs ws hv.0 hw,
          λ done. (Any-left _ vs ws (hv.1 done).0, Any-left _ vs ws (hv.1 done).1),
        ))
        (λ o e vs ws hv hw. (All-append IsHostStep vs ws hv.0 hw, λ h. elim h [ ]))

  pub optional_patch-IsApplied :
      (dir diff : String)
      → Ensures
          (λ o vs. All IsHostStep vs × (Returns o → IsApplied dir diff vs))
          (choose (is_blank (strip diff)) (finish tt) (apply_patch_exact host dir diff))
  unfolding choose finish
  optional_patch-IsApplied dir diff = elim (Bool-cases (is_blank (strip diff))) [
    | inl e ↦ record { ensures = λ n. rw e (tt, λ h. inl refl) }
    | inr e ↦ rw e (record {
      ensures = λ n.
          let h = (apply_patch_exact-Applies dir diff).ensures n in (h.0, λ done. inr (h.1 done));
    })
  ]
