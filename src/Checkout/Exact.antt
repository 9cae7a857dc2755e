-- ===== src/Checkout/Exact.antt =====
-- A checkout gives the commit that was asked for, or an error of the module.
use akesis.Common.{
  String, ◌≡◌, refl, sym, ap, ◌∙◌, ◌⊎◌, inl, inr, Bool, true, ◌&&◌, Option, List, [], ◌∷◌, ◌++◌,
  map, nat_eq, string_eq, leb, codes, lower, starts, All, list_append_assoc, All-append,
}
use akesis.Calls.{Outcome, returned, raised, ◌>>=◌, throw}
use akesis.Calls.Post.{
  Emits, emitting, Ensures, bind-Ensures, bind-call, Ensures-imp, bind-answered, throw-Ensures,
  bind-throw, choose-Ensures, bind-finish, rescue-Ensures, finish-Ensures,
}
use akesis.Config.{Settings}
use akesis.Checkout.{
  Git, GitEvent, directory_made, cloned, fetched, checked_out, head_read, detached_read, Exception,
  invalid_commit, repository_checkout, git_command, bad_name, value_error, unexpected, Steps,
  repo_dir, is_identifier, is_commit_sha, is_name_char, is_hex, not_known, checkout_exact,
  fetch_all, fetch_missing, has_commit, open_or_clone, checkout_commit, matches, obtain, remote_url,
  settle, translate, check_detached, check_head,
}
use akesis.Checkout.Names.{IsSpelled, is_identifier-IsSpelled, is_commit_sha-IsSpelled}

-- A step before the checkout: it touches this directory only, and only this remote.
abbrev pub IsPreparation : String → String → String → GitEvent → Type 0
IsPreparation base dir url (directory_made d) = d ≡ base
IsPreparation base dir url (cloned u d) = (u ≡ url) × (d ≡ dir)
IsPreparation base dir url (fetched d u sha) = (d ≡ dir) × (u ≡ url)
IsPreparation base dir url v = ⊥

-- The directory, whose HEAD was read to be the commit, detached, directly after the only checkout.
abbrev pub Obtains :
    String → String → String → String → Outcome Exception String → List GitEvent → Type 0
Obtains base dir url sha (raised e) vs = Unit
Obtains base dir url sha (returned d) vs =
    (d ≡ dir)
    × (before : List GitEvent) × (head : String) × (vs
        ≡ before
          ++ (checked_out dir sha
              ∷ head_read dir (returned head)
              ∷ detached_read dir (returned true)
              ∷ []))
    × All (IsPreparation base dir url) before
    × (starts (map lower (codes head)) (map lower (codes sha)) ≡ true)

abbrev pub IsCheckoutError : Outcome Exception String → Type 0
IsCheckoutError (returned d) = Unit
IsCheckoutError (raised (invalid_commit m)) = Unit
IsCheckoutError (raised (repository_checkout m)) = Unit
IsCheckoutError (raised e) = ⊥

-- Every error is one of the module's; nothing is called for a name that is not spelled as a name.
abbrev pub IsExact :
    String → String → String → String → String → Outcome Exception String → List GitEvent → Type 0
IsExact base url owner name sha o vs =
    IsCheckoutError o
    × ((vs ≡ [])
        ⊎ (IsSpelled is_name_char (leb 1) owner
            × IsSpelled is_name_char (leb 1) name
            × IsSpelled is_hex (λ n. leb 7 n && leb n 40) sha))
    × Obtains base (repo_dir base owner name) url sha o vs

module _ (settings : Settings) (git : Git) (base dir url sha : String) where
  abbrev Prepares : {A : Type 0} → Steps A → Type 0
  Prepares m = Emits (IsPreparation base dir url) m

  not_known-Prepares : (e : Exception) → Prepares (not_known settings git base e)
  not_known-Prepares (bad_name m) = search emitting
  not_known-Prepares (git_command m) = search emitting
  not_known-Prepares (value_error m) = search emitting
  not_known-Prepares (invalid_commit m) = search emitting
  not_known-Prepares (repository_checkout m) = search emitting
  not_known-Prepares (unexpected m) = search emitting

  has_commit-Prepares : Prepares (has_commit settings git base dir sha)
  unfolding has_commit
  has_commit-Prepares = search (emitting, not_known-Prepares)

  fetch_all-Prepares : (e : Exception) → Prepares (fetch_all settings git base dir url e)
  fetch_all-Prepares (git_command m) = search emitting
  fetch_all-Prepares (bad_name m) = search emitting
  fetch_all-Prepares (value_error m) = search emitting
  fetch_all-Prepares (invalid_commit m) = search emitting
  fetch_all-Prepares (repository_checkout m) = search emitting
  fetch_all-Prepares (unexpected m) = search emitting

  fetch_missing-Prepares :
      (present : Bool) → Prepares (fetch_missing settings git base dir url sha present)
  unfolding fetch_missing
  fetch_missing-Prepares present = search (emitting, fetch_all-Prepares)

  open_or_clone-Prepares : Prepares (open_or_clone settings git base dir url)
  unfolding open_or_clone
  open_or_clone-Prepares = search emitting

  prepend-Obtains :
      (vs : List GitEvent) (o : Outcome Exception String) (ws : List GitEvent)
      → All (IsPreparation base dir url) vs
      → Obtains base dir url sha o ws
      → Obtains base dir url sha o (vs ++ ws)
  prepend-Obtains vs (raised e) ws hv h = tt
  prepend-Obtains vs (returned d) ws hv (e, before, head, events, hb, m) = (
    e,
    vs ++ before,
    head,
    ap (λ t. vs ++ t) events
        ∙ sym (
            list_append_assoc vs before (
              checked_out dir sha
              ∷ head_read dir (returned head)
              ∷ detached_read dir (returned true)
              ∷ [])),
    All-append (IsPreparation base dir url) vs before hv hb,
    m,
  )

  prepare-then :
      {A : Type 0} (m : Steps A) (k : A → Steps String)
      → Prepares m
      → ((a : A) → Ensures (Obtains base dir url sha) (k a))
      → Ensures (Obtains base dir url sha) (m >>= k)
  prepare-then m k h f =
      bind-Ensures (λ o vs. All (IsPreparation base dir url) vs) (Obtains base dir url sha) k m
        h.emits
        (λ a vs hv.
          Ensures-imp (Obtains base dir url sha) (λ o ws. Obtains base dir url sha o (vs ++ ws))
            (k a) (f a) (λ o ws. prepend-Obtains vs o ws hv))
        (λ e vs hv. tt)

  abbrev Obtained : List GitEvent → Outcome Exception String → List GitEvent → Type 0
  Obtained vs o ws = Obtains base dir url sha o (vs ++ ws)

  after_detached :
      (head : String)
      → matches head sha ≡ true
      → (answer : Outcome Exception Bool)
      → Ensures
          (Obtained
            (checked_out dir sha ∷ head_read dir (returned head) ∷ detached_read dir answer ∷ []))
          (settle answer >>= check_detached settings git base dir sha)
  after_detached head m (raised e) = bind-throw _ _ e tt
  after_detached head m (returned detached) = bind-finish _ _ detached (
      choose-Ensures _ detached _ _ (λ d. finish-Ensures _ dir (refl, [], head, rw d refl, tt, m))
        (λ d. throw-Ensures _ _ tt))

  after_head :
      (answer : Outcome Exception String)
      → Ensures
          (Obtained (checked_out dir sha ∷ head_read dir answer ∷ []))
          (settle answer >>= check_head settings git base dir sha)
  after_head (raised e) = bind-throw _ _ e tt
  after_head (returned head) =
      let vs = checked_out dir sha ∷ head_read dir (returned head) ∷ [] in
      bind-finish _ _ head (
        choose-Ensures _ (matches head sha) _ _
          (λ m.
            bind-answered (Obtained vs) (detached_read dir) (git.is_detached dir) _
              (λ answer. after_detached head m answer))
          (λ m. throw-Ensures _ _ tt))

  checkout_exact-Obtains :
      Ensures (Obtains base dir url sha) (checkout_exact settings git base dir sha)
  unfolding checkout_exact
  checkout_exact-Obtains =
      let O = Obtains base dir url sha in
      let c = checked_out dir sha in
      bind-call O c _ (git.checkout dir sha)
        (λ _.
          bind-answered (λ o ws. O o (c ∷ ws)) (head_read dir) (git.head_hexsha dir) _
            (λ answer. after_head answer))
        (λ e. tt)

module _ (settings : Settings) (git : Git) (base owner name sha : String)
    (clone_url : Option String) where
  abbrev url : String
  url = remote_url settings owner name clone_url

  abbrev dir : String
  dir = repo_dir base owner name

  obtain-Obtains :
      Ensures (Obtains base dir url sha) (obtain settings git base owner name sha clone_url)
  unfolding obtain
  obtain-Obtains =
      prepare-then settings git base dir url sha _ _
        (open_or_clone-Prepares settings git base dir url sha)
        (λ _.
          prepare-then settings git base dir url sha _ _
            (has_commit-Prepares settings git base dir url sha)
            (λ present.
              prepare-then settings git base dir url sha _ _
                (fetch_missing-Prepares settings git base dir url sha present)
                (λ _.
                  prepare-then settings git base dir url sha _ _
                    (has_commit-Prepares settings git base dir url sha)
                    (λ found.
                      prepare-then settings git base dir url sha _ _ (search emitting)
                        (λ _. checkout_exact-Obtains settings git base dir url sha)))))

  translate-Ensures :
      (e : Exception) (vs : List GitEvent)
      → Ensures
          (λ o ws. IsCheckoutError o × Obtains base dir url sha o (vs ++ ws))
          (translate settings git base owner name sha e)
  translate-Ensures (invalid_commit m) vs = throw-Ensures _ _ (tt, tt)
  translate-Ensures (git_command m) vs = throw-Ensures _ _ (tt, tt)
  translate-Ensures (bad_name m) vs = throw-Ensures _ _ (tt, tt)
  translate-Ensures (value_error m) vs = throw-Ensures _ _ (tt, tt)
  translate-Ensures (repository_checkout m) vs = throw-Ensures _ _ (tt, tt)
  translate-Ensures (unexpected m) vs = throw-Ensures _ _ (tt, tt)

  -- Whatever git answers, `checkout_commit` raises errors of its module only; unless owner, name and
  -- commit are spelled as the patterns say (a line feed at the end may follow), it changes and reads
  -- no repository; and where it returns, it returns the directory of owner and name, in which the
  -- last three of its recorded calls were the only checkout, of the commit, a reading of HEAD that
  -- begins with the commit, letters of either case being the same, and a reading that HEAD is
  -- detached; before, it made at most the base directory, and cloned and fetched into that directory
  -- from the remote address only.
  pub checkout_commit-IsExact :
      Ensures
        (IsExact base url owner name sha)
        (checkout_commit settings git base owner name sha clone_url)
  unfolding checkout_commit
  checkout_commit-IsExact =
      let refused : (e : Exception)
          → IsCheckoutError (raised e)
          → Ensures (IsExact base url owner name sha) (throw e) =
        λ e h. throw-Ensures (IsExact base url owner name sha) e (h, inl refl, tt) in
      choose-Ensures _ (is_identifier owner) _ _
        (λ o.
          choose-Ensures _ (is_identifier name) _ _
            (λ n.
              choose-Ensures _ (is_commit_sha sha) _ _
                (λ s.
                  let spelled : IsSpelled is_name_char (leb 1) owner
                      × IsSpelled is_name_char (leb 1) name
                      × IsSpelled is_hex (λ n. leb 7 n && leb n 40) sha =
                    (
                      is_identifier-IsSpelled owner o,
                      is_identifier-IsSpelled name n,
                      is_commit_sha-IsSpelled sha s,
                    ) in
                  rescue-Ensures (Obtains base dir url sha) (IsExact base url owner name sha) _ _
                    obtain-Obtains (λ d vs h. (tt, inr spelled, h))
                    (λ e vs h.
                      Ensures-imp _ (λ o ws. IsExact base url owner name sha o (vs ++ ws)) _
                        (translate-Ensures e vs) (λ o ws g. (g.0, inr spelled, g.1))))
                (λ s. refused _ tt))
            (λ n. refused _ tt))
        (λ o. refused _ tt)
