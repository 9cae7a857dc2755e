-- ===== src/Gemini/Acyclic.antt =====
-- Where no definition refers to itself, a depth above the ranks of the definitions is enough.
use akesis.Common.{
  ℕ, zero, suc, ◌≤◌, ◌<◌, String, ◌≡◌, refl, ap, ◌∙◌, inl, inr, Option, none, some, arith, ◌==◌,
  nat_eq, string_eq, Bool-cases, Option-cases,
}
use mathlib.Core.Option
use akesis.Http.{
  JsonValue, json_null, json_bool, json_number, json_string, json_array, json_object, JsonItems,
  no_items, item, JsonFields, no_fields, field, get_field,
}
use akesis.Gemini.Schema.{
  set_fields, ref_key, resolve_value, resolve_items, resolve_fields, resolve_others, resolve,
  target, inline, dereference_json_schema, definitions, without_field,
}

module _ (render : JsonValue → String) (defs : JsonFields) (rank : String → ℕ) where
  -- Every reference to a definition, at any depth, is to one of a rank below.
  unfoldable mutual
    pub IsBelow : ℕ → JsonValue → Type 0
    IsBelow r (json_object fs) =
        ((k : String) (d : JsonValue)
          → ref_key render fs ≡ some k
          → get_field k defs ≡ some d
          → rank k < r)
        × AreFieldsBelow r fs
    IsBelow r (json_array xs) = AreItemsBelow r xs
    IsBelow r json_null = Unit
    IsBelow r (json_bool b) = Unit
    IsBelow r (json_number n) = Unit
    IsBelow r (json_string s) = Unit

    pub AreItemsBelow : ℕ → JsonItems → Type 0
    AreItemsBelow r no_items = Unit
    AreItemsBelow r (item x xs) = IsBelow r x × AreItemsBelow r xs

    pub AreFieldsBelow : ℕ → JsonFields → Type 0
    AreFieldsBelow r no_fields = Unit
    AreFieldsBelow r (field k x fs) = IsBelow r x × AreFieldsBelow r fs

  -- Each definition is a dictionary that refers only to definitions of a lower rank.
  abbrev pub IsAcyclic : Type 0
  IsAcyclic =
      (k : String) (d : JsonValue)
      → get_field k defs ≡ some d
      → (fs : JsonFields) × (d ≡ json_object fs) × IsBelow (rank k) (json_object fs)

  abbrev Follow : Type 0
  Follow = String → Option (Option JsonValue)

  -- what resolving keeps: a dictionary stays one
  abbrev Keeps : JsonValue → JsonValue → Type 0
  Keeps (json_object fs) w = (gs : JsonFields) × (w ≡ json_object gs)
  Keeps v w = Unit

  -- a way to follow references that serves below a rank
  record Serves (follow : Follow) (r : ℕ) : Type 0 where
    known :
        (k : String) (d : JsonValue)
        → get_field k defs ≡ some d
        → rank k < r
        → (gs : JsonFields) × (follow k ≡ some (some (json_object gs)))
    unknown : (k : String) → get_field k defs ≡ none → follow k ≡ none

  module _ (follow : Follow) (r : ℕ) (serves : Serves follow r) where
    inline-object :
        (fs gs os : JsonFields)
        → ((k : String) (d : JsonValue)
            → ref_key render fs ≡ some k
            → get_field k defs ≡ some d
            → rank k < r)
        → (ws : JsonFields) × (inline render
              (target render follow (ref_key render fs))
              (some gs)
              (some os)
            ≡ some (json_object ws))
    inline-object fs gs os h = elim (Option-cases (ref_key render fs)) [
      | inl e ↦ (gs, rw e refl)
      | inr (k, e) ↦ elim (Option-cases (get_field k defs)) [
        | inl n ↦ (gs, rw (e, serves.unknown k n) refl)
        | inr (d, n) ↦
            let (ws, f) = serves.known k d n (h k d e n) in (set_fields ws os, rw (e, f) refl)
      ]
    ]

    mutual
      unfolding resolve_value resolve_items resolve_fields resolve_others IsBelow AreItemsBelow
          AreFieldsBelow

      value-total :
          (v : JsonValue)
          → IsBelow r v
          → (w : JsonValue) × (resolve_value render follow v ≡ some w) × Keeps v w
      value-total (json_object fs) (h, b) =
          let (gs, e) = fields-total fs b in
          let (os, f) = others-total fs b in
          let (ws, g) = inline-object fs gs os h in (json_object ws, rw (e, f) g, (ws, refl))
      value-total (json_array xs) b =
          let (ys, e) = items-total xs b in (json_array ys, rw e refl, tt)
      value-total json_null b = (json_null, refl, tt)
      value-total (json_bool c) b = (json_bool c, refl, tt)
      value-total (json_number n) b = (json_number n, refl, tt)
      value-total (json_string s) b = (json_string s, refl, tt)

      items-total :
          (xs : JsonItems)
          → AreItemsBelow r xs
          → (ys : JsonItems) × (resolve_items render follow xs ≡ some ys)
      items-total no_items b = (no_items, refl)
      items-total (item x xs) (h, b) =
          let (y, e, _) = value-total x h in
          let (ys, f) = items-total xs b in (item y ys, rw (e, f) refl)

      fields-total :
          (fs : JsonFields)
          → AreFieldsBelow r fs
          → (gs : JsonFields) × (resolve_fields render follow fs ≡ some gs)
      fields-total no_fields b = (no_fields, refl)
      fields-total (field k x fs) (h, b) =
          let (y, e, _) = value-total x h in
          let (gs, f) = fields-total fs b in (field k y gs, rw (e, f) refl)

      others-total :
          (fs : JsonFields)
          → AreFieldsBelow r fs
          → (gs : JsonFields) × (resolve_others render follow fs ≡ some gs)
      others-total no_fields b = (no_fields, refl)
      others-total (field k x fs) (h, b) =
          let (y, e, _) = value-total x h in
          let (gs, f) = others-total fs b in
          elim (Bool-cases (k == "$ref")) [
            | inl c ↦ (gs, rw (e, c) f)
            | inr c ↦ (field k y gs, rw (e, c, f) refl)
          ]

  resolve-total :
      (depth r : ℕ)
      → IsAcyclic
      → r ≤ depth
      → (v : JsonValue) → IsBelow r v
      → (w : JsonValue) × (resolve render depth defs v ≡ some w) × Keeps v w
  unfolding resolve
  resolve-total zero r a le v b =
      value-total (λ k. Option.map (λ d. none) (get_field k defs)) r
        (record { known = λ k d e l. ground arith; unknown = λ k e. rw e refl }) v b
  resolve-total (suc depth) r a le v b =
      value-total (λ k. Option.map (λ d. resolve render depth defs d) (get_field k defs)) r
        (record {
          known = λ k d e l.
              let (fs, f, g) = a k d e in
              let (w, h, (gs, i)) =
                resolve-total depth (rank k) a (omega arith) (json_object fs) g in
              (
                gs,
                ap (Option.map (λ d. resolve render depth defs d)) e
                    ∙ ap (λ d. some (resolve render depth defs d)) f
                    ∙ ap some h
                    ∙ ap (λ w. some (some w)) i,
              );
          unknown = λ k e. rw e refl;
        })
        v b

-- Where the definitions of a schema are acyclic and the schema refers to those below a rank, a depth
-- of that rank is enough: it is dereferenced, to a dictionary.
pub dereference-total :
    (render : JsonValue → String) (schema : JsonFields) (rank : String → ℕ) (r depth : ℕ)
    → IsAcyclic render (definitions render schema) rank
    → IsBelow render (definitions render schema) rank r (json_object (without_field "$defs" schema))
    → r ≤ depth
    → (gs : JsonFields) × (dereference_json_schema render depth schema ≡ some (json_object gs))
unfolding dereference_json_schema
dereference-total render schema rank r depth a b le =
    let (w, e, (gs, f)) =
      resolve-total render (definitions render schema) rank depth r a le
        (json_object (without_field "$defs" schema)) b in
    (gs, e ∙ ap some f)
