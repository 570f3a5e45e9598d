-- ===== src/Secrets/Whitelist.antt =====
-- What a resolved document may tell of the environment.
use task_scheduler_mcp.Mcp.StatusMapping.{mem_text}
use task_scheduler_mcp.Secrets.Json.{
  Value, Values, Fields, string, array, object, scalar, end, item, empty, field,
}
use Prim.Native.Char.{code}
use task_scheduler_mcp.Secrets.Resolver.{
  as_field, as_item, as_object, substitute, as_array, append, as_text, then_append, resolve_string,
  resolve_from, replace, resolve, resolve_values, resolve_fields,
}
use task_scheduler_mcp.Secrets.Resolver.{Env}
use task_scheduler_mcp.Common.{
  String, ◌≡◌, refl, ap, ◌∙◌, inl, inr, true, ◌&&◌, Option, none, some, List, str_eq, ◌==◌,
  Bool-cases,
}

module _ (env env' : Env) (whitelist : List String)
    (agree : (name : String) → mem_text name whitelist ≡ true → env name ≡ env' name) where
  replace-agree : (name : String) → replace env whitelist name ≡ replace env' whitelist name
  unfolding replace
  replace-agree name = elim (Bool-cases (mem_text name whitelist)) [
    | inl listed ↦ rw listed (agree name listed)
    | inr unlisted ↦ rw unlisted
  ]

  resolve_from-agree :
      (open_name : Option String) (s : String)
      → resolve_from env whitelist open_name s ≡ resolve_from env' whitelist open_name s
  unfolding resolve_from
  resolve_from-agree none String.[] = refl
  resolve_from-agree none (String.◌∷◌ c String.[]) = refl
  resolve_from-agree none (String.◌∷◌ c (String.◌∷◌ d s)) =
      elim (Bool-cases ((code c == 36) && (code d == 123))) [
        | inl opens ↦ rw (resolve_from, opens) (resolve_from-agree (some "") s)
        | inr plain ↦
            rw (resolve_from, plain)
              (ap (then_append (String.◌∷◌ c "")) (resolve_from-agree none (String.◌∷◌ d s)))
      ]
  resolve_from-agree (some name) String.[] = refl
  resolve_from-agree (some name) (String.◌∷◌ c s) = elim (Bool-cases (code c == 125)) [
    | inr inside ↦
        rw (resolve_from, inside) (resolve_from-agree (some (append name (String.◌∷◌ c ""))) s)
    | inl closes ↦ elim (Bool-cases (str_eq name "")) [
      | inl nameless ↦
          rw (resolve_from, closes, nameless) (ap (then_append "${}") (resolve_from-agree none s))
      | inr named ↦
          rw (resolve_from, closes, named)
            (ap (λ o. substitute o (resolve_from env whitelist none s)) (replace-agree name)
              ∙ ap (substitute (replace env' whitelist name)) (resolve_from-agree none s))
    ]
  ]

  mutual
    unfolding resolve resolve_string

    agree-value : (v : Value) → resolve env whitelist v ≡ resolve env' whitelist v
    agree-value (string s) = ap as_text (resolve_from-agree none s)
    agree-value (array vs) = ap as_array (agree-values vs)
    agree-value (object fs) = ap as_object (agree-fields fs)
    agree-value (scalar s) = refl

    agree-values :
        (vs : Values) → resolve_values env whitelist vs ≡ resolve_values env' whitelist vs
    agree-values end = refl
    agree-values (item v vs) =
        ap (λ o. as_item o (resolve_values env whitelist vs)) (agree-value v)
        ∙ ap (as_item (resolve env' whitelist v)) (agree-values vs)

    agree-fields :
        (fs : Fields) → resolve_fields env whitelist fs ≡ resolve_fields env' whitelist fs
    agree-fields empty = refl
    agree-fields (field key v fs) =
        ap (λ o. as_field key o (resolve_fields env whitelist fs)) (agree-value v)
        ∙ ap (as_field key (resolve env' whitelist v)) (agree-fields fs)

  -- What a document resolves to, or its failure, depends on the whitelisted variables alone: two
  -- environments that agree on the whitelist give the same answer for every document.
  pub resolve-whitelist : (v : Value) → resolve env whitelist v ≡ resolve env' whitelist v
  resolve-whitelist v = agree-value v
