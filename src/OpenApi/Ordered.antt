-- ===== src/OpenApi/Ordered.antt =====
-- The parameters that `buildWSParams` of openapi.go lists.
use sticky_overseer.Base.{
  ◌+◌, ◌≡◌, refl, ◌∙◌, String, Bool, true, false, Option, none, some, List, [], ◌∷◌, ◌++◌, count_of,
  count_of-sort_strings, sort_strings, arith, Bool-cases, Option-cases, inl, inr, lookup, subst,
}
use sticky_overseer.Config.{ParamSpec}
use sticky_overseer.Manifest.Types.{nil, text}
use sticky_overseer.OpenApi.{
  spec_of, is_required, param_of, split_params, names_of, build_ws_params,
}
use sticky_overseer.OpenApi.Commands.{SwaggerWsParam}

abbrev pub param_names : List SwaggerWsParam → List String
param_names [] = []
param_names (p ∷ ps) = p.name ∷ param_names ps

-- A parameter is required where it has no default, and else carries the default.
abbrev HasDefault : Option String → SwaggerWsParam → Type 0
HasDefault none p = (p.required ≡ true) × (p.default_ ≡ nil)
HasDefault (some d) p = (p.required ≡ false) × (p.default_ ≡ text d)

-- What a parameter's specification, which may be nil, says of it.
abbrev pub IsMade : Option ParamSpec → SwaggerWsParam → Type 0
IsMade none p = HasDefault none p × (p.validate ≡ "") × (p.type_ ≡ "string")
IsMade (some spec) p =
    HasDefault spec.default p × (p.validate ≡ spec.validate) × (p.type_ ≡ "string")

-- What the map has under the name, nil where it has nothing.
abbrev pub IsMadeOf : Option (Option ParamSpec) → SwaggerWsParam → Type 0
IsMadeOf none p = IsMade none p
IsMadeOf (some spec) p = IsMade spec p

-- Every parameter of the list is made of its specification, and has this flag.
abbrev pub AllMade : List (String × Option ParamSpec) → Bool → List SwaggerWsParam → Type 0
AllMade specs flag [] = Unit
AllMade specs flag (p ∷ ps) =
    IsMadeOf (lookup p.name specs) p × (p.required ≡ flag) × AllMade specs flag ps

param_of-HasDefault :
    (name : String) (spec : ParamSpec) → HasDefault spec.default (param_of name (some spec))
unfolding param_of
param_of-HasDefault name spec = elim (Option-cases spec.default) [
  | inl e ↦ rw e (refl, refl)
  | inr (d, e) ↦ rw e (refl, refl)
]

param_of-IsMade : (name : String) (spec : Option ParamSpec) → IsMade spec (param_of name spec)
unfolding param_of
param_of-IsMade name none = ((refl, refl), refl, refl)
param_of-IsMade name (some spec) = (param_of-HasDefault name spec, refl, refl)

param_of-IsMadeOf :
    (specs : List (String × Option ParamSpec)) (name : String)
    → IsMadeOf (lookup name specs) (param_of name (spec_of specs name))
param_of-IsMadeOf specs name = go (lookup name specs)
  where
    go :
        (o : Option (Option ParamSpec))
        → IsMadeOf o (param_of name (elim o [ none ↦ none | some spec ↦ spec ]))
    go none = param_of-IsMade name none
    go (some spec) = param_of-IsMade name spec

count_of-append :
    (id : String) (ps qs : List SwaggerWsParam)
    → count_of id (param_names (ps ++ qs))
      ≡ count_of id (param_names ps) + count_of id (param_names qs)
count_of-append id [] qs = omega arith
count_of-append id (p ∷ ps) qs = ground (arith, count_of-append id ps qs)

module _ (specs : List (String × Option ParamSpec)) where
  split_params-AllMade :
      (names : List String)
      → AllMade specs true (split_params specs names).0
        × AllMade specs false (split_params specs names).1
  unfolding split_params param_of
  split_params-AllMade [] = (tt, tt)
  split_params-AllMade (name ∷ names) =
      let (required, optional) = split_params-AllMade names in
      elim (Bool-cases (is_required (spec_of specs name))) [
        | inl e ↦
            rw (e, split_params)
              (
                (
                  subst
                      (λ b.
                        IsMadeOf (lookup name specs)
                          (record (param_of name (spec_of specs name)) { required = b }))
                      e (param_of-IsMadeOf specs name),
                  refl,
                  required,
                ),
                optional,
              )
        | inr e ↦
            rw (e, split_params)
              (
                required,
                (
                  subst
                      (λ b.
                        IsMadeOf (lookup name specs)
                          (record (param_of name (spec_of specs name)) { required = b }))
                      e (param_of-IsMadeOf specs name),
                  refl,
                  optional,
                ),
              )
      ]

  count_of-split_params :
      (id : String) (names : List String)
      → let r = split_params specs names in
        count_of id (param_names r.0) + count_of id (param_names r.1) ≡ count_of id names
  unfolding split_params param_of
  count_of-split_params id [] = omega arith
  count_of-split_params id (name ∷ names) =
      let later = count_of-split_params id names in
      elim (Bool-cases (is_required (spec_of specs name))) [
        | inl e ↦ rw (e, split_params) (omega (arith, later))
        | inr e ↦ rw (e, split_params) (omega (arith, later))
      ]

-- `buildWSParams` lists a parameter for each name of the specifications, as often as they have the
-- name, made of what they say of it. The required ones come first, then the optional ones.
pub build_ws_params-AllMade :
    (specs : List (String × Option ParamSpec))
    → (required : List SwaggerWsParam) × (optional : List SwaggerWsParam) × (build_ws_params specs
        ≡ required ++ optional)
      × AllMade specs true required
      × AllMade specs false optional
      × ((id : String)
          → count_of id (param_names (build_ws_params specs)) ≡ count_of id (names_of specs))
unfolding build_ws_params
build_ws_params-AllMade specs =
    let names = sort_strings (names_of specs) in
    let r = split_params specs names in
    let (required, optional) = split_params-AllMade specs names in
    (
      r.0,
      r.1,
      refl,
      required,
      optional,
      λ id.
          count_of-append id r.0 r.1
          ∙ count_of-split_params specs id names
          ∙ count_of-sort_strings id (names_of specs),
    )
