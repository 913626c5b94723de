-- ===== src/Exec/Params.antt =====
-- What holds of the parameters that pass.
use sticky_overseer.Base.{
  ◌≡◌, ◌≢◌, refl, sym, ap, ◌∙◌, String, Bool, Option, none, some, List, [], ◌∷◌, lookup, insert,
  ◌⊎◌, inl, inr, arith, lookup-insert_self, lookup-insert_ne, Option-cases, text_eq, subst,
}
use sticky_overseer.Config.{ParamSpec}
use sticky_overseer.Exec.{
  ParamError, default_of, check_value, checked, apply_param, validate_and_apply_defaults,
}

-- The value of a parameter after its round.
abbrev pub value_of : Option String → Option ParamSpec → Option String
value_of (some val) spec = some val
value_of none spec = default_of spec

module _ {Prog : Type 0} (eval : Prog → String → String ⊎ Bool)
    (programs : List (String × Option Prog)) where
  checked_lem :
      (name val : String) (result result' : List (String × String))
      → checked eval programs name val result ≡ inr result'
      → (check_value eval programs name val ≡ none) × (result ≡ result')
  checked_lem name val result result' h = elim (Option-cases (check_value eval programs name val)) [
    | inl e ↦ (e, ground (arith, e))
    | inr (err, e) ↦ absurd (ground (arith, e))
  ]

  record Round (name : String) (spec : Option ParamSpec) (r r' : List (String × String))
      : Type 0 where
    value : String
    found : lookup name r' ≡ some value
    source : value_of (lookup name r) spec ≡ some value
    passes : check_value eval programs name value ≡ none
    others : (j : String) → name ≢ j → lookup j r' ≡ lookup j r

  apply_param_lem :
      (name : String) (spec : Option ParamSpec) (r r' : List (String × String))
      → apply_param eval programs name spec r ≡ inr r'
      → Round name spec r r'
  unfolding apply_param
  apply_param_lem name spec r r' h = elim (Option-cases (lookup name r)) [
    | inr (val, e) ↦
        let (c, same) = checked_lem name val r r' (rw (e, apply_param) at h) in
        record {
          value = val;
          found = ap (λ t. lookup name t) (sym same) ∙ e;
          source = rw e refl;
          passes = c;
          others = λ j n. ap (λ t. lookup j t) (sym same);
        }
    | inl e ↦ elim (Option-cases (default_of spec)) [
      | inl d ↦ absurd (ground (arith, e, d))
      | inr (val, d) ↦
          let (c, same) =
            checked_lem name val (insert name val r) r' (rw (e, d, apply_param) at h) in
          record {
            value = val;
            found = ap (λ t. lookup name t) (sym same) ∙ lookup-insert_self name val r;
            source = rw (e, d) refl;
            passes = c;
            others = λ j n. ap (λ t. lookup j t) (sym same) ∙ lookup-insert_ne name j val r n;
          }
    ]
  ]

  Round-kept :
      (name j v : String) (spec : Option ParamSpec) (r r' : List (String × String))
      → Round name spec r r'
      → lookup j r ≡ some v
      → lookup j r' ≡ some v
  Round-kept name j v spec r r' round e = elim (text_eq name j) [
    | no n ↦ round.others j n ∙ e
    | yes p ↦
        let e' : lookup name r ≡ some v = subst (λ t. lookup t r ≡ some v) (sym p) e in
        subst (λ t. lookup t r' ≡ some v) p
          (round.found ∙ sym round.source ∙ ap (λ o. value_of o spec) e')
  ]

  -- The first round that succeeded, and the rest.
  validate_and_apply_defaults_lem :
      (n : String) (spec : Option ParamSpec) (parameters : List (String × Option ParamSpec))
      (r r' : List (String × String))
      → validate_and_apply_defaults eval programs ((n, spec) ∷ parameters) r ≡ inr r'
      → (r1 : List (String × String)) × Round n spec r r1
        × (validate_and_apply_defaults eval programs parameters r1 ≡ inr r')
  unfolding validate_and_apply_defaults
  validate_and_apply_defaults_lem n spec parameters r r' h =
      go (apply_param eval programs n spec r) refl
    where
      go :
          (o : ParamError ⊎ List (String × String))
          → apply_param eval programs n spec r ≡ o
          → (r1 : List (String × String)) × Round n spec r r1
            × (validate_and_apply_defaults eval programs parameters r1 ≡ inr r')
      go (inl err) e = absurd (ground (arith, (rw (e, validate_and_apply_defaults) at h)))
      go (inr r1) e =
          (r1, apply_param_lem n spec r r1 e, (rw (e, validate_and_apply_defaults) at h))

  -- When the parameters pass, one that was given still has its value after the defaults are applied.
  pub validate_and_apply_defaults-kept :
      (parameters : List (String × Option ParamSpec)) (j v : String) (r r' : List (String × String))
      → validate_and_apply_defaults eval programs parameters r ≡ inr r'
      → lookup j r ≡ some v
      → lookup j r' ≡ some v
  unfolding validate_and_apply_defaults
  validate_and_apply_defaults-kept [] j v r r' h e = ground (arith, h)
  validate_and_apply_defaults-kept ((n, spec) ∷ parameters) j v r r' h e =
      let (r1, round, rest) = validate_and_apply_defaults_lem n spec parameters r r' h in
      validate_and_apply_defaults-kept parameters j v r1 r' rest
        (Round-kept n j v spec r r1 round e)

  -- When the parameters pass, one of the configuration has its given value, or else its default, and
  -- the value passes the check of the parameter.
  pub validate_and_apply_defaults-value_of :
      (parameters : List (String × Option ParamSpec)) (name : String) (spec : Option ParamSpec)
      (r r' : List (String × String))
      → validate_and_apply_defaults eval programs parameters r ≡ inr r'
      → lookup name parameters ≡ some spec
      → (val : String) × (lookup name r' ≡ some val)
        × (value_of (lookup name r) spec ≡ some val)
        × (check_value eval programs name val ≡ none)
  unfolding lookup
  validate_and_apply_defaults-value_of [] name spec r r' h e = cc e
  validate_and_apply_defaults-value_of ((n, s) ∷ parameters) name spec r r' h e =
      let (r1, round, rest) = validate_and_apply_defaults_lem n s parameters r r' h in
      elim (text_eq n name) [
        | yes p ↦
            let same : s ≡ spec = ground (arith, e, p) in
            let kept =
              validate_and_apply_defaults-kept parameters n round.value r1 r' rest round.found in
            (
              round.value,
              subst (λ t. lookup t r' ≡ some round.value) p kept,
              subst (λ t. value_of (lookup t r) spec ≡ some round.value) p
                  (ap (value_of (lookup n r)) (sym same) ∙ round.source),
              subst (λ t. check_value eval programs t round.value ≡ none) p round.passes,
            )
        | no m ↦
            let (val, found, source, passes) =
              validate_and_apply_defaults-value_of parameters name spec r1 r' rest
                (ground (arith, e, m)) in
            (val, found, ap (λ o. value_of o spec) (sym (round.others name m)) ∙ source, passes)
      ]

  -- The other parameters stay as they were given.
  pub validate_and_apply_defaults-others :
      (parameters : List (String × Option ParamSpec)) (name : String)
      (r r' : List (String × String))
      → validate_and_apply_defaults eval programs parameters r ≡ inr r'
      → lookup name parameters ≡ none
      → lookup name r' ≡ lookup name r
  unfolding lookup validate_and_apply_defaults
  validate_and_apply_defaults-others [] name r r' h e = ground (arith, h)
  validate_and_apply_defaults-others ((n, s) ∷ parameters) name r r' h e =
      let (r1, round, rest) = validate_and_apply_defaults_lem n s parameters r r' h in
      elim (text_eq n name) [
        | yes p ↦ absurd (ground (arith, e, p))
        | no m ↦
            validate_and_apply_defaults-others parameters name r1 r' rest (ground (arith, e, m))
            ∙ round.others name m
      ]
