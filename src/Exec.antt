-- ===== src/Exec.antt =====
-- exec/handler.go: the parameters of a task are checked and completed before its command is built.
-- A compiled CEL program is a value of `Prog`, and `eval` runs one on a text.
pub mod Params
pub mod Handler
pub mod Started
pub mod Library
pub mod Checked
use sticky_overseer.Base.{
  String, Bool, true, false, Option, none, some, List, [], ◌∷◌, lookup, insert, ◌⊎◌, inl, inr,
}
use sticky_overseer.Config.{ParamSpec}

pub data ParamError : Type 0 where
  missing : String → ParamError
  evaluation_error : (name err : String) → ParamError
  failed_validation : (name val : String) → ParamError

-- `spec == nil || spec.Default == nil`, or the default.
abbrev pub default_of : Option ParamSpec → Option String
default_of none = none
default_of (some spec) = spec.default

module _ {Prog : Type 0} (eval : Prog → String → String ⊎ Bool)
    (programs : List (String × Option Prog)) where
  -- What a program says about the value of a parameter.
  abbrev pub judge : String → String → String ⊎ Bool → Option ParamError
  judge name val (inl err) = some (evaluation_error name err)
  judge name val (inr true) = none
  judge name val (inr false) = some (failed_validation name val)

  -- The check by the program of a parameter, which may be absent or nil.
  unfoldable pub check_value : String → String → Option ParamError
  check_value name val = elim (lookup name programs) [
    | none ↦ none
    | some none ↦ none
    | some (some prog) ↦ judge name val (eval prog val)
  ]

  abbrev pub checked :
      String → String → List (String × String) → ParamError ⊎ List (String × String)
  checked name val result = elim (check_value name val) [ none ↦ inr result | some err ↦ inl err ]

  -- A round of the loop over the parameters of the configuration.
  unfoldable pub apply_param :
      String → Option ParamSpec → List (String × String) → ParamError ⊎ List (String × String)
  apply_param name spec result = elim (lookup name result) [
    | some val ↦ checked name val result
    | none ↦ elim (default_of spec) [
      | none ↦ inl (missing name)
      | some val ↦ checked name val (insert name val result)
    ]
  ]

  -- The loop. `result` starts as a copy of the parameters given.
  unfoldable pub validate_and_apply_defaults :
      List (String × Option ParamSpec)
      → List (String × String)
      → ParamError ⊎ List (String × String)
  validate_and_apply_defaults [] result = inr result
  validate_and_apply_defaults ((name, spec) ∷ parameters) result =
      elim (apply_param name spec result) [
        | inl err ↦ inl err
        | inr result' ↦ validate_and_apply_defaults parameters result'
      ]

  -- `Validate`
  unfoldable pub validate :
      List (String × Option ParamSpec) → List (String × String) → Option ParamError
  validate parameters params = elim (validate_and_apply_defaults parameters params) [
    | inl err ↦ some err
    | inr _ ↦ none
  ]
