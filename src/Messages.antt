-- ===== src/Messages.antt =====
-- messages.go: the retry policy and its encodings. `String` and `ParseDuration` of the `time`
-- package, and the codec of JSON and YAML, are parameters.
pub mod RoundTrip
use sticky_overseer.Base.{
  ℕ, String, Bool, Option, none, some, ℤ, pos, is_zero, ite, text_eq, ◌⊎◌, inl, inr, if◌then◌else◌,
}

-- Durations in nanoseconds, as signed as Go's.
pub record RetryPolicy : Type 0 where
  pub restart_delay : ℤ
  pub restart_jitter : ℤ
  pub error_window : ℤ
  pub error_threshold : ℤ

abbrev pub zero_retry_policy : RetryPolicy
zero_retry_policy = record {
  restart_delay = pos 0;
  restart_jitter = pos 0;
  error_window = pos 0;
  error_threshold = pos 0;
}

-- The struct `raw` of `MarshalJSON`, `UnmarshalJSON` and `UnmarshalYAML`. A field that the document
-- leaves out is empty or 0.
pub record RawRetryPolicy : Type 0 where
  pub restart_delay : String
  pub restart_jitter : String
  pub error_window : String
  pub error_threshold : ℤ

module _ (duration_text : ℤ → String) where
  -- `if r.RestartDelay != 0 { v.RestartDelay = r.RestartDelay.String() }`
  abbrev pub text_unless_zero : ℤ → String
  text_unless_zero d = if is_zero d then "" else duration_text d

  unfoldable pub marshal_json {ℓ} : {Doc : Type ℓ} → (RawRetryPolicy → Doc) → RetryPolicy → Doc
  marshal_json encode r = encode (record {
    restart_delay = text_unless_zero r.restart_delay;
    restart_jitter = text_unless_zero r.restart_jitter;
    error_window = text_unless_zero r.error_window;
    error_threshold = r.error_threshold;
  })

module _ (parse_duration : String → String ⊎ ℤ) where
  -- A round of the loop over the pairs, `set` being the assignment to the field. An error that was
  -- returned stays.
  unfoldable pub parse_into :
      String
      → (ℤ → RetryPolicy → RetryPolicy)
      → RetryPolicy × Option String
      → RetryPolicy × Option String
  parse_into s set (r, some err) = (r, some err)
  parse_into s set (r, none) =
      ite (text_eq s "") (r, none)
        (elim (parse_duration s) [ inl err ↦ (r, some err) | inr d ↦ (set d r, none) ])

  unfoldable pub parse_fields : RawRetryPolicy → RetryPolicy → RetryPolicy × Option String
  parse_fields v r =
      let counted : RetryPolicy = record r { error_threshold = v.error_threshold } in
      parse_into v.error_window (λ d r. record r { error_window = d })
        (parse_into v.restart_jitter (λ d r. record r { restart_jitter = d })
          (parse_into v.restart_delay (λ d r. record r { restart_delay = d }) (counted, none)))

  -- The policy that `r` points to after the call, and the error.
  unfoldable pub unmarshal_json {ℓ} :
      {Doc : Type ℓ}
      → (Doc → String ⊎ RawRetryPolicy)
      → Doc
      → RetryPolicy
      → RetryPolicy × Option String
  unmarshal_json decode doc r = elim (decode doc) [
    | inl err ↦ (r, some err)
    | inr v ↦ parse_fields v r
  ]

  -- The same of a YAML node.
  unfoldable pub unmarshal_yaml {ℓ} :
      {Node : Type ℓ}
      → (Node → String ⊎ RawRetryPolicy)
      → Node
      → RetryPolicy
      → RetryPolicy × Option String
  unmarshal_yaml decode value r = elim (decode value) [
    | inl err ↦ (r, some err)
    | inr v ↦ parse_fields v r
  ]

-- A restart that is announced; `ts` is the text of its instant.
pub record RestartingMessage : Type 0 where
  pub task_id : String
  pub pid : ℕ
  pub restart_delay : ℤ
  pub attempt : ℕ
  pub ts : String

-- The struct `raw` of its `MarshalJSON`, whose delay is a text.
pub record RawRestartingMessage : Type 0 where
  pub task_id : String
  pub pid : ℕ
  pub restart_delay : String
  pub attempt : ℕ
  pub ts : String

unfoldable pub marshal_restarting {ℓ} :
    {Doc : Type ℓ} → (ℤ → String) → (RawRestartingMessage → Doc) → RestartingMessage → Doc
marshal_restarting duration_text encode m = encode (record {
  task_id = m.task_id;
  pid = m.pid;
  restart_delay = duration_text m.restart_delay;
  attempt = m.attempt;
  ts = m.ts;
})
