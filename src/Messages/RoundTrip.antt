-- ===== src/Messages/RoundTrip.antt =====
-- What `UnmarshalJSON` of messages.go reads of what `MarshalJSON` writes.
use sticky_overseer.Base.{
  ◌≡◌, ◌≢◌, refl, String, true, none, ℤ, pos, negsuc, zero, suc, is_zero, text_eq, ◌⊎◌, inl, inr,
  Bool-cases, arith, if_pos, if_neg,
}
use sticky_overseer.Messages.{
  RetryPolicy, RawRetryPolicy, zero_retry_policy, text_unless_zero, marshal_json, parse_into,
  parse_fields, unmarshal_json,
}

is_zero_lem : (d : ℤ) → is_zero d ≡ true → d ≡ pos 0
is_zero_lem (pos zero) e = refl
is_zero_lem (pos (suc n)) e = absurd (ground (arith, e))
is_zero_lem (negsuc n) e = absurd (ground (arith, e))

module _ (duration_text : ℤ → String) (parse_duration : String → String ⊎ ℤ) where
  -- The text of a duration is not empty and is read as the same duration.
  abbrev pub IsReadable : ℤ → Type 0
  IsReadable d = (duration_text d ≢ "") × (parse_duration (duration_text d) ≡ inr d)

  -- The pair of a field of the policy that was written sets that field, if it was not 0.
  parse_into-text_unless_zero :
      (d : ℤ) (set : ℤ → RetryPolicy → RetryPolicy) (r : RetryPolicy)
      → set (pos 0) r ≡ r
      → IsReadable d
      → parse_into parse_duration (text_unless_zero duration_text d) set (r, none) ≡ (set d r, none)
  unfolding parse_into
  parse_into-text_unless_zero d set r same (n, p) = elim (Bool-cases (is_zero d)) [
    | inl e ↦ rw (e, is_zero_lem d e, same) (if_pos (text_eq "" "") refl _ _)
    | inr e ↦ rw (e, p) (if_neg (text_eq (duration_text d) "") n _ _)
  ]

  -- A policy comes back from its JSON text, read into an empty policy, without an error, where
  -- the JSON codec returns what it was given, and the text of each of the policy's durations is not
  -- empty and is read as that duration.
  pub unmarshal_json-marshal_json {ℓ} :
      {Doc : Type ℓ} (encode : RawRetryPolicy → Doc) (decode : Doc → String ⊎ RawRetryPolicy)
      (r : RetryPolicy)
      → ((v : RawRetryPolicy) → decode (encode v) ≡ inr v)
      → IsReadable r.restart_delay
      → IsReadable r.restart_jitter
      → IsReadable r.error_window
      → unmarshal_json parse_duration decode (marshal_json duration_text encode r) zero_retry_policy
        ≡ (r, none)
  unfolding unmarshal_json marshal_json parse_fields
  unmarshal_json-marshal_json encode decode r codec delay jitter window =
      let counted : RetryPolicy = record zero_retry_policy {
        error_threshold = r.error_threshold;
      } in
      let delayed : RetryPolicy = record counted { restart_delay = r.restart_delay } in
      let jittered : RetryPolicy = record delayed { restart_jitter = r.restart_jitter } in
      rw
        (
          marshal_json,
          unmarshal_json,
          codec,
          parse_into-text_unless_zero r.restart_delay (λ d r. record r { restart_delay = d })
              counted refl delay,
          parse_into-text_unless_zero r.restart_jitter (λ d r. record r { restart_jitter = d })
              delayed refl jitter,
          parse_into-text_unless_zero r.error_window (λ d r. record r { error_window = d }) jittered
              refl window,
        )
        refl
