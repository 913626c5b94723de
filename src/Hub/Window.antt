-- ===== src/Hub/Window.antt =====
-- The exits that count towards the threshold of a retry policy.
use sticky_overseer.Base.{
  ℕ, ◌≤◌, ◌≡◌, refl, sym, ap, ◌∙◌, Bool, true, false, List, [], ◌∷◌, ◌++◌, ℤ, pos, negsuc, is_zero,
  leb, arith, keep, if◌then◌else◌, inl, inr, Bool-cases,
}
use sticky_overseer.Messages.{RetryPolicy}
use sticky_overseer.Hub.Types.{is_recent}
use sticky_overseer.Hub.Exit.{counted_exits}

-- The history of a task after exits at these times, the latest first.
abbrev pub history_after : RetryPolicy → List ℕ → List ℕ
history_after rp [] = []
history_after rp (t ∷ ts) = counted_exits rp t (history_after rp ts)

-- All times of a list, the latest last.
abbrev pub oldest_first : List ℕ → List ℕ
oldest_first [] = []
oldest_first (t ∷ ts) = oldest_first ts ++ t ∷ []

-- Does a clock that does not go back tell these times, the latest first?
abbrev pub is_descending : List ℕ → Bool
is_descending [] = true
is_descending (t ∷ []) = true
is_descending (t ∷ (s ∷ ts)) = if leb s t then is_descending (s ∷ ts) else false

keep-append : (p : ℕ → Bool) (xs ys : List ℕ) → keep p (xs ++ ys) ≡ keep p xs ++ keep p ys
keep-append p [] ys = refl
keep-append p (x ∷ xs) ys = ground (arith, keep-append p xs ys)

-- What the later test keeps, the earlier one keeps.
is_recent-le :
    (window : ℤ) (s t x : ℕ) → s ≤ t → is_recent t window x ≡ true → is_recent s window x ≡ true
is_recent-le (pos w) s t x h e = ground arith
is_recent-le (negsuc n) s t x h e = ground arith

keep-keep :
    (window : ℤ) (s t : ℕ) (xs : List ℕ)
    → s ≤ t
    → keep (is_recent t window) (keep (is_recent s window) xs) ≡ keep (is_recent t window) xs
keep-keep window s t [] h = refl
keep-keep window s t (x ∷ xs) h = elim (Bool-cases (is_recent s window x)) [
  | inl a ↦ ground (arith, keep-keep window s t xs h)
  | inr a ↦ elim (Bool-cases (is_recent t window x)) [
    | inl b ↦ absurd (ground (arith, is_recent-le window s t x h b))
    | inr b ↦ ground (arith, keep-keep window s t xs h)
  ]
]

-- Pruning the history at every exit forgets nothing that counts: with an error window, and a clock
-- that does not go back, the history
-- is the latest exit and, before it, those of all earlier exits that are within the window.
pub counted_exits-is_recent :
    (rp : RetryPolicy) (t : ℕ) (ts : List ℕ)
    → is_zero rp.error_window ≡ false
    → is_descending (t ∷ ts) ≡ true
    → history_after rp (t ∷ ts) ≡ keep (is_recent t rp.error_window) (oldest_first ts) ++ t ∷ []
unfolding counted_exits
counted_exits-is_recent rp t [] z d = rw z refl
counted_exits-is_recent rp t (s ∷ ts) z d =
    let w = rp.error_window in
    let before = counted_exits-is_recent rp s ts z (ground arith) in
    ap (λ xs. counted_exits rp t xs) before
    ∙ rw z (
        ap (λ xs. xs ++ t ∷ [])
          (keep-append (is_recent t w) (keep (is_recent s w) (oldest_first ts)) (s ∷ [])
            ∙ ap (λ xs. xs ++ keep (is_recent t w) (s ∷ []))
                (keep-keep w s t (oldest_first ts) (ground arith))
            ∙ sym (keep-append (is_recent t w) (oldest_first ts) (s ∷ []))))
