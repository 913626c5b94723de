-- ===== src/Worker/Ring.antt =====
-- The ring buffer of a worker.
use sticky_overseer.Base.{
  ℕ, zero, suc, ◌+◌, ◌-◌, ◌≤◌, ◌≡◌, refl, sym, ap, ◌∙◌, List, [], ◌∷◌, ◌++◌, arith, length, leb,
  length-append, inl, inr, Bool-cases, ◌<◌,
}
use sticky_overseer.Worker.{Worker, Event, ring_buffer_size, add_event, tail}

-- The events of a history, added one after the other.
unfoldable pub add_events : List Event → Worker → Worker
add_events [] w = w
add_events (e ∷ es) w = add_events es (add_event e w)

module _ {ℓ} {A : Type ℓ} where
  abbrev pub drop : ℕ → List A → List A
  drop zero xs = xs
  drop (suc n) [] = []
  drop (suc n) (x ∷ xs) = drop n xs

  -- The last elements, `n` of them at most.
  abbrev pub newest : ℕ → List A → List A
  newest n xs = drop (length xs - n) xs

  append_nil : (xs : List A) → xs ++ [] ≡ xs
  append_nil [] = refl
  append_nil (x ∷ xs) = ap (λ t. x ∷ t) (append_nil xs)

  append_assoc : (xs ys zs : List A) → (xs ++ ys) ++ zs ≡ xs ++ (ys ++ zs)
  append_assoc [] ys zs = refl
  append_assoc (x ∷ xs) ys zs = ap (λ t. x ∷ t) (append_assoc xs ys zs)

  drop-append : (n : ℕ) (xs ys : List A) → n ≤ length xs → drop n xs ++ ys ≡ drop n (xs ++ ys)
  drop-append zero xs ys h = refl
  drop-append (suc n) [] ys h = absurd (omega arith)
  drop-append (suc n) (x ∷ xs) ys h = drop-append n xs ys (omega arith)

  drop_eq : (i j : ℕ) (xs : List A) → i ≡ j → drop i xs ≡ drop j xs
  drop_eq i j xs h = ap (λ n. drop n xs) h

  drop_zero : (n : ℕ) (xs : List A) → n ≡ 0 → drop n xs ≡ xs
  drop_zero zero xs h = refl
  drop_zero (suc n) xs h = absurd (omega arith)

  drop_nil : (n : ℕ) (xs : List A) → xs ≡ [] → drop n xs ≡ []
  drop_nil zero xs h = h
  drop_nil (suc n) [] h = refl
  drop_nil (suc n) (x ∷ xs) h = cc

  drop-drop : (m n : ℕ) (xs : List A) → drop m (drop n xs) ≡ drop (n + m) xs
  drop-drop m zero xs = drop_eq m (0 + m) xs (omega arith)
  drop-drop m (suc n) [] = drop_nil m [] refl ∙ sym (drop_nil (suc n + m) [] refl)
  drop-drop m (suc n) (x ∷ xs) =
      drop-drop m n xs ∙ drop_eq (suc (n + m)) (suc n + m) (x ∷ xs) (omega arith)

  length-drop : (n : ℕ) (xs : List A) → length (drop n xs) ≡ length xs - n
  length-drop zero xs = omega arith
  length-drop (suc n) [] = omega arith
  length-drop (suc n) (x ∷ xs) = omega (arith, length-drop n xs)

  newest-append : (n : ℕ) (xs ys : List A) → newest n (newest n xs ++ ys) ≡ newest n (xs ++ ys)
  newest-append n xs ys =
      let k = length xs - n in
      let cut = drop-append k xs ys (omega arith) in
      ap (λ t. newest n t) cut
      ∙ drop-drop (length (drop k (xs ++ ys)) - n) k (xs ++ ys)
      ∙ drop_eq _ _ (xs ++ ys) (omega (arith, length-drop k (xs ++ ys), length-append xs ys))

  tail_is_drop : (xs : List A) → tail xs ≡ drop 1 xs
  tail_is_drop [] = refl
  tail_is_drop (x ∷ xs) = refl

add_event-newest :
    (e : Event) (w : Worker)
    → length w.events ≤ ring_buffer_size
    → (add_event e w).events ≡ newest ring_buffer_size (w.events ++ e ∷ [])
unfolding add_event
add_event-newest e w h = elim (Bool-cases (leb ring_buffer_size (length w.events))) [
  | inl full ↦ rw full (
      let k : length w.events ≡ ring_buffer_size = ground arith in
      ap (λ t. t ++ e ∷ []) (tail_is_drop w.events)
      ∙ drop-append 1 w.events (e ∷ []) (omega arith)
      ∙ drop_eq 1 _ (w.events ++ e ∷ []) (omega (arith, length-append w.events (e ∷ []))))
  | inr room ↦ rw room (
      let k : length w.events < ring_buffer_size = ground arith in
      sym (drop_zero _ (w.events ++ e ∷ []) (omega (arith, length-append w.events (e ∷ [])))))
]

length-newest : (n : ℕ) (es : List Event) → length (newest n es) ≤ n
length-newest n es = omega (arith, length-drop (length es - n) es)

-- From a buffer of 100 events at most, the ring buffer holds the last events of what it held and of the history added to it, in their
-- order, as many as there are up to 100.
pub add_events-newest :
    (es : List Event) (w : Worker)
    → length w.events ≤ ring_buffer_size
    → (add_events es w).events ≡ newest ring_buffer_size (w.events ++ es)
unfolding add_events
add_events-newest [] w h =
    sym (
      ap (λ t. newest ring_buffer_size t) (append_nil w.events)
      ∙ drop_zero _ w.events (omega arith))
add_events-newest (e ∷ es) w h =
    let stored = add_event-newest e w h in
    let h' : length (add_event e w).events ≤ ring_buffer_size =
      omega
        (arith, ap (λ t. length t) stored, length-newest ring_buffer_size (w.events ++ e ∷ [])) in
    add_events-newest es (add_event e w) h'
    ∙ ap (λ t. newest ring_buffer_size (t ++ es)) stored
    ∙ newest-append ring_buffer_size (w.events ++ e ∷ []) es
    ∙ ap (λ t. newest ring_buffer_size t) (append_assoc w.events (e ∷ []) es)
