-- ===== src/Core/Latency/Newest.antt =====
-- The newest entries of a list: what a bounded window keeps of all that was put into it.
use everything_imu.Core.Latency.{back}
use everything_imu.Prelude.{
  ℕ, zero, suc, ◌+◌, ◌-◌, ◌≤◌, ◌<◌, min, List, [], ◌∷◌, ◌++◌, length, drop, some, ◌≡◌, refl, ap,
  ◌∙◌, sym, ◌==◌, if◌then◌else◌, arith, length-append, length-drop, drop-append_le, if_true,
  if_false, drop-drop, drop_all, Bool-cases, true, false, inl, inr,
}

module _ {ℓ} {A : Type ℓ} where
  -- The last `room` entries, oldest first.
  abbrev pub newest : ℕ → List A → List A
  newest room xs = drop (length xs - room) xs

  pub length-newest : (room : ℕ) (xs : List A) → length (newest room xs) ≡ min room (length xs)
  length-newest room xs = omega (arith, length-drop (length xs - room) xs)

  -- One more entry: a full window loses its oldest.
  pub newest-push :
      (room : ℕ) (xs : List A) (x : A)
      → 0 < room
      → ((if length (newest room xs) == room then drop 1 (newest room xs) else newest room xs)
          ++ x ∷ [])
        ≡ newest room (xs ++ x ∷ [])
  newest-push room xs x h = elim (Bool-cases (length (newest room xs) == room)) [
    | inl e ↦
        (ap (λ ys. ys ++ x ∷ []) (if_true _ (drop 1 (newest room xs)) (newest room xs) e)
          ∙ ap (λ ys. ys ++ x ∷ []) (sym (drop-drop (length xs - room) 1 xs))
          ∙ sym (drop-append_le (length xs - room + 1) xs (x ∷ []) (full e))
          ∙ ap (λ n. drop n (xs ++ x ∷ [])) {y = length (xs ++ x ∷ []) - room} (grown e))
    | inr e ↦
        (ap (λ ys. ys ++ x ∷ []) (if_false _ (drop 1 (newest room xs)) (newest room xs) e)
          ∙ sym (drop-append_le (length xs - room) xs (x ∷ []) (omega arith))
          ∙ ap (λ n. drop n (xs ++ x ∷ [])) {y = length (xs ++ x ∷ []) - room} (kept e))
  ]
    where
      full : (length (newest room xs) == room) ≡ true → length xs - room + 1 ≤ length xs
      full e = ground (arith, length-newest room xs)

      grown :
          (length (newest room xs) == room) ≡ true
          → length xs - room + 1 ≡ length (xs ++ x ∷ []) - room
      grown e = ground (arith, length-newest room xs, length-append xs (x ∷ []))

      kept :
          (length (newest room xs) == room) ≡ false
          → length xs - room ≡ length (xs ++ x ∷ []) - room
      kept e = ground (arith, length-newest room xs, length-append xs (x ∷ []))

module _ {ℓ} {A : Type ℓ} where
  pub newest-nil : (room : ℕ) → newest {A = A} room [] ≡ []
  newest-nil room = drop_all (0 - room) [] (omega arith)

  pub back-append : (xs : List A) (x : A) → back (xs ++ x ∷ []) ≡ some x
  back-append [] x = refl
  back-append (y ∷ []) x = refl
  back-append (y ∷ z ∷ zs) x = back-append (z ∷ zs) x

  back-drop : (n : ℕ) (xs : List A) → n < length xs → back (drop n xs) ≡ back xs
  back-drop zero xs h = refl
  back-drop (suc n) [] h = absurd (omega arith)
  back-drop (suc n) (x ∷ []) h = absurd (omega arith)
  back-drop (suc n) (x ∷ y ∷ ys) h = back-drop n (y ∷ ys) (omega arith)

  pub back-newest : (room : ℕ) (xs : List A) → 0 < room → back (newest room xs) ≡ back xs
  back-newest room [] h = ap back (newest-nil room)
  back-newest room (x ∷ xs) h = back-drop (length (x ∷ xs) - room) (x ∷ xs) (omega arith)
