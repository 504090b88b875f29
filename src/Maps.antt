-- ===== src/Maps.antt =====
-- Hash maps, vectors and shared cells as lists, with the operations that the code uses of them.
use everything_imu.Prelude.{
  ℕ, zero, suc, ◌≡◌, ◌≢◌, refl, sym, ap, ◌∙◌, List, [], ◌∷◌, ◌++◌, Option, none, some, Bool, true,
  false, not, ◌==◌, ==_iff, Bool-cases, inl, inr, if_true, if_false, if_cases, if◌then◌else◌,
  length, arith, All,
}
use mathlib.Core.Path.{subst, ap₂}

-- `get`.
abbrev pub lookup {ℓ} : {V : Type ℓ} → ℕ → List (ℕ × V) → Option V
lookup k [] = none
lookup k ((k', v) ∷ xs) = let rest = lookup k xs in if k == k' then some v else rest

-- `retain`.
abbrev pub retain {ℓ} : {A : Type ℓ} → (A → Bool) → List A → List A
retain p [] = []
retain p (x ∷ xs) = let rest = retain p xs in if p x then x ∷ rest else rest

-- Stores a value in a cell.
abbrev pub store {ℓ} : {A : Type ℓ} → ℕ → A → List A → List A
store c v [] = []
store zero v (x ∷ xs) = v ∷ xs
store (suc c) v (x ∷ xs) = x ∷ store c v xs

-- The contents of a cell.
abbrev pub cell {ℓ} : {A : Type ℓ} → List A → ℕ → Option A
cell [] c = none
cell (x ∷ xs) zero = some x
cell (x ∷ xs) (suc c) = cell xs c

module _ {ℓ} {A : Type ℓ} where
  pub All-map {κ μ} :
      {P : A → Type κ} {Q : A → Type μ} (xs : List A) → ((a : A) → P a → Q a) → All P xs → All Q xs
  All-map [] f h = tt
  All-map (x ∷ xs) f (h, hs) = (f x h, All-map xs f hs)

  pub All-zip {κ μ} :
      (P : A → Type κ) (Q : A → Type μ) (xs : List A)
      → All P xs
      → All Q xs
      → All (λ a. P a × Q a) xs
  All-zip P Q [] h k = tt
  All-zip P Q (x ∷ xs) (h, hs) (k, ks) = ((h, k), All-zip P Q xs hs ks)

  pub All-retain {κ} :
      (P : A → Type κ) (p : A → Bool) (xs : List A) → All P xs → All P (retain p xs)
  All-retain P p [] h = tt
  All-retain P p (x ∷ xs) (h, hs) =
      let rest = All-retain P p xs hs in
      if_cases (λ ys. All P ys) (p x) (λ e. (h, rest)) (λ e. rest)

  -- What holds of the selected elements.
  pub All-select {κ} :
      (P : A → Type κ) (p : A → Bool) (xs : List A)
      → All (λ x. p x ≡ true → P x) xs
      → All P (retain p xs)
  All-select P p [] h = tt
  All-select P p (x ∷ xs) (h, hs) =
      let rest = All-select P p xs hs in
      if_cases (λ ys. All P ys) (p x) (λ e. (h e, rest)) (λ e. rest)

  pub cell-append :
      (xs ys : List A) (c : ℕ) {v : A} → cell xs c ≡ some v → cell (xs ++ ys) c ≡ some v
  cell-append [] ys c h = absurd (ground (arith, h))
  cell-append (x ∷ xs) ys zero h = h
  cell-append (x ∷ xs) ys (suc c) h = cell-append xs ys c h

  pub cell-length : (xs : List A) (v : A) → cell (xs ++ (v ∷ [])) (length xs) ≡ some v
  cell-length [] v = refl
  cell-length (x ∷ xs) v = cell-length xs v

  pub cell-store :
      (xs : List A) (c : ℕ) (v : A) {w : A} → cell xs c ≡ some w → cell (store c v xs) c ≡ some v
  cell-store [] c v h = absurd (ground (arith, h))
  cell-store (x ∷ xs) zero v h = refl
  cell-store (x ∷ xs) (suc c) v h = cell-store xs c v h

  pub cell-store_other :
      (xs : List A) (c c' : ℕ) (v : A) → c' ≢ c → cell (store c v xs) c' ≡ cell xs c'
  cell-store_other [] c c' v h = refl
  cell-store_other (x ∷ xs) zero zero v h = absurd (h refl)
  cell-store_other (x ∷ xs) zero (suc c') v h = refl
  cell-store_other (x ∷ xs) (suc c) zero v h = refl
  cell-store_other (x ∷ xs) (suc c) (suc c') v h = cell-store_other xs c c' v (λ e. h (ap suc e))

module _ {V : Type 0} where
  pub some-injective : {v w : V} → some v ≡ some w → v ≡ w
  some-injective {v = v} e = ap (λ o. elim o [ none ↦ v | some x ↦ x ]) e

  pub lookup-All :
      (P : ℕ × V → Type 0) (k : ℕ) (xs : List (ℕ × V)) {v : V}
      → All P xs
      → lookup k xs ≡ some v
      → P (k, v)
  lookup-All P k [] h e = absurd (ground (arith, e))
  lookup-All P k ((k', w) ∷ xs) {v = v} (h, hs) e = elim (Bool-cases (k == k')) [
    | inl t ↦
        subst P
          (ap₂ (λ a b. (a, b)) (sym ((==_iff k k').0 t))
            (some-injective (sym (if_true (k == k') (some w) _ t) ∙ e)))
          h
    | inr f ↦ lookup-All P k xs hs (sym (if_false (k == k') (some w) _ f) ∙ e)
  ]

  pub lookup-cons :
      (k k' : ℕ) (w : V) (xs : List (ℕ × V)) {v : V}
      → lookup k' xs ≡ none
      → lookup k xs ≡ some v
      → lookup k ((k', w) ∷ xs) ≡ some v
  lookup-cons k k' w xs h e = elim (Bool-cases (k == k')) [
    | inl t ↦ absurd (no_value (sym h ∙ ap (λ n. lookup n xs) (sym ((==_iff k k').0 t)) ∙ e))
    | inr f ↦ if_false (k == k') (some w) _ f ∙ e
  ]
    where
      no_value : {v : V} → none ≡ some v → ⊥
      no_value e = ground (arith, e)

  pub lookup-retain :
      (p : ℕ × V → Bool) (k : ℕ) (xs : List (ℕ × V))
      → ((v : V) → p (k, v) ≡ true)
      → lookup k (retain p xs) ≡ lookup k xs
  lookup-retain p k [] h = refl
  lookup-retain p k ((k', v) ∷ xs) h =
      let rest = lookup-retain p k xs h in
      elim (Bool-cases (p (k', v))) [
        | inl t ↦
            ap (lookup k) (if_true (p (k', v)) ((k', v) ∷ retain p xs) _ t)
            ∙ ap (λ o. if k == k' then some v else o) rest
        | inr f ↦
            ap (lookup k) (if_false (p (k', v)) ((k', v) ∷ retain p xs) _ f)
            ∙ rest
            ∙ sym (if_false (k == k') (some v) _ (other k k' v f (h v)))
      ]
    where
      clash : true ≡ false → ⊥
      clash e = cc

      other : (k k' : ℕ) (v : V) → p (k', v) ≡ false → p (k, v) ≡ true → (k == k') ≡ false
      other k k' v f t = elim (Bool-cases (k == k')) [
        | inl e ↦ absurd (clash (sym t ∙ ap (λ n. p (n, v)) ((==_iff k k').0 e) ∙ f))
        | inr e ↦ e
      ]

-- `remove` and `insert` of a hash map.
abbrev pub without {ℓ} : {V : Type ℓ} → ℕ → List (ℕ × V) → List (ℕ × V)
without k xs = retain (λ e. not (e.0 == k)) xs

abbrev pub insert {ℓ} : {V : Type ℓ} → ℕ → V → List (ℕ × V) → List (ℕ × V)
insert k v xs = (k, v) ∷ without k xs

module _ {V : Type 0} where
  pub lookup-without_other :
      (j k : ℕ) (xs : List (ℕ × V)) → (j == k) ≡ false → lookup j (without k xs) ≡ lookup j xs
  lookup-without_other j k xs h = lookup-retain (λ e. not (e.0 == k)) j xs (λ v. ap not h)

  pub lookup-insert :
      (j k : ℕ) (v : V) (xs : List (ℕ × V))
      → lookup j (insert k v xs) ≡ (if j == k then some v else lookup j xs)
  lookup-insert j k v xs = elim (Bool-cases (j == k)) [
    | inl t ↦ if_true (j == k) (some v) _ t ∙ sym (if_true (j == k) (some v) (lookup j xs) t)
    | inr f ↦
        if_false (j == k) (some v) (lookup j (without k xs)) f
        ∙ lookup-without_other j k xs f
        ∙ sym (if_false (j == k) (some v) (lookup j xs) f)
  ]
