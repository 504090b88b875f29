-- ===== src/Core/Latency/Sorted.antt =====
-- crates/core/src/latency.rs: the sorted copy of a window, from which the percentiles are read.
use everything_imu.Prelude.{
  ◌==◌, ℕ, zero, suc, ◌+◌, ◌≤◌, ◌<◌, List, [], ◌∷◌, length, get_or, true, false, ◌≡◌, refl, ap, ◌∙◌,
  leb, ltb, if◌then◌else◌, arith, All, Bool-cases, inl, inr,
}
use everything_imu.Core.Latency.{insert_sorted, sort_unstable, count_above}

-- Each entry is at most the next.
abbrev pub IsSorted : List ℕ → Type 0
IsSorted [] = Unit {0}
IsSorted (x ∷ xs) = All (λ y. x ≤ y) xs × IsSorted xs

-- How often a number stands in a list.
abbrev pub count : ℕ → List ℕ → ℕ
count a [] = 0
count a (x ∷ xs) = (if a == x then 1 else 0) + count a xs

count-insert : (a x : ℕ) (xs : List ℕ) → count a (insert_sorted x xs) ≡ count a (x ∷ xs)
unfolding insert_sorted
count-insert a x [] = refl
count-insert a x (y ∷ ys) = ground (arith, count-insert a x ys)

pub count-sort_unstable : (a : ℕ) (xs : List ℕ) → count a (sort_unstable xs) ≡ count a xs
unfolding sort_unstable
count-sort_unstable a [] = refl
count-sort_unstable a (x ∷ xs) =
    count-insert a x (sort_unstable xs) ∙ omega (arith, count-sort_unstable a xs)

count_above-insert :
    (m x : ℕ) (xs : List ℕ) → count_above m (insert_sorted x xs) ≡ count_above m (x ∷ xs)
unfolding insert_sorted
count_above-insert m x [] = refl
count_above-insert m x (y ∷ ys) = ground (arith, count_above-insert m x ys)

pub count_above-sort_unstable :
    (m : ℕ) (xs : List ℕ) → count_above m (sort_unstable xs) ≡ count_above m xs
unfolding sort_unstable
count_above-sort_unstable m [] = refl
count_above-sort_unstable m (x ∷ xs) =
    count_above-insert m x (sort_unstable xs) ∙ omega (arith, count_above-sort_unstable m xs)

length-insert : (x : ℕ) (xs : List ℕ) → length (insert_sorted x xs) ≡ suc (length xs)
unfolding insert_sorted
length-insert x [] = refl
length-insert x (y ∷ ys) = ground (arith, length-insert x ys)

pub length-sort_unstable : (xs : List ℕ) → length (sort_unstable xs) ≡ length xs
unfolding sort_unstable
length-sort_unstable [] = refl
length-sort_unstable (x ∷ xs) =
    length-insert x (sort_unstable xs) ∙ ap suc (length-sort_unstable xs)

All-insert :
    (m x : ℕ) (xs : List ℕ) → m ≤ x → All (λ y. m ≤ y) xs → All (λ y. m ≤ y) (insert_sorted x xs)
unfolding insert_sorted
All-insert m x [] h a = (h, tt)
All-insert m x (y ∷ ys) h a = elim (Bool-cases (leb x y)) [
  | inl e ↦ rw e (h, a)
  | inr e ↦ rw e (a.0, All-insert m x ys h a.1)
]

All-le : (m n : ℕ) (xs : List ℕ) → m ≤ n → All (λ y. n ≤ y) xs → All (λ y. m ≤ y) xs
All-le m n [] h a = tt
All-le m n (x ∷ xs) h a = (omega (arith, a.0), All-le m n xs h a.1)

insert-IsSorted : (x : ℕ) (xs : List ℕ) → IsSorted xs → IsSorted (insert_sorted x xs)
unfolding insert_sorted
insert-IsSorted x [] s = (tt, tt)
insert-IsSorted x (y ∷ ys) s = elim (Bool-cases (leb x y)) [
  | inl e ↦ rw e (((below e), All-le x y ys (below e) s.0), s)
  | inr e ↦ rw e (All-insert y x ys (above e) s.0, insert-IsSorted x ys s.1)
]
  where
    below : leb x y ≡ true → x ≤ y
    below e = ground arith

    above : leb x y ≡ false → y ≤ x
    above e = ground arith

pub sort_unstable-IsSorted : (xs : List ℕ) → IsSorted (sort_unstable xs)
unfolding sort_unstable
sort_unstable-IsSorted [] = tt
sort_unstable-IsSorted (x ∷ xs) = insert-IsSorted x (sort_unstable xs) (sort_unstable-IsSorted xs)

All-get_or : (m d i : ℕ) (xs : List ℕ) → i < length xs → All (λ y. m ≤ y) xs → m ≤ get_or xs i d
All-get_or m d i [] h a = absurd (omega arith)
All-get_or m d zero (x ∷ xs) h a = a.0
All-get_or m d (suc i) (x ∷ xs) h a = All-get_or m d i xs (omega arith) a.1

pub get_or_mono :
    (xs : List ℕ) (d i j : ℕ) → IsSorted xs → i ≤ j → j < length xs → get_or xs i d ≤ get_or xs j d
get_or_mono [] d i j s h k = absurd (omega arith)
get_or_mono (x ∷ xs) d zero zero s h k = omega arith
get_or_mono (x ∷ xs) d zero (suc j) s h k = All-get_or x d j xs (omega arith) s.0
get_or_mono (x ∷ xs) d (suc i) zero s h k = absurd (omega arith)
get_or_mono (x ∷ xs) d (suc i) (suc j) s h k = get_or_mono xs d i j s.1 (omega arith) (omega arith)

pub count-get_or : (xs : List ℕ) (i d : ℕ) → i < length xs → 0 < count (get_or xs i d) xs
count-get_or [] i d h = absurd (omega arith)
count-get_or (x ∷ xs) zero d h = ground arith
count-get_or (x ∷ xs) (suc i) d h = omega (arith, count-get_or xs i d (omega arith))

pub count_above-le : (m : ℕ) (xs : List ℕ) → count_above m xs ≤ length xs
count_above-le m [] = omega arith
count_above-le m (x ∷ xs) = ground (arith, count_above-le m xs)

-- How many entries are below a number, and how many are at most it.
abbrev pub count_below : ℕ → List ℕ → ℕ
count_below a [] = 0
count_below a (x ∷ xs) = (if ltb x a then 1 else 0) + count_below a xs

abbrev pub count_up_to : ℕ → List ℕ → ℕ
count_up_to a [] = 0
count_up_to a (x ∷ xs) = (if leb x a then 1 else 0) + count_up_to a xs

count_below-insert :
    (a x : ℕ) (xs : List ℕ) → count_below a (insert_sorted x xs) ≡ count_below a (x ∷ xs)
unfolding insert_sorted
count_below-insert a x [] = refl
count_below-insert a x (y ∷ ys) = ground (arith, count_below-insert a x ys)

pub count_below-sort_unstable :
    (a : ℕ) (xs : List ℕ) → count_below a (sort_unstable xs) ≡ count_below a xs
unfolding sort_unstable
count_below-sort_unstable a [] = refl
count_below-sort_unstable a (x ∷ xs) =
    count_below-insert a x (sort_unstable xs) ∙ omega (arith, count_below-sort_unstable a xs)

count_up_to-insert :
    (a x : ℕ) (xs : List ℕ) → count_up_to a (insert_sorted x xs) ≡ count_up_to a (x ∷ xs)
unfolding insert_sorted
count_up_to-insert a x [] = refl
count_up_to-insert a x (y ∷ ys) = ground (arith, count_up_to-insert a x ys)

pub count_up_to-sort_unstable :
    (a : ℕ) (xs : List ℕ) → count_up_to a (sort_unstable xs) ≡ count_up_to a xs
unfolding sort_unstable
count_up_to-sort_unstable a [] = refl
count_up_to-sort_unstable a (x ∷ xs) =
    count_up_to-insert a x (sort_unstable xs) ∙ omega (arith, count_up_to-sort_unstable a xs)

none_below : (a : ℕ) (xs : List ℕ) → All (λ y. a ≤ y) xs → count_below a xs ≡ 0
none_below a [] h = refl
none_below a (x ∷ xs) h = ground (arith, h.0, none_below a xs h.1)

-- At most `i` entries of a sorted list are below its entry at `i`, and more than `i` are at most it.
pub get_or-below :
    (xs : List ℕ) (i d : ℕ) → IsSorted xs → i < length xs → count_below (get_or xs i d) xs ≤ i
get_or-below [] i d s h = absurd (omega arith)
get_or-below (x ∷ xs) zero d s h = ground (arith, none_below x xs s.0)
get_or-below (x ∷ xs) (suc i) d s h = ground (arith, get_or-below xs i d s.1 (omega arith))

pub get_or-up_to :
    (xs : List ℕ) (i d : ℕ) → IsSorted xs → i < length xs → i < count_up_to (get_or xs i d) xs
get_or-up_to [] i d s h = absurd (omega arith)
get_or-up_to (x ∷ xs) zero d s h = ground arith
get_or-up_to (x ∷ xs) (suc i) d s h =
    ground (arith, All-get_or x d i xs (omega arith) s.0, get_or-up_to xs i d s.1 (omega arith))
