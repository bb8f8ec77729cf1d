-- ===== src/Base/Lists.antt =====
-- Lists measured and indexed by native numbers, under the library's names.
use Prim.Native.Nat.{ℕ, zero, suc, ◌+◌, ◌<◌}
use mathlib.Core.Path.{◌≡◌, refl, ap}
use mathlib.Core.List.{List, [], ◌∷◌, ◌++◌}
use mathlib.Core.Option.{Option, none, some}
use native.Mathlib.Omega.{arith}

module _ {ℓ} {A : Type ℓ} where
  abbrev pub length : List A → ℕ
  length [] = 0
  length (x ∷ xs) = suc (length xs)

  abbrev pub get_elem? : List A → ℕ → Option A
  get_elem? [] i = none
  get_elem? (x ∷ xs) zero = some x
  get_elem? (x ∷ xs) (suc i) = get_elem? xs i

  abbrev pub take : ℕ → List A → List A
  take zero xs = []
  take (suc n) [] = []
  take (suc n) (x ∷ xs) = x ∷ take n xs

  abbrev pub drop : ℕ → List A → List A
  drop zero xs = xs
  drop (suc n) [] = []
  drop (suc n) (x ∷ xs) = drop n xs

  -- `Vec::first` and `Vec::last`.
  abbrev pub head? : List A → Option A
  head? [] = none
  head? (x ∷ xs) = some x

  abbrev pub last_of : A → List A → A
  last_of x [] = x
  last_of x (y ∷ ys) = last_of y ys

  abbrev pub get_last? : List A → Option A
  get_last? [] = none
  get_last? (x ∷ xs) = some (last_of x xs)

  pub length-append : (xs ys : List A) → length (xs ++ ys) ≡ length xs + length ys
  length-append [] ys = omega arith
  length-append (x ∷ xs) ys = omega (arith, length-append xs ys)

  pub last_of-append : (x : A) (xs : List A) (y : A) → last_of x (xs ++ y ∷ []) ≡ y
  last_of-append x [] y = refl
  last_of-append x (z ∷ xs) y = last_of-append z xs y

  -- A predicate on every element.
  abbrev pub All {κ} : (A → Type κ) → List A → Type κ
  All P [] = Unit
  All P (x ∷ xs) = P x × All P xs

  -- A list cut in two at a position: the part before it in reverse order, and the rest.
  abbrev pub rev_append : List A → List A → List A
  rev_append [] ys = ys
  rev_append (r ∷ rp) ys = rev_append rp (r ∷ ys)

  pub rev_append-append : (rp ys zs : List A) → rev_append rp ys ++ zs ≡ rev_append rp (ys ++ zs)
  rev_append-append [] ys zs = refl
  rev_append-append (r ∷ rp) ys zs = rev_append-append rp (r ∷ ys) zs

  pub length-rev_append : (rp ys : List A) → length (rev_append rp ys) ≡ length rp + length ys
  length-rev_append [] ys = omega arith
  length-rev_append (r ∷ rp) ys = omega (arith, length-rev_append rp (r ∷ ys))

  split_from :
      (rp xs : List A) (i : ℕ)
      → i < length xs
      → (rp' : List A) × (x : A) × (ys : List A) × (rev_append rp xs ≡ rev_append rp' (x ∷ ys))
        × (length rp' ≡ length rp + i)
  split_from rp [] i h = absurd (omega arith)
  split_from rp (x ∷ xs) zero h = (rp, x, xs, refl, omega arith)
  split_from rp (x ∷ xs) (suc i) h =
      let (rp', y, ys, e, l) = split_from (x ∷ rp) xs i (omega arith) in
      (rp', y, ys, e, omega arith)

  -- Every position splits a list.
  pub split_at :
      (xs : List A) (i : ℕ)
      → i < length xs
      → (rp : List A) × (x : A) × (ys : List A) × (xs ≡ rev_append rp (x ∷ ys)) × (length rp ≡ i)
  split_at xs i h = let (rp, x, ys, e, l) = split_from [] xs i h in (rp, x, ys, e, omega arith)

  pub get_elem?-append : (xs ys : List A) (x : A) → get_elem? (xs ++ x ∷ ys) (length xs) ≡ some x
  get_elem?-append [] ys x = refl
  get_elem?-append (y ∷ xs) ys x = get_elem?-append xs ys x

  pub take-append : (xs ys : List A) (x : A) → take (suc (length xs)) (xs ++ x ∷ ys) ≡ xs ++ x ∷ []
  take-append [] ys x = refl
  take-append (y ∷ xs) ys x = ap (λ l. y ∷ l) (take-append xs ys x)
