-- ===== src/Base/Sets.antt =====
-- `BTreeSet<u64>` as the list of its elements in ascending order, and `BTreeMap<u64, V>` as the list
-- of its entries in ascending order of the keys.
use Prim.Native.Nat.{ℕ, suc, ◌≤◌, ◌<◌}
use mathlib.Core.Path.{◌≡◌, refl}
use mathlib.Core.Logic.{inl, inr}
use mathlib.Core.Bool.{Bool, true, false, not, ◌&&◌, ◌||◌}
use mathlib.Core.List.{List, [], ◌∷◌}
use mathlib.Core.Option.{Option, none, some}
use native.Mathlib.Omega.{arith}
use async_raft.Base.Tests.{◌==◌, ltb, if◌then◌else◌, Bool-cases}

-- `contains`, also of a `Vec`.
abbrev pub member : ℕ → List ℕ → Bool
member x [] = false
member x (y ∷ ys) = (x == y) || member x ys

unfoldable pub insert : ℕ → List ℕ → List ℕ
insert x [] = x ∷ []
insert x (y ∷ ys) =
    let rest = insert x ys in if x == y then y ∷ ys else if ltb x y then x ∷ y ∷ ys else y ∷ rest

-- `extend` of a set, and `union` of two.
unfoldable pub union : List ℕ → List ℕ → List ℕ
unfolding insert
union [] ys = ys
union (x ∷ xs) ys = insert x (union xs ys)

unfoldable pub difference : List ℕ → List ℕ → List ℕ
difference [] ys = []
difference (x ∷ xs) ys = let rest = difference xs ys in if member x ys then rest else x ∷ rest

abbrev pub list_eq : List ℕ → List ℕ → Bool
list_eq [] [] = true
list_eq (x ∷ xs) (y ∷ ys) = (x == y) && list_eq xs ys
list_eq _ _ = false

-- No element twice.
abbrev pub Distinct : List ℕ → Type 0
Distinct [] = Unit {0}
Distinct (x ∷ xs) = (member x xs ≡ false) × Distinct xs

-- The elements are in ascending order, from a bound on.
abbrev pub From : ℕ → List ℕ → Type 0
From b [] = Unit {0}
From b (x ∷ xs) = (b ≤ x) × From (suc x) xs

pub insert-From : (b x : ℕ) (xs : List ℕ) → b ≤ x → From b xs → From b (insert x xs)
unfolding insert
insert-From b x [] h f = (h, tt)
insert-From b x (y ∷ ys) h f = elim (Bool-cases (x == y)) [
  | inl same ↦ rw same f
  | inr apart ↦ elim (Bool-cases (ltb x y)) [
    | inl before ↦ rw (apart, before) (h, (ground (arith, before), f.1))
    | inr after ↦
        rw (apart, after) (f.0, insert-From (suc y) x ys (ground (arith, apart, after)) f.1)
  ]
]

From-member : (b z : ℕ) (xs : List ℕ) → From b xs → z < b → member z xs ≡ false
From-member b z [] f h = refl
From-member b z (x ∷ xs) f h =
    ground (arith, f.0, From-member (suc x) z xs f.1 (omega (arith, f.0)))

pub From-Distinct : (b : ℕ) (xs : List ℕ) → From b xs → Distinct xs
From-Distinct b [] f = tt
From-Distinct b (x ∷ xs) f =
    (From-member (suc x) x xs f.1 (omega arith), From-Distinct (suc x) xs f.1)

pub member-insert : (z x : ℕ) (xs : List ℕ) → member z (insert x xs) ≡ (z == x) || member z xs
unfolding insert
member-insert z x [] = refl
member-insert z x (y ∷ ys) = ground (arith, member-insert z x ys)

pub member-union : (z : ℕ) (xs ys : List ℕ) → member z (union xs ys) ≡ member z xs || member z ys
unfolding union
member-union z [] ys = refl
member-union z (x ∷ xs) ys = ground (arith, member-insert z x (union xs ys), member-union z xs ys)

pub member-difference :
    (z : ℕ) (xs ys : List ℕ) → member z (difference xs ys) ≡ member z xs && not (member z ys)
unfolding difference
member-difference z [] ys = refl
member-difference z (x ∷ xs) ys = ground (arith, member-difference z xs ys)

pub list_eq→eq : (xs ys : List ℕ) → list_eq xs ys ≡ true → xs ≡ ys
list_eq→eq [] [] h = refl
list_eq→eq [] (y ∷ ys) h = cc
list_eq→eq (x ∷ xs) [] h = cc
list_eq→eq (x ∷ xs) (y ∷ ys) h = ground (arith, list_eq→eq xs ys)

pub list_eq_refl : (xs : List ℕ) → list_eq xs xs ≡ true
list_eq_refl [] = refl
list_eq_refl (x ∷ xs) = ground (arith, list_eq_refl xs)

-- Every element of the first is one of the second.
abbrev pub subset : List ℕ → List ℕ → Bool
subset [] ys = true
subset (x ∷ xs) ys = member x ys && subset xs ys

pub subset-member :
    (z : ℕ) (xs ys : List ℕ) → subset xs ys ≡ true → member z xs ≡ true → member z ys ≡ true
subset-member z [] ys h m = cc
subset-member z (x ∷ xs) ys h m = ground (arith, subset-member z xs ys)

module _ {ℓ} {V : Type ℓ} where
  abbrev pub keys : List (ℕ × V) → List ℕ
  keys [] = []
  keys ((k, v) ∷ m) = k ∷ keys m

  unfoldable pub get : ℕ → List (ℕ × V) → Option V
  get k [] = none
  get k ((j, v) ∷ m) = if k == j then some v else get k m

  abbrev pub contains_key : ℕ → List (ℕ × V) → Bool
  contains_key k m = member k (keys m)

  unfoldable pub insert_entry : ℕ → V → List (ℕ × V) → List (ℕ × V)
  insert_entry k v [] = (k, v) ∷ []
  insert_entry k v ((j, w) ∷ m) =
      let rest = insert_entry k v m in
      if k == j then (k, v) ∷ m else if ltb k j then (k, v) ∷ (j, w) ∷ m else (j, w) ∷ rest

  unfoldable pub remove : ℕ → List (ℕ × V) → List (ℕ × V)
  remove k [] = []
  remove k ((j, w) ∷ m) = let rest = remove k m in if k == j then rest else (j, w) ∷ rest

  pub member-keys-insert_entry :
      (z k : ℕ) (v : V) (m : List (ℕ × V))
      → contains_key z (insert_entry k v m) ≡ (z == k) || contains_key z m
  unfolding insert_entry
  member-keys-insert_entry z k v [] = refl
  member-keys-insert_entry z k v ((j, w) ∷ m) = ground (arith, member-keys-insert_entry z k v m)

  pub member-keys-remove :
      (z k : ℕ) (m : List (ℕ × V)) → contains_key z (remove k m) ≡ contains_key z m && not (z == k)
  unfolding remove
  member-keys-remove z k [] = refl
  member-keys-remove z k ((j, w) ∷ m) = ground (arith, member-keys-remove z k m)
