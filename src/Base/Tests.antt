-- ===== src/Base/Tests.antt =====
-- Boolean tests on the native numbers, the conditional, and case splits that keep the equation.
use Prim.Native.Nat.{ℕ, ◌+◌, ◌-◌, ◌%◌, ◌^◌, ◌≤◌, ◌<◌, compare, Ordering}
use mathlib.Core.Path.{◌≡◌, refl, subst}
use mathlib.Core.Logic.{◌↔◌, ◌⊎◌, inl, inr}
use mathlib.Core.Bool.{Bool, true, false}
use mathlib.Core.Option.{Option, none, some}
use native.Mathlib.Omega.{arith}

abbrev pub ltb : ℕ → ℕ → Bool
ltb a b = elim (compare a b) [ Ordering.lt ↦ true | _ ↦ false ]

abbrev pub leb : ℕ → ℕ → Bool
leb a b = elim (compare a b) [ Ordering.gt ↦ false | _ ↦ true ]

infix 50 ◌==◌
abbrev pub ◌==◌ : ℕ → ℕ → Bool
a == b = elim (compare a b) [ Ordering.eq ↦ true | _ ↦ false ]

infix 1 if◌then◌else◌
abbrev pub if◌then◌else◌ {ℓ} : {A : Type ℓ} → Bool → A → A → A
if true then x else y = x
if false then x else y = y

pub ltb→lt : (a b : ℕ) → ltb a b ≡ true → a < b
ltb→lt a b h = ground arith

pub lt→ltb : (a b : ℕ) → a < b → ltb a b ≡ true
lt→ltb a b h = ground arith

pub leb→le : (a b : ℕ) → leb a b ≡ true → a ≤ b
leb→le a b h = ground arith

pub ==_iff : (a b : ℕ) → ((a == b) ≡ true) ↔ (a ≡ b)
==_iff a b = ground arith

pub ==_refl : (a : ℕ) → (a == a) ≡ true
==_refl a = ground arith

-- A property of a conditional, by the two branches.
pub if-cases :
    {A : Type 0} (R : A → Type 0) (b : Bool) {x y : A}
    → (b ≡ true → R x)
    → (b ≡ false → R y)
    → R (if b then x else y)
if-cases R true f g = f refl
if-cases R false f g = g refl

pub Bool-cases : (b : Bool) → (b ≡ true) ⊎ (b ≡ false)
Bool-cases true = inl refl
Bool-cases false = inr refl

pub Option-cases {ℓ} : {A : Type ℓ} (o : Option A) → (o ≡ none) ⊎ ((a : A) × (o ≡ some a))
Option-cases none = inl refl
Option-cases (some a) = inr (a, refl)

-- A computation that may panic (`unreachable!`, `unwrap()` of `None`, a failed assertion).
pub data Checked {ℓ} (A : Type ℓ) : Type ℓ where
  done : A → Checked A
  panicked : Checked A

infixl 5 ◌>>=◌
abbrev pub ◌>>=◌ {ℓ κ} : {A : Type ℓ} {B : Type κ} → Checked A → (A → Checked B) → Checked B
done a >>= f = f a
panicked >>= f = panicked

-- `Option::unwrap` and `expect`.
abbrev pub unwrap {ℓ} : {A : Type ℓ} → Option A → Checked A
unwrap none = panicked
unwrap (some a) = done a

-- What holds of the result, if there is one.
abbrev pub Ensures {ℓ κ} : {A : Type ℓ} → Checked A → (A → Type κ) → Type κ
Ensures (done a) P = P a
Ensures panicked P = Unit

pub Ensures-bind {ℓ κ μ ν} :
    {A : Type ℓ} {B : Type κ} (m : Checked A) (f : A → Checked B) (P : A → Type μ) (Q : B → Type ν)
    → Ensures m P
    → ((a : A) → P a → Ensures (f a) Q)
    → Ensures (m >>= f) Q
Ensures-bind (done a) f P Q p h = h a p
Ensures-bind panicked f P Q p h = tt

pub Ensures-any {ℓ κ μ} :
    {A : Type ℓ} {B : Type κ} (m : Checked A) (f : A → Checked B) (Q : B → Type μ)
    → ((a : A) → Ensures (f a) Q)
    → Ensures (m >>= f) Q
Ensures-any (done a) f Q h = h a
Ensures-any panicked f Q h = tt

pub Ensures-map {ℓ κ μ} :
    {A : Type ℓ} (m : Checked A) (P : A → Type κ) (Q : A → Type μ)
    → Ensures m P
    → ((a : A) → P a → Q a)
    → Ensures m Q
Ensures-map (done a) P Q p h = h a p
Ensures-map panicked P Q p h = tt

pub Ensures-if {ℓ κ} :
    {A : Type ℓ} (b : Bool) (x y : Checked A) (P : A → Type κ)
    → (b ≡ true → Ensures x P)
    → (b ≡ false → Ensures y P)
    → Ensures (if b then x else y) P
Ensures-if true x y P p q = p refl
Ensures-if false x y P p q = q refl

pub Ensures-done {ℓ κ} :
    {A : Type ℓ} (m : Checked A) (P : A → Type κ) {a : A} → Ensures m P → m ≡ done a → P a
Ensures-done (done b) P p e = subst P (cc) p
Ensures-done panicked P p e = absurd cc

pub >>=-eq-done {ℓ κ} :
    {A : Type ℓ} {B : Type κ} (m : Checked A) (f : A → Checked B) {b : B}
    → (m >>= f) ≡ done b
    → (a : A) × (m ≡ done a) × (f a ≡ done b)
>>=-eq-done (done a) f h = (a, refl, h)
>>=-eq-done panicked f h = cc

-- `u64` addition and subtraction wrap around in a release build.
abbrev pub u64_mod : ℕ
u64_mod = 2 ^ 64

unfoldable pub add64 : ℕ → ℕ → ℕ
add64 a b = (a + b) % u64_mod

unfoldable pub sub64 : ℕ → ℕ → ℕ
sub64 a b = (a + u64_mod - b) % u64_mod

pub add64_lem : (a b : ℕ) → a + b < u64_mod → add64 a b ≡ a + b
unfolding add64
add64_lem a b h = omega arith

pub sub64_lem : (a b : ℕ) → a < u64_mod → b ≤ a → sub64 a b ≡ a - b
unfolding sub64
sub64_lem a b h k = omega arith

pub two_tests :
    {A : Type 0} (R : A → Type 0) (a q : Bool) {x y z : A}
    → (a ≡ true → R x)
    → (a ≡ false → q ≡ true → R y)
    → (a ≡ false → q ≡ false → R z)
    → R (if a then x else if q then y else z)
two_tests R true q f g h = f refl
two_tests R false true f g h = g refl refl
two_tests R false false f g h = h refl refl

pub true-false : {b : Bool} → b ≡ true → b ≡ false → ⊥
true-false p q = absurd cc

pub three_tests :
    {A : Type 0} (R : A → Type 0) (a b c : Bool) {x y : A}
    → (a ≡ true → R x)
    → (b ≡ true → R x)
    → (a ≡ false → b ≡ false → c ≡ true → R y)
    → (a ≡ false → b ≡ false → c ≡ false → R x)
    → R (if a then x else if b then x else if c then y else x)
three_tests R true b c f g h k = f refl
three_tests R false true c f g h k = g refl
three_tests R false false true f g h k = h refl refl refl
three_tests R false false false f g h k = k refl refl refl

pub three_branches :
    {A : Type 0} (R : A → Type 0) (a b c : Bool) {w x y z : A}
    → (a ≡ true → R w)
    → (a ≡ false → b ≡ true → R x)
    → (a ≡ false → b ≡ false → R y)
    → (a ≡ false → b ≡ false → c ≡ false → R z)
    → R (if a then w else if b then x else if c then y else z)
three_branches R true b c f g h k = f refl
three_branches R false true c f g h k = g refl refl
three_branches R false false true f g h k = h refl refl
three_branches R false false false f g h k = k refl refl refl

pub none-some : {A : Type 0} {x : A} → none ≡ some x → ⊥
none-some e = absurd cc

pub some_inj : {A : Type 0} {x y : A} → some x ≡ some y → x ≡ y
some_inj e = cc
