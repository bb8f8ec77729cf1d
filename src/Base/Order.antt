-- ===== src/Base/Order.antt =====
-- Total orders as an interface: what `#[derive(PartialOrd, Ord)]` gives for numbers, structs and
-- `Option`. `lex` is the order of a struct by its fields.
use Prim.Native.Nat.{ℕ, compare, Ordering}
use mathlib.Core.Path.{◌≡◌, refl, ap}
use mathlib.Core.Bool.{Bool, true, false, not}
use mathlib.Core.Option.{Option, none, some}
use native.Mathlib.Omega.{arith}
use async_raft.Base.Tests.{if◌then◌else◌}

abbrev pub flip : Ordering → Ordering
flip Ordering.lt = Ordering.gt
flip Ordering.eq = Ordering.eq
flip Ordering.gt = Ordering.lt

-- `Ordering::then_with`: the second decides where the first is equal.
abbrev pub lex : Ordering → Ordering → Ordering
lex Ordering.lt q = Ordering.lt
lex Ordering.eq q = q
lex Ordering.gt q = Ordering.gt

abbrev pub is_lt : Ordering → Bool
is_lt Ordering.lt = true
is_lt _ = false

abbrev pub is_eq : Ordering → Bool
is_eq Ordering.eq = true
is_eq _ = false

abbrev pub is_le : Ordering → Bool
is_le Ordering.gt = false
is_le _ = true

pub record Ord {ℓ} (A : Type ℓ) : Type ℓ where
  pub cmp : A → A → Ordering
  pub cmp_eq : (a b : A) → cmp a b ≡ Ordering.eq → a ≡ b
  pub cmp_self : (a : A) → cmp a a ≡ Ordering.eq
  pub cmp_flip : (a b : A) → cmp b a ≡ flip (cmp a b)
  pub cmp_trans :
      (a b c : A) → cmp a b ≡ Ordering.lt → cmp b c ≡ Ordering.lt → cmp a c ≡ Ordering.lt

module _ {ℓ} {A : Type ℓ} ⦃o : Ord A⦄ where
  infix 50 ◌<?◌ ◌≤?◌ ◌=?◌
  abbrev pub ◌<?◌ : A → A → Bool
  a <? b = is_lt (o.cmp a b)

  abbrev pub ◌≤?◌ : A → A → Bool
  a ≤? b = is_le (o.cmp a b)

  abbrev pub ◌=?◌ : A → A → Bool
  a =? b = is_eq (o.cmp a b)

  pub le?_refl : (a : A) → (a ≤? a) ≡ true
  le?_refl a = ground (arith, o.cmp_self a)

  pub =?_refl : (a : A) → (a =? a) ≡ true
  =?_refl a = ground (arith, o.cmp_self a)

  pub =?→eq : (a b : A) → (a =? b) ≡ true → a ≡ b
  =?→eq a b h = ground (arith, o.cmp_eq a b)

  pub eq→=? : (a b : A) → a ≡ b → (a =? b) ≡ true
  eq→=? a b e = ground (arith, o.cmp_self a)

  pub le?_antisymm : (a b : A) → (a ≤? b) ≡ true → (b ≤? a) ≡ true → a ≡ b
  le?_antisymm a b p q = ground (arith, o.cmp_eq a b, o.cmp_flip a b)

  pub lt?_flip : (a b : A) → (a <? b) ≡ not (b ≤? a)
  lt?_flip a b = ground (arith, o.cmp_flip a b)

  pub lt?→le? : (a b : A) → (a <? b) ≡ true → (a ≤? b) ≡ true
  lt?→le? a b h = ground arith

  pub lt?_irrefl : (a : A) → (a <? a) ≡ false
  lt?_irrefl a = ground (arith, o.cmp_self a)

  pub le?_total : (a b : A) → (a ≤? b) ≡ false → (b ≤? a) ≡ true
  le?_total a b h = ground (arith, o.cmp_flip a b)

  pub not_lt?→le? : (a b : A) → (a <? b) ≡ false → (b ≤? a) ≡ true
  not_lt?→le? a b h = ground (arith, o.cmp_flip a b)

  pub lt?_trans : (a b c : A) → (a <? b) ≡ true → (b <? c) ≡ true → (a <? c) ≡ true
  lt?_trans a b c p q = ground (arith, o.cmp_trans a b c)

  pub lt?_le?_trans : (a b c : A) → (a <? b) ≡ true → (b ≤? c) ≡ true → (a <? c) ≡ true
  lt?_le?_trans a b c p q = ground (arith, o.cmp_trans a b c, o.cmp_eq b c)

  pub le?_lt?_trans : (a b c : A) → (a ≤? b) ≡ true → (b <? c) ≡ true → (a <? c) ≡ true
  le?_lt?_trans a b c p q = ground (arith, o.cmp_trans a b c, o.cmp_eq a b)

  pub le?_trans : (a b c : A) → (a ≤? b) ≡ true → (b ≤? c) ≡ true → (a ≤? c) ≡ true
  le?_trans a b c p q = ground (arith, o.cmp_trans a b c, o.cmp_eq a b, o.cmp_eq b c)

  -- `std::cmp::max` and `std::cmp::min`.
  abbrev pub max_of : A → A → A
  max_of a b = if a ≤? b then b else a

  abbrev pub min_of : A → A → A
  min_of a b = if a ≤? b then a else b

-- The order of the numbers, and of `Option`, where `None` is the least.
pub nat_cmp_trans :
    (a b c : ℕ) → compare a b ≡ Ordering.lt → compare b c ≡ Ordering.lt → compare a c ≡ Ordering.lt
nat_cmp_trans a b c p q = ground arith

pub nat_cmp_flip : (a b : ℕ) → compare b a ≡ flip (compare a b)
nat_cmp_flip a b = ground arith

pub nat_cmp_eq : (a b : ℕ) → compare a b ≡ Ordering.eq → a ≡ b
nat_cmp_eq a b h = ground arith

pub nat_cmp_self : (a : ℕ) → compare a a ≡ Ordering.eq
nat_cmp_self a = ground arith

instance abbrev pub nat_ord : Ord ℕ
nat_ord = record {
  cmp = compare;
  cmp_eq = nat_cmp_eq;
  cmp_self = nat_cmp_self;
  cmp_flip = nat_cmp_flip;
  cmp_trans = nat_cmp_trans;
}

module _ {ℓ} {A : Type ℓ} ⦃o : Ord A⦄ where
  abbrev pub cmp_option : Option A → Option A → Ordering
  cmp_option none none = Ordering.eq
  cmp_option none (some b) = Ordering.lt
  cmp_option (some a) none = Ordering.gt
  cmp_option (some a) (some b) = o.cmp a b

  pub cmp_option_eq : (a b : Option A) → cmp_option a b ≡ Ordering.eq → a ≡ b
  cmp_option_eq none none h = refl
  cmp_option_eq none (some b) h = cc
  cmp_option_eq (some a) none h = cc
  cmp_option_eq (some a) (some b) h = ap some (o.cmp_eq a b h)

  pub cmp_option_self : (a : Option A) → cmp_option a a ≡ Ordering.eq
  cmp_option_self none = refl
  cmp_option_self (some a) = o.cmp_self a

  pub cmp_option-flip : (a b : Option A) → cmp_option b a ≡ flip (cmp_option a b)
  cmp_option-flip none none = refl
  cmp_option-flip none (some b) = refl
  cmp_option-flip (some a) none = refl
  cmp_option-flip (some a) (some b) = o.cmp_flip a b

  pub cmp_option_trans :
      (a b c : Option A)
      → cmp_option a b ≡ Ordering.lt
      → cmp_option b c ≡ Ordering.lt
      → cmp_option a c ≡ Ordering.lt
  cmp_option_trans none none c p q = cc
  cmp_option_trans none (some b) none p q = cc
  cmp_option_trans none (some b) (some c) p q = refl
  cmp_option_trans (some a) none c p q = cc
  cmp_option_trans (some a) (some b) none p q = cc
  cmp_option_trans (some a) (some b) (some c) p q = o.cmp_trans a b c p q

  instance abbrev pub option_ord : Ord (Option A)
  option_ord = record {
    cmp = cmp_option;
    cmp_eq = cmp_option_eq;
    cmp_self = cmp_option_self;
    cmp_flip = cmp_option-flip;
    cmp_trans = cmp_option_trans;
  }

-- The derived order of a struct of two fields.
module _ {ℓ κ μ} {A : Type ℓ} {F : Type κ} {G : Type μ} ⦃p : Ord F⦄ ⦃q : Ord G⦄ (f : A → F)
    (g : A → G) (fields_eq : (a b : A) → f a ≡ f b → g a ≡ g b → a ≡ b) where
  abbrev pub cmp_fields : A → A → Ordering
  cmp_fields a b = lex (p.cmp (f a) (f b)) (q.cmp (g a) (g b))

  pub cmp_fields_eq : (a b : A) → cmp_fields a b ≡ Ordering.eq → a ≡ b
  cmp_fields_eq a b h = ground (arith, fields_eq a b, p.cmp_eq (f a) (f b), q.cmp_eq (g a) (g b))

  pub cmp_fields_self : (a : A) → cmp_fields a a ≡ Ordering.eq
  cmp_fields_self a = ground (arith, p.cmp_self (f a), q.cmp_self (g a))

  pub cmp_fields-flip : (a b : A) → cmp_fields b a ≡ flip (cmp_fields a b)
  cmp_fields-flip a b = ground (arith, p.cmp_flip (f a) (f b), q.cmp_flip (g a) (g b))

  pub cmp_fields_trans :
      (a b c : A)
      → cmp_fields a b ≡ Ordering.lt
      → cmp_fields b c ≡ Ordering.lt
      → cmp_fields a c ≡ Ordering.lt
  cmp_fields_trans a b c x y = ground (
    arith,
    p.cmp_trans (f a) (f b) (f c),
    q.cmp_trans (g a) (g b) (g c),
    p.cmp_eq (f a) (f b),
    p.cmp_eq (f b) (f c),
  )

  abbrev pub by_fields : Ord A
  by_fields = record {
    cmp = cmp_fields;
    cmp_eq = cmp_fields_eq;
    cmp_self = cmp_fields_self;
    cmp_flip = cmp_fields-flip;
    cmp_trans = cmp_fields_trans;
  }
