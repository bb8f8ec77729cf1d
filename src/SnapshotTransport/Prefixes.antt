-- ===== src/SnapshotTransport/Prefixes.antt =====
-- Prefixes of a list of bytes, and what is read and written at an offset
-- (openraft/src/network/snapshot_transport.rs).
use async_raft.Base.{
  ℕ, zero, suc, ◌+◌, ◌<◌, ◌≤◌, ◌≡◌, refl, List, [], ◌∷◌, length, take, drop, arith,
}
use async_raft.SnapshotTransport.{lay, overwrite, written}

abbrev pub IsPrefix : List ℕ → List ℕ → Type 0
IsPrefix [] xs = Unit {0}
IsPrefix (b ∷ bs) [] = ⊥
IsPrefix (b ∷ bs) (x ∷ xs) = (b ≡ x) × IsPrefix bs xs

pub take-IsPrefix : (n : ℕ) (xs : List ℕ) → IsPrefix (take n xs) xs
take-IsPrefix zero xs = tt
take-IsPrefix (suc n) [] = tt
take-IsPrefix (suc n) (x ∷ xs) = (refl, take-IsPrefix n xs)

-- A prefix that is not shorter is the whole.
pub IsPrefix-whole : (bs xs : List ℕ) → IsPrefix bs xs → length xs ≤ length bs → bs ≡ xs
IsPrefix-whole [] [] p le = refl
IsPrefix-whole [] (x ∷ xs) p le = absurd (omega arith)
IsPrefix-whole (b ∷ bs) [] p le = absurd p
IsPrefix-whole (b ∷ bs) (x ∷ xs) (e, p) le = rw (e, IsPrefix-whole bs xs p (omega arith)) refl

-- Laying one prefix over another.
pub lay_lem :
    (ds bs xs : List ℕ)
    → IsPrefix ds xs
    → IsPrefix bs xs
    → IsPrefix (lay ds bs) xs × (length ds ≤ length (lay ds bs))
unfolding lay
lay_lem [] bs xs p q = (q, omega arith)
lay_lem (d ∷ ds) bs [] p q = absurd p
lay_lem (d ∷ ds) [] (x ∷ xs) (e, p) q = let (r, le) = lay_lem ds [] xs p tt in ((e, r), omega arith)
lay_lem (d ∷ ds) (b ∷ bs) (x ∷ xs) (e, p) (f, q) =
    let (r, le) = lay_lem ds bs xs p q in ((e, r), omega arith)

-- What comes from an offset is written there, over a prefix that reaches the offset.
overwrite_lem :
    (bs : List ℕ) (at : ℕ) (ds xs : List ℕ)
    → IsPrefix bs xs
    → at ≤ length bs
    → IsPrefix ds (drop at xs)
    → IsPrefix (overwrite bs at ds) xs × (at + length ds ≤ length (overwrite bs at ds))
unfolding overwrite
overwrite_lem bs zero ds xs p le q = let (r, l) = lay_lem ds bs xs q p in (r, omega arith)
overwrite_lem [] (suc at) ds xs p le q = absurd (omega arith)
overwrite_lem (b ∷ bs) (suc at) ds [] p le q = absurd p
overwrite_lem (b ∷ bs) (suc at) ds (x ∷ xs) (e, p) le q =
    let (r, l) = overwrite_lem bs at ds xs p (omega arith) q in ((e, r), omega arith)

pub written_lem :
    (bs : List ℕ) (at : ℕ) (ds xs : List ℕ)
    → IsPrefix bs xs
    → at ≤ length bs
    → IsPrefix ds (drop at xs)
    → IsPrefix (written bs at ds) xs × (at + length ds ≤ length (written bs at ds))
unfolding written
written_lem bs at [] xs p le q = (p, omega (arith, le))
written_lem bs at (d ∷ ds) xs p le q = overwrite_lem bs at (d ∷ ds) xs p le q

-- A chunk that is read stays inside, and is not empty before the end.
pub read_lem :
    (n at : ℕ) (xs : List ℕ)
    → at ≤ length xs
    → (at + length (take n (drop at xs)) ≤ length xs)
      × (0 < n → at < length xs → 0 < length (take n (drop at xs)))
read_lem n (suc at) [] le = absurd (omega arith)
read_lem n (suc at) (x ∷ xs) le =
    let (a, b) = read_lem n at xs (omega arith) in (omega arith, λ p q. b p (omega arith))
read_lem zero zero xs le = (omega arith, λ p q. absurd (omega arith))
read_lem (suc n) zero [] le = (omega arith, λ p q. absurd (omega arith))
read_lem (suc n) zero (x ∷ xs) le =
    (omega (arith, (read_lem n zero xs (omega arith)).0), λ p q. omega arith)
