-- ===== src/Minions/Release/Grouped.antt =====
-- Machines that are grouped by their pools are the same machines.
use coriolis.Prelude.{
  ℕ, ◌==◌, Bool, Bool-cases, false, ◌||◌, elem, select, All, Dict, List, [], ◌∷◌, ◌++◌, ◌≡◌, refl,
  arith, inl, inr,
}
use mathlib.Core.List.{append_assoc}
use coriolis.Minions.{Machine}
use coriolis.Minions.Rows.{IsFresh, IsDistinct, ids}
use coriolis.Minions.Release.{add_to_pool, by_pool}

abbrev pub flat : Dict (List Machine) → List Machine
flat [] = []
flat ((pool_id, ms) ∷ pools) = ms ++ flat pools

module _ (P : Machine → Type 0) where
  pub All-left : (xs ys : List Machine) → All P (xs ++ ys) → All P xs
  All-left [] ys h = tt
  All-left (x ∷ xs) ys h = (h.0, All-left xs ys h.1)

  pub All-right : (xs ys : List Machine) → All P (xs ++ ys) → All P ys
  All-right [] ys h = h
  All-right (x ∷ xs) ys h = All-right xs ys h.1

  All-both : (xs ys : List Machine) → All P xs → All P ys → All P (xs ++ ys)
  All-both [] ys h k = k
  All-both (x ∷ xs) ys h k = (h.0, All-both xs ys h.1 k)

  All-add :
      (m : Machine) (pools : Dict (List Machine))
      → P m
      → All P (flat pools)
      → All P (flat (add_to_pool m pools))
  unfolding add_to_pool
  All-add m [] p h = (p, tt)
  All-add m ((pool_id, ms) ∷ pools) p h =
      let left = All-left ms (flat pools) h in
      let right = All-right ms (flat pools) h in
      elim (Bool-cases (pool_id == m.pool_id)) [
        | inl q ↦
            rw q (All-both (ms ++ (m ∷ [])) (flat pools) (All-both ms (m ∷ []) left (p, tt)) right)
        | inr q ↦ rw q (All-both ms (flat (add_to_pool m pools)) left (All-add m pools p right))
      ]

  pub All-by_pool :
      (ms : List Machine) (pools : Dict (List Machine))
      → All P ms
      → All P (flat pools)
      → All P (flat (by_pool ms pools))
  unfolding by_pool
  All-by_pool [] pools h k = k
  All-by_pool (m ∷ ms) pools h k = All-by_pool ms (add_to_pool m pools) h.1 (All-add m pools h.0 k)

pub IsDistinct-right : (xs ys : List Machine) → IsDistinct (xs ++ ys) → IsDistinct ys
IsDistinct-right [] ys d = d
IsDistinct-right (x ∷ xs) ys d = IsDistinct-right xs ys d.1

pub IsDistinct-left : (xs ys : List Machine) → IsDistinct (xs ++ ys) → IsDistinct xs
IsDistinct-left [] ys d = tt
IsDistinct-left (x ∷ xs) ys d =
    (All-left (λ m. (m.id == x.id) ≡ false) xs ys d.0, IsDistinct-left xs ys d.1)

IsDistinct-insert :
    (m : Machine) (xs ys : List Machine)
    → IsFresh m.id (xs ++ ys)
    → IsDistinct (xs ++ ys)
    → IsDistinct (xs ++ (m ∷ ys))
IsDistinct-insert m [] ys f d = (f, d)
IsDistinct-insert m (x ∷ xs) ys f d =
    let P : Machine → Type 0 = λ u. (u.id == x.id) ≡ false in
    let apart : (m.id == x.id) ≡ false = ground arith in
    (
      All-both P xs (m ∷ ys) (All-left P xs ys d.0) (apart, All-right P xs ys d.0),
      IsDistinct-insert m xs ys f.1 d.1,
    )

IsDistinct-under :
    (m : Machine) (xs ys zs : List Machine)
    → IsFresh m.id xs
    → ((i : ℕ) → (m.id == i) ≡ false → IsFresh i ys → IsFresh i zs)
    → IsDistinct zs
    → IsDistinct (xs ++ ys)
    → IsDistinct (xs ++ zs)
IsDistinct-under m [] ys zs n f e d = e
IsDistinct-under m (x ∷ xs) ys zs n f e d =
    let P : Machine → Type 0 = λ u. (u.id == x.id) ≡ false in
    let apart : (m.id == x.id) ≡ false = ground arith in
    (
      All-both P xs zs (All-left P xs ys d.0) (f x.id apart (All-right P xs ys d.0)),
      IsDistinct-under m xs ys zs n.1 f e d.1,
    )

IsDistinct-add :
    (m : Machine) (pools : Dict (List Machine))
    → IsFresh m.id (flat pools)
    → IsDistinct (flat pools)
    → IsDistinct (flat (add_to_pool m pools))
unfolding add_to_pool
IsDistinct-add m [] f d = (tt, tt)
IsDistinct-add m ((pool_id, ms) ∷ pools) f d = elim (Bool-cases (pool_id == m.pool_id)) [
  | inl q ↦ rw (q, append_assoc ms (m ∷ []) (flat pools)) (IsDistinct-insert m ms (flat pools) f d)
  | inr q ↦
      let P : Machine → Type 0 = λ u. (u.id == m.id) ≡ false in
      rw q (
        IsDistinct-under m ms (flat pools) (flat (add_to_pool m pools))
          (All-left P ms (flat pools) f) (λ i a h. All-add (λ u. (u.id == i) ≡ false) m pools a h)
          (IsDistinct-add m pools (All-right P ms (flat pools) f)
            (IsDistinct-right ms (flat pools) d))
          d)
]

IsFresh-kept :
    (m : Machine) (pools : Dict (List Machine)) (ms : List Machine)
    → IsFresh m.id ms
    → All (λ u. IsFresh u.id (flat pools)) ms
    → All (λ u. IsFresh u.id (flat (add_to_pool m pools))) ms
IsFresh-kept m pools [] n f = tt
IsFresh-kept m pools (u ∷ ms) n f =
    let apart : (m.id == u.id) ≡ false = ground arith in
    (All-add (λ v. (v.id == u.id) ≡ false) m pools apart f.0, IsFresh-kept m pools ms n.1 f.1)

All_tt : (ms : List Machine) → All (λ m. Unit {0}) ms
All_tt [] = tt
All_tt (m ∷ ms) = (tt, All_tt ms)

IsDistinct-by_pool :
    (ms : List Machine) (pools : Dict (List Machine))
    → IsDistinct ms
    → All (λ m. IsFresh m.id (flat pools)) ms
    → IsDistinct (flat pools)
    → IsDistinct (flat (by_pool ms pools))
unfolding by_pool
IsDistinct-by_pool [] pools d f e = e
IsDistinct-by_pool (m ∷ ms) pools d f e =
    IsDistinct-by_pool ms (add_to_pool m pools) d.1 (IsFresh-kept m pools ms d.0 f.1)
      (IsDistinct-add m pools f.0 e)

pub by_pool-IsDistinct : (ms : List Machine) → IsDistinct ms → IsDistinct (flat (by_pool ms []))
by_pool-IsDistinct ms d = IsDistinct-by_pool ms [] d (All_tt ms) tt

module _ (p : Machine → Bool) (j : ℕ) where
  -- A machine of the list that passes the test has the identifier.
  abbrev pub has : List Machine → Bool
  has ms = elem j (ids (select p ms))

  pub has-none : has [] ≡ false
  unfolding select elem
  has-none = refl

  pub has-append : (xs ys : List Machine) → has (xs ++ ys) ≡ (has xs || has ys)
  unfolding select elem
  has-append [] ys = refl
  has-append (x ∷ xs) ys = ground (arith, has-append xs ys)

  has-add :
      (m : Machine) (pools : Dict (List Machine))
      → has (flat (add_to_pool m pools)) ≡ (has (m ∷ []) || has (flat pools))
  unfolding add_to_pool
  has-add m [] = rw has-none (ground arith)
  has-add m ((pool_id, ms) ∷ pools) = elim (Bool-cases (pool_id == m.pool_id)) [
    | inl q ↦
        rw
          (
            q,
            has-append (ms ++ (m ∷ [])) (flat pools),
            has-append ms (m ∷ []),
            has-append ms (flat pools),
          )
          (ground arith)
    | inr q ↦
        rw
          (
            q,
            has-append ms (flat (add_to_pool m pools)),
            has-add m pools,
            has-append ms (flat pools),
          )
          (ground arith)
  ]

  pub has-by_pool :
      (ms : List Machine) (pools : Dict (List Machine))
      → has (flat (by_pool ms pools)) ≡ (has ms || has (flat pools))
  unfolding by_pool
  has-by_pool [] pools = rw has-none refl
  has-by_pool (m ∷ ms) pools =
      rw (has-by_pool ms (add_to_pool m pools), has-add m pools, has-append (m ∷ []) ms)
        (ground arith)
