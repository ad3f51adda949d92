-- ===== src/Minions/Select/Grouped.antt =====
-- The instances of each pool, as they are grouped for the check of OSMorphing pools.
use coriolis.Prelude.{
  ℕ, suc, ◌+◌, ◌==◌, ==→≡, ==_refl, Bool, Bool-cases, true, false, ◌||◌, if◌then◌else◌, length, all,
  any, Dict, List, [], ◌∷◌, ◌++◌, ◌≡◌, refl, sym, ◌∙◌, arith, inl, inr,
}
use coriolis.Minions.Transfer.{add_instance, instances_by_pool}

-- How many entries map to the pool.
abbrev pub count_of : ℕ → Dict ℕ → ℕ
count_of p [] = 0
count_of p ((i, q) ∷ entries) = if q == p then suc (count_of p entries) else count_of p entries

abbrev size : ℕ → Dict (List ℕ) → ℕ
size p [] = 0
size p ((q, is) ∷ groups) = if q == p then length is else size p groups

abbrev has : ℕ → Dict (List ℕ) → Bool
has p groups = any (λ g. g.0 == p) groups

abbrev uses : ℕ → Dict ℕ → Bool
uses p entries = any (λ e. e.1 == p) entries

abbrev IsKeyed : Dict (List ℕ) → Type 0
IsKeyed [] = Unit {0}
IsKeyed ((p, is) ∷ groups) = (has p groups ≡ false) × IsKeyed groups

length-snoc : (is : List ℕ) (i : ℕ) → length (is ++ (i ∷ [])) ≡ suc (length is)
length-snoc [] i = refl
length-snoc (j ∷ is) i = rw (length-snoc is i) refl

size-add :
    (p q i : ℕ) (g : Dict (List ℕ))
    → size p (add_instance q i g) ≡ (if q == p then suc (size p g) else size p g)
unfolding add_instance
size-add p q i [] = refl
size-add p q i ((r, is) ∷ g) = ground (arith, size-add p q i g, length-snoc is i)

has-add : (p q i : ℕ) (g : Dict (List ℕ)) → has p (add_instance q i g) ≡ (q == p || has p g)
unfolding add_instance any
has-add p q i [] = refl
has-add p q i ((r, is) ∷ g) = ground (arith, has-add p q i g)

add_instance-IsKeyed : (q i : ℕ) (g : Dict (List ℕ)) → IsKeyed g → IsKeyed (add_instance q i g)
unfolding add_instance any
add_instance-IsKeyed q i [] k = (refl, tt)
add_instance-IsKeyed q i ((r, is) ∷ g) k = elim (Bool-cases (r == q)) [
  | inl e ↦ rw e k
  | inr e ↦ rw e (ground (arith, has-add r q i g), add_instance-IsKeyed q i g k.1)
]

size-by_pool :
    (p : ℕ) (ds : Dict ℕ) (g : Dict (List ℕ))
    → size p (instances_by_pool ds g) ≡ count_of p ds + size p g
unfolding instances_by_pool
size-by_pool p [] g = omega arith
size-by_pool p ((i, q) ∷ ds) g =
    ground (arith, size-by_pool p ds (add_instance q i g), size-add p q i g)

has-by_pool :
    (p : ℕ) (ds : Dict ℕ) (g : Dict (List ℕ))
    → has p (instances_by_pool ds g) ≡ (uses p ds || has p g)
unfolding instances_by_pool any
has-by_pool p [] g = refl
has-by_pool p ((i, q) ∷ ds) g =
    ground (arith, has-by_pool p ds (add_instance q i g), has-add p q i g)

instances_by_pool-IsKeyed :
    (ds : Dict ℕ) (g : Dict (List ℕ)) → IsKeyed g → IsKeyed (instances_by_pool ds g)
unfolding instances_by_pool
instances_by_pool-IsKeyed [] g k = k
instances_by_pool-IsKeyed ((i, q) ∷ ds) g k =
    instances_by_pool-IsKeyed ds (add_instance q i g) (add_instance-IsKeyed q i g k)

both_ways : (a b : Bool) → (a ≡ true → b ≡ true) → (b ≡ true → a ≡ true) → a ≡ b
both_ways true b f g = sym (f refl)
both_ways false true f g = g refl
both_ways false false f g = refl

module _ (test : (pool_id machines : ℕ) → Bool) where
  abbrev pub all_groups : Dict (List ℕ) → Bool
  all_groups groups = all (λ g. test g.0 (length g.1)) groups

  groups-each :
      (g : Dict (List ℕ))
      → all_groups g ≡ true
      → (p : ℕ) → has p g ≡ true
      → test p (size p g) ≡ true
  unfolding all any
  groups-each [] h p k = absurd (cc)
  groups-each ((q, is) ∷ g) h p k = elim (Bool-cases (q == p)) [
    | inl e ↦ rw (e, ← ==→≡ q p e) (ground (arith, h))
    | inr e ↦ rw e (groups-each g (ground (arith, h)) p (ground (arith, k, e)))
  ]

  each-groups :
      (g : Dict (List ℕ))
      → IsKeyed g
      → ((p : ℕ) → has p g ≡ true → test p (size p g) ≡ true)
      → all_groups g ≡ true
  unfolding all any
  each-groups [] k h = refl
  each-groups ((q, is) ∷ g) k h =
      let here : has q ((q, is) ∷ g) ≡ true = rw (==_refl q) refl in
      let first : test q (length is) ≡ true = rw (==_refl q) at (h q here) in
      let rest : all_groups g ≡ true = each-groups g k.1 λ p e. elim (Bool-cases (q == p)) [
        | inl d ↦ let e' : has q g ≡ true = rw (==→≡ q p d) e in absurd (cc)
        | inr d ↦ rw (d) at (h p (rw d e))
      ] in
      ground (arith, first, rest)

  entries-each :
      (n : ℕ → ℕ) (ds : Dict ℕ)
      → all (λ e. test e.1 (n e.1)) ds ≡ true
      → (p : ℕ) → uses p ds ≡ true
      → test p (n p) ≡ true
  unfolding all any
  entries-each n [] h p k = absurd (cc)
  entries-each n ((i, q) ∷ ds) h p k = elim (Bool-cases (q == p)) [
    | inl e ↦ rw (← ==→≡ q p e) (ground (arith, h))
    | inr e ↦ entries-each n ds (ground (arith, h)) p (ground (arith, k, e))
  ]

  each-entries :
      (n : ℕ → ℕ) (ds : Dict ℕ)
      → ((p : ℕ) → uses p ds ≡ true → test p (n p) ≡ true)
      → all (λ e. test e.1 (n e.1)) ds ≡ true
  unfolding all any
  each-entries n [] h = refl
  each-entries n ((i, q) ∷ ds) h =
      let first = h q (rw (==_refl q) refl) in
      let rest = each-entries n ds λ p e. h p (ground (arith, e)) in ground (arith, first, rest)

  pub groups-entries :
      (ds : Dict ℕ)
      → all_groups (instances_by_pool ds []) ≡ all (λ e. test e.1 (count_of e.1 ds)) ds
  unfolding any
  groups-entries ds =
      let g = instances_by_pool ds [] in
      let sizes : (p : ℕ) → size p g ≡ count_of p ds = λ p. size-by_pool p ds [] ∙ omega arith in
      let used : (p : ℕ) → has p g ≡ uses p ds = λ p. ground (arith, has-by_pool p ds []) in
      both_ways (all_groups g) (all (λ e. test e.1 (count_of e.1 ds)) ds)
        (λ h.
          each-entries (λ p. count_of p ds) ds
            λ p k. rw (← sizes p) (groups-each g h p (used p ∙ k)))
        λ h.
          each-groups g (instances_by_pool-IsKeyed ds [] tt)
            λ p k. rw (sizes p) (entries-each (λ q. count_of q ds) ds h p (sym (used p) ∙ k))
