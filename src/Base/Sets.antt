-- ===== src/Base/Sets.antt =====
-- A `map[T]struct{}` as a list without repetitions, in the order of insertion.
use mathlib.Core.Path.{◌≡◌, refl}
use mathlib.Core.Logic.{inl, inr}
use mathlib.Core.Bool.{Bool, true, false, ◌||◌}
use mathlib.Core.List.{List, [], ◌∷◌, ◌++◌}
use Prim.Native.Nat.{◌+◌}
use native.Mathlib.Omega.{arith}
use w4gns_logger4men.Base.Tests.{if◌then◌else◌, Bool-cases, length, length-append}
use w4gns_logger4men.Base.Eq.{Eq, ◌==◌, beq_refl}

module _ {ℓ} {A : Type ℓ} ⦃e : Eq A⦄ where
  -- `_, ok := set[a]`
  unfoldable pub contains : List A → A → Bool
  contains [] a = false
  contains (x ∷ xs) a = x == a || contains xs a

  -- `set[a] = struct{}{}`
  unfoldable pub insert : A → List A → List A
  insert a xs = if contains xs a then xs else xs ++ a ∷ []

  -- No element stands twice.
  abbrev pub Distinct : List A → Type 0
  Distinct [] = Unit {0}
  Distinct (x ∷ xs) = (contains xs x ≡ false) × Distinct xs

  -- Every element of the first list is in the second.
  abbrev pub Within : List A → List A → Type 0
  Within [] ys = Unit {0}
  Within (x ∷ xs) ys = (contains ys x ≡ true) × Within xs ys

module _ {ℓ} {A : Type ℓ} ⦃e : Eq A⦄ where
  pub contains-append :
      (xs ys : List A) (a : A) → contains (xs ++ ys) a ≡ (contains xs a || contains ys a)
  unfolding contains
  contains-append [] ys a = refl
  contains-append (x ∷ xs) ys a = ground (arith, contains-append xs ys a)

  pub contains-insert :
      (a b : A) (xs : List A) → contains (insert a xs) b ≡ (a == b || contains xs b)
  unfolding insert contains
  contains-insert a b xs = ground (arith, contains-append xs (a ∷ []) b, e.beq_iff a b)

  pub length-insert :
      (a : A) (xs : List A)
      → length (insert a xs) ≡ (if contains xs a then length xs else length xs + 1)
  unfolding insert
  length-insert a xs = ground (arith, length-append xs (a ∷ []))

  pub insert_of_contains : (a : A) (xs : List A) → contains xs a ≡ true → insert a xs ≡ xs
  unfolding insert
  insert_of_contains a xs h = ground arith

  Distinct-append :
      (a : A) (xs : List A) → Distinct xs → contains xs a ≡ false → Distinct (xs ++ a ∷ [])
  unfolding contains
  Distinct-append a [] d h = (refl, tt)
  Distinct-append a (x ∷ xs) (n, d) h = (
    ground (arith, contains-append xs (a ∷ []) x, e.beq_iff x a, e.beq_iff a x),
    Distinct-append a xs d (ground arith),
  )

  pub insert-Distinct : (a : A) (xs : List A) → Distinct xs → Distinct (insert a xs)
  unfolding insert
  insert-Distinct a xs d = elim (Bool-cases (contains xs a)) [
    | inl old ↦ rw old d
    | inr new ↦ rw new (Distinct-append a xs d new)
  ]

  pub Within-mono :
      (xs ys zs : List A)
      → ((b : A) → contains ys b ≡ true → contains zs b ≡ true)
      → Within xs ys
      → Within xs zs
  Within-mono [] ys zs f w = tt
  Within-mono (x ∷ xs) ys zs f (h, w) = (f x h, Within-mono xs ys zs f w)

  pub contains_of_Within :
      (xs ys : List A) (a : A) → Within xs ys → contains xs a ≡ true → contains ys a ≡ true
  unfolding contains
  contains_of_Within [] ys a w h = cc
  contains_of_Within (x ∷ xs) ys a (k, w) h =
      ground (arith, e.beq_iff x a, contains_of_Within xs ys a w)

  pub Within-append : (xs ys zs : List A) → Within xs zs → Within ys zs → Within (xs ++ ys) zs
  Within-append [] ys zs w v = v
  Within-append (x ∷ xs) ys zs (h, w) v = (h, Within-append xs ys zs w v)

  pub Within-insert : (a : A) (xs ys : List A) → Within xs ys → Within (insert a xs) (insert a ys)
  unfolding insert
  Within-insert a xs ys w =
      let more =
        Within-mono xs ys (insert a ys) (λ b h. ground (arith, contains-insert a b ys)) w in
      elim (Bool-cases (contains xs a)) [
        | inl old ↦ rw old more
        | inr new ↦ rw new (
            Within-append xs (a ∷ []) (insert a ys) more
              (ground (arith, contains-insert a a ys, beq_refl a), tt))
      ]
