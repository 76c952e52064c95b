-- ===== src/Base/Maps.antt =====
-- A `map[K]V` as an association list whose first entry of a key counts, and a
-- `map[K]map[T]struct{}` as such a list of sets.
use mathlib.Core.Path.{◌≡◌, refl, ap, ◌∙◌}
use mathlib.Core.Logic.{inl, inr}
use mathlib.Core.List.{List, [], ◌∷◌}
use mathlib.Core.Option.{Option, none, some}
use Prim.Native.Nat.{ℕ, ◌+◌, ◌*◌}
use native.Mathlib.Omega.{arith}
use w4gns_logger4men.Base.Tests.{if◌then◌else◌, Bool-cases, length}
use w4gns_logger4men.Base.Eq.{Eq, ◌==◌}
use w4gns_logger4men.Base.Sets.{contains, insert, length-insert}

module _ {ℓ κ} {K : Type ℓ} {V : Type κ} ⦃e : Eq K⦄ where
  -- `v, ok := m[k]`
  unfoldable pub get : K → List (K × V) → Option V
  get k [] = none
  get k ((j, v) ∷ m) = if j == k then some v else get k m

  -- `m[k] = v`
  unfoldable pub put : K → V → List (K × V) → List (K × V)
  put k v [] = (k, v) ∷ []
  put k v ((j, w) ∷ m) = if j == k then (j, v) ∷ m else (j, w) ∷ put k v m

  -- `v := m[k]` at a missing key is the zero value `d`.
  unfoldable pub get_or : K → V → List (K × V) → V
  unfolding get
  get_or k d m = elim (get k m) [ none ↦ d | some v ↦ v ]

module _ {ℓ κ} {K : Type ℓ} {V : Type κ} ⦃e : Eq K⦄ where
  pub get-put :
      (k j : K) (v : V) (m : List (K × V))
      → get j (put k v m) ≡ (if k == j then some v else get j m)
  unfolding get put
  get-put k j v [] = refl
  get-put k j v ((i, w) ∷ m) =
      ground (arith, e.beq_iff k j, e.beq_iff i k, e.beq_iff i j, get-put k j v m)

  pub get_or-put :
      (k j : K) (d v : V) (m : List (K × V))
      → get_or j d (put k v m) ≡ (if k == j then v else get_or j d m)
  unfolding get_or
  get_or-put k j d v m = ground (arith, get-put k j v m)

-- `m[k]` where a missing key reads as the empty set, which is how the source reads its sets of sets.
module _ {ℓ κ} {K : Type ℓ} {A : Type κ} ⦃e : Eq K⦄ ⦃o : Eq A⦄ where
  unfoldable pub set_at : K → List (K × List A) → List A
  unfolding get_or
  set_at k m = get_or k [] m

  -- `if m[k] == nil { m[k] = make(...) }; m[k][a] = struct{}{}`
  unfoldable pub insert_at : K → A → List (K × List A) → List (K × List A)
  unfolding set_at
  insert_at k a m = put k (insert a (set_at k m)) m

  -- `for _, set := range m { total += len(set) }`
  unfoldable pub total_size : List (K × List A) → ℕ
  total_size [] = 0
  total_size ((k, s) ∷ m) = length s + total_size m

  -- `for k, set := range m { total += len(set) * weight(k) }`
  unfoldable pub total_weight : (K → ℕ) → List (K × List A) → ℕ
  total_weight weight [] = 0
  total_weight weight ((k, s) ∷ m) = length s * weight k + total_weight weight m

module _ {ℓ κ} {K : Type ℓ} {A : Type κ} ⦃e : Eq K⦄ ⦃o : Eq A⦄ where
  pub set_at-insert_at :
      (k j : K) (a : A) (m : List (K × List A))
      → set_at j (insert_at k a m) ≡ (if k == j then insert a (set_at k m) else set_at j m)
  unfolding set_at insert_at
  set_at-insert_at k j a m = get_or-put k j [] (insert a (set_at k m)) m

  set_at-cons :
      (k j : K) (t : List A) (m : List (K × List A))
      → set_at k ((j, t) ∷ m) ≡ (if j == k then t else set_at k m)
  unfolding set_at get
  set_at-cons k j t m = ground arith

  -- What a set of sets gains in size when one set is replaced.
  total_weight-put :
      (weight : K → ℕ) (k : K) (s : List A) (m : List (K × List A))
      → total_weight weight (put k s m) + length (set_at k m) * weight k
        ≡ total_weight weight m + length s * weight k
  unfolding total_weight put
  total_weight-put weight k s [] = unfold set_at get in omega arith
  total_weight-put weight k s ((j, t) ∷ m) = elim (Bool-cases (j == k)) [
    | inl here ↦
        let same : j ≡ k = (e.beq_iff j k).0 here in
        rw (set_at-cons, here, ap weight same) (omega arith)
    | inr there ↦ rw (set_at-cons, there) (omega (arith, total_weight-put weight k s m))
  ]

  pub total_weight-insert_at :
      (weight : K → ℕ) (k : K) (a : A) (m : List (K × List A))
      → total_weight weight (insert_at k a m)
        ≡ total_weight weight m + (if contains (set_at k m) a then 0 else weight k)
  unfolding insert_at
  total_weight-insert_at weight k a m =
      let gain = total_weight-put weight k (insert a (set_at k m)) m in
      elim (Bool-cases (contains (set_at k m) a)) [
        | inl old ↦
            let size : length (insert a (set_at k m)) ≡ length (set_at k m) =
              length-insert a (set_at k m) ∙ rw old refl in
            rw old (omega (arith, gain, ap (λ (n : ℕ). n * weight k) size))
        | inr new ↦
            let size : length (insert a (set_at k m)) ≡ length (set_at k m) + 1 =
              length-insert a (set_at k m) ∙ rw new refl in
            rw new (omega (arith, gain, ap (λ (n : ℕ). n * weight k) size))
      ]

  pub total_size-weight : (m : List (K × List A)) → total_size m ≡ total_weight (λ _. 1) m
  unfolding total_size total_weight
  total_size-weight [] = refl
  total_size-weight ((k, s) ∷ m) = omega (arith, total_size-weight m)

  pub total_size-insert_at :
      (k : K) (a : A) (m : List (K × List A))
      → total_size (insert_at k a m) ≡ total_size m + (if contains (set_at k m) a then 0 else 1)
  total_size-insert_at k a m =
      rw (total_size-weight, total_size-weight) (total_weight-insert_at (λ _. 1) k a m)
