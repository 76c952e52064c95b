-- ===== src/Contest/Queries/Complete.antt =====
-- `checkPartial`: no worked call that should be listed is left out.
use w4gns_logger4men.Base.{
  ℕ, zero, suc, ◌≡◌, ◌⊎◌, inl, inr, refl, ap, ◌∙◌, Bool, true, false, ◌||◌, List, [], ◌∷◌, arith,
  ltb, if◌then◌else◌, length, take, map, All, Bool-cases,
}
use w4gns_logger4men.Base.Eq.{◌==◌}
use w4gns_logger4men.Base.Sets.{contains}
use w4gns_logger4men.Text.{Text, text_eq, clean, is_empty, contains_text}
use w4gns_logger4men.Contest.Types.{ContestState}
use w4gns_logger4men.Text.Sort.{text_lt, insert_sorted, sort_texts, IsSorted, sort_texts-IsSorted}
use w4gns_logger4men.Contest.Queries.{partial_matches, check_partial}

module _ {κ} (P : Text → Type κ) where
  All-contains : (xs : List Text) (c : Text) → All P xs → contains xs c ≡ true → P c
  unfolding contains
  All-contains [] c h k = absurd (ground arith)
  All-contains (x ∷ xs) c (p, h) k = elim (Bool-cases (x == c)) [
    | inl same ↦ rw (← (text_eq.beq_iff x c).0 same) p
    | inr other ↦ All-contains xs c h (ground (arith, k, other))
  ]

contains-if :
    (b : Bool) (xs ys : List Text) (c : Text) (v : Bool)
    → contains xs c ≡ v
    → contains ys c ≡ v
    → contains (if b then xs else ys) c ≡ v
contains-if true xs ys c v h k = h
contains-if false xs ys c v h k = k

swap_or : (a b c : Bool) → (b || (a || c)) ≡ (a || (b || c))
swap_or a b c = ground arith

contains-insert_sorted :
    (x : Text) (xs : List Text) (c : Text)
    → contains (insert_sorted x xs) c ≡ (x == c || contains xs c)
unfolding insert_sorted contains
contains-insert_sorted x [] c = refl
contains-insert_sorted x (y ∷ ys) c =
    contains-if (text_lt y x) (y ∷ insert_sorted x ys) (x ∷ y ∷ ys) c _
      (ap (λ b. y == c || b) (contains-insert_sorted x ys c)
        ∙ swap_or (x == c) (y == c) (contains ys c))
      refl

contains-sort_texts : (xs : List Text) (c : Text) → contains (sort_texts xs) c ≡ contains xs c
unfolding sort_texts contains
contains-sort_texts [] c = refl
contains-sort_texts (x ∷ xs) c =
    contains-insert_sorted x (sort_texts xs) c ∙ ap (λ b. x == c || b) (contains-sort_texts xs c)

module _ (fragment c : Text) (inside : contains_text c fragment ≡ true)
    (other : (c == fragment) ≡ false) where
  kept_if :
      (call : Text) (rest : List Text)
      → (call == c || contains rest c) ≡ true
      → contains
          (if call == fragment
            then rest
            else if contains_text call fragment
            then call ∷ rest
            else rest)
          c
        ≡ true
  unfolding contains
  kept_if call rest h = elim (Bool-cases (call == c)) [
    | inl same ↦
        let here : call ≡ c = (text_eq.beq_iff call c).0 same in
        rw (here, other, inside) (ground (arith, text_eq.beq_iff c c))
    | inr apart ↦
        let later : contains rest c ≡ true = ground (arith, h, apart) in
        contains-if (call == fragment) rest _ c true later (
          contains-if (contains_text call fragment) (call ∷ rest) rest c true
            (ground (arith, later)) later)
  ]

  contains-partial_matches :
      (calls : List Text)
      → contains calls c ≡ true
      → contains (partial_matches fragment calls) c ≡ true
  unfolding partial_matches contains
  contains-partial_matches [] h = h
  contains-partial_matches (call ∷ calls) h =
      kept_if call (partial_matches fragment calls) (elim (Bool-cases (contains calls c)) [
        | inl later ↦ ground (arith, contains-partial_matches calls later)
        | inr none ↦ ground (arith, h, none)
      ])

-- The text stands in the listing, or the listing is full and nothing in it stands behind the text.
abbrev pub IsCovered : Text → ℕ → List Text → Type 0
IsCovered c limit calls =
    (contains calls c ≡ true) ⊎ ((length calls ≡ limit) × All (λ y. text_lt c y ≡ false) calls)

take-IsCovered :
    (limit : ℕ) (c : Text) (xs : List Text)
    → IsSorted xs
    → contains xs c ≡ true
    → IsCovered c limit (take limit xs)
unfolding contains
take-IsCovered zero c xs s h = inr (refl, tt)
take-IsCovered (suc n) c [] s h = absurd (ground arith)
take-IsCovered (suc n) c (x ∷ xs) (leads, s) h = elim (Bool-cases (x == c)) [
  | inl same ↦ inl (ground (arith, same))
  | inr other ↦
      let later : contains xs c ≡ true = ground (arith, h, other) in
      elim (take-IsCovered n c xs s later) [
        | inl found ↦ inl (ground (arith, found))
        | inr full ↦ inr (
          omega (arith, full.0),
          (All-contains (λ y. text_lt y x ≡ false) xs c leads later, full.1),
        )
      ]
]

capped-IsCovered :
    (b : Bool) (limit : ℕ) (c : Text) (xs : List Text)
    → IsSorted xs
    → contains xs c ≡ true
    → IsCovered c limit (if b then take limit xs else xs)
capped-IsCovered true limit c xs s h = take-IsCovered limit c xs s h
capped-IsCovered false limit c xs s h = inl h

-- Where the fragment is not blank, a worked call that has the cleaned fragment in it without being
-- the fragment itself is in the list that Check Partial shows, or that list has as many calls as the
-- limit and none of them stands behind that call.
pub check_partial-IsCovered :
    (fragment : Text) (limit : ℕ) (c : ContestState) (call : Text)
    → is_empty (clean fragment) ≡ false
    → contains (map (λ e. e.0) c.by_call) call ≡ true
    → contains_text call (clean fragment) ≡ true
    → (call == clean fragment) ≡ false
    → IsCovered call limit (check_partial fragment limit c)
unfolding check_partial
check_partial-IsCovered fragment limit c call full worked inside other =
    let f = clean fragment in
    let found = partial_matches f (map (λ e. e.0) c.by_call) in
    rw full (
      capped-IsCovered (ltb limit (length (sort_texts found))) limit call (sort_texts found)
        (sort_texts-IsSorted found)
        (contains-sort_texts found call
          ∙ contains-partial_matches f call inside other (map (λ e. e.0) c.by_call) worked))
