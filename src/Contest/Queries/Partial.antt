-- ===== src/Contest/Queries/Partial.antt =====
-- `checkPartial`: the calls that the panel lists.
use w4gns_logger4men.Base.{
  ℕ, zero, suc, ◌≤◌, ◌≡◌, refl, Bool, true, false, List, [], ◌∷◌, arith, ltb, if◌then◌else◌, length,
  take, map, All,
}
use w4gns_logger4men.Base.Eq.{◌==◌}
use w4gns_logger4men.Text.{Text, text_eq, clean, is_empty, contains_text}
use w4gns_logger4men.Contest.Types.{ContestState}
use w4gns_logger4men.Text.Sort.{text_lt, sort_texts, IsSorted, All-sort_texts, sort_texts-IsSorted}
use w4gns_logger4men.Contest.Queries.{partial_matches, check_partial}

module _ {κ} (P : Text → Type κ) where
  All-take : (n : ℕ) (xs : List Text) → All P xs → All P (take n xs)
  All-take zero xs h = tt
  All-take (suc n) [] h = tt
  All-take (suc n) (x ∷ xs) (p, h) = (p, All-take n xs h)

take-IsSorted : (n : ℕ) (xs : List Text) → IsSorted xs → IsSorted (take n xs)
take-IsSorted zero xs h = tt
take-IsSorted (suc n) [] h = tt
take-IsSorted (suc n) (x ∷ xs) (l, h) =
    (All-take (λ z. text_lt z x ≡ false) n xs l, take-IsSorted n xs h)

length-take_le : (n : ℕ) (xs : List Text) → length (take n xs) ≤ n
length-take_le zero xs = omega arith
length-take_le (suc n) [] = omega arith
length-take_le (suc n) (x ∷ xs) = omega (arith, length-take_le n xs)

-- The call has the fragment in it and is not the fragment itself.
abbrev pub Matches : Text → Text → Type 0
Matches fragment call = (contains_text call fragment ≡ true) × ((call == fragment) ≡ false)

Matches-if :
    (fragment call : Text) (rest : List Text)
    → All (Matches fragment) rest
    → All (Matches fragment) (
        if call == fragment
        then rest
        else (if contains_text call fragment then call ∷ rest else rest))
Matches-if fragment call rest h = go (call == fragment) (contains_text call fragment) refl refl
  where
    go :
        (same inside : Bool)
        → (call == fragment) ≡ same
        → contains_text call fragment ≡ inside
        → All (Matches fragment) (if same then rest else (if inside then call ∷ rest else rest))
    go true inside p q = h
    go false true p q = ((q, p), h)
    go false false p q = h

partial_matches-Matches :
    (fragment : Text) (calls : List Text) → All (Matches fragment) (partial_matches fragment calls)
unfolding partial_matches
partial_matches-Matches fragment [] = tt
partial_matches-Matches fragment (call ∷ calls) =
    Matches-if fragment call (partial_matches fragment calls)
      (partial_matches-Matches fragment calls)

-- What `checkPartial` promises of the list it shows.
abbrev pub IsListing : Text → ℕ → List Text → Type 0
IsListing fragment limit calls =
    IsSorted calls × All (Matches fragment) calls × (length calls ≤ limit)

capped-IsListing :
    (fragment : Text) (limit : ℕ) (calls : List Text)
    → All (Matches fragment) calls
    → IsSorted calls
    → IsListing fragment limit (if ltb limit (length calls) then take limit calls else calls)
capped-IsListing fragment limit calls h sorted = go (ltb limit (length calls)) refl
  where
    go :
        (b : Bool)
        → ltb limit (length calls) ≡ b
        → IsListing fragment limit (if b then take limit calls else calls)
    go true p = (
      take-IsSorted limit calls sorted,
      All-take (Matches fragment) limit calls h,
      length-take_le limit calls,
    )
    go false p = (sorted, h, ground arith)

IsListing-if :
    (blank : Bool) (fragment : Text) (limit : ℕ) (calls : List Text)
    → IsListing fragment limit calls
    → IsListing fragment limit (if blank then [] else calls)
IsListing-if true fragment limit calls h = (tt, tt, omega arith)
IsListing-if false fragment limit calls h = h

-- The calls that Check Partial shows are sorted, are no more than the limit, and each has the
-- cleaned fragment in it without being the fragment itself.
pub check_partial-IsListing :
    (fragment : Text) (limit : ℕ) (c : ContestState)
    → IsListing (clean fragment) limit (check_partial fragment limit c)
unfolding check_partial
check_partial-IsListing fragment limit c =
    let f = clean fragment in
    let found = partial_matches f (map (λ e. e.0) c.by_call) in
    IsListing-if (is_empty f) f limit _ (
      capped-IsListing f limit (sort_texts found)
        (All-sort_texts (Matches f) found (partial_matches-Matches f _))
        (sort_texts-IsSorted found))
