-- ===== src/Text/Sort.antt =====
-- `sort.Strings` and what the sorted list keeps.
use w4gns_logger4men.Base.{
  ◌≡◌, refl, Bool, true, false, ◌&&◌, ◌||◌, List, [], ◌∷◌, ltb, nat_beq, if◌then◌else◌, arith, All,
  length, ◌+◌,
}
use w4gns_logger4men.Text.{Text}

-- The order of `sort.Strings`: bytewise, a prefix first.
unfoldable pub text_lt : Text → Text → Bool
text_lt [] [] = false
text_lt [] (b ∷ t) = true
text_lt (a ∷ s) [] = false
text_lt (a ∷ s) (b ∷ t) = ltb a b || nat_beq a b && text_lt s t

unfoldable pub insert_sorted : Text → List Text → List Text
unfolding text_lt
insert_sorted x [] = x ∷ []
insert_sorted x (y ∷ ys) = if text_lt y x then y ∷ insert_sorted x ys else x ∷ y ∷ ys

-- `sort.Strings`
unfoldable pub sort_texts : List Text → List Text
unfolding insert_sorted
sort_texts [] = []
sort_texts (x ∷ xs) = insert_sorted x (sort_texts xs)

text_lt_asym : (s t : Text) → text_lt s t ≡ true → text_lt t s ≡ false
unfolding text_lt
text_lt_asym [] [] h = refl
text_lt_asym [] (b ∷ t) h = refl
text_lt_asym (a ∷ s) [] h = absurd (ground arith)
text_lt_asym (a ∷ s) (b ∷ t) h = ground (arith, text_lt_asym s t)

-- The order is transitive, read as "not behind".
text_lt_trans : (s t u : Text) → text_lt t s ≡ false → text_lt u t ≡ false → text_lt u s ≡ false
unfolding text_lt
text_lt_trans [] [] [] h k = refl
text_lt_trans [] [] (c ∷ u) h k = refl
text_lt_trans [] (b ∷ t) [] h k = refl
text_lt_trans [] (b ∷ t) (c ∷ u) h k = refl
text_lt_trans (a ∷ s) [] u h k = absurd (ground arith)
text_lt_trans (a ∷ s) (b ∷ t) [] h k = absurd (ground arith)
text_lt_trans (a ∷ s) (b ∷ t) (c ∷ u) h k = ground (arith, text_lt_trans s t u)

-- No text stands before the first one.
abbrev pub Leads : Text → List Text → Type 0
Leads x = All (λ y. text_lt y x ≡ false)

abbrev pub IsSorted : List Text → Type 0
IsSorted [] = Unit
IsSorted (x ∷ xs) = Leads x xs × IsSorted xs

Leads-trans : (x y : Text) (ys : List Text) → text_lt y x ≡ false → Leads y ys → Leads x ys
Leads-trans x y [] h k = tt
Leads-trans x y (z ∷ zs) h (k, ks) = (text_lt_trans x y z h k, Leads-trans x y zs h ks)

module _ {κ} (P : Text → Type κ) where
  All-choose : (b : Bool) (xs ys : List Text) → All P xs → All P ys → All P (if b then xs else ys)
  All-choose true xs ys h k = h
  All-choose false xs ys h k = k

  pub All-insert_sorted : (x : Text) (xs : List Text) → P x → All P xs → All P (insert_sorted x xs)
  unfolding insert_sorted
  All-insert_sorted x [] p h = (p, tt)
  All-insert_sorted x (y ∷ ys) p (q, h) =
      All-choose (text_lt y x) _ _ (q, All-insert_sorted x ys p h) (p, (q, h))

  pub All-sort_texts : (xs : List Text) → All P xs → All P (sort_texts xs)
  unfolding sort_texts
  All-sort_texts [] h = tt
  All-sort_texts (x ∷ xs) (p, h) = All-insert_sorted x (sort_texts xs) p (All-sort_texts xs h)

IsSorted-choose :
    (b : Bool) (xs ys : List Text)
    → (b ≡ true → IsSorted xs)
    → (b ≡ false → IsSorted ys)
    → IsSorted (if b then xs else ys)
IsSorted-choose true xs ys h k = h refl
IsSorted-choose false xs ys h k = k refl

insert_sorted-IsSorted : (x : Text) (xs : List Text) → IsSorted xs → IsSorted (insert_sorted x xs)
unfolding insert_sorted
insert_sorted-IsSorted x [] h = (tt, tt)
insert_sorted-IsSorted x (y ∷ ys) (l, h) =
    IsSorted-choose (text_lt y x) _ _
      (λ before. (
        All-insert_sorted (λ z. text_lt z y ≡ false) x ys (text_lt_asym y x before) l,
        insert_sorted-IsSorted x ys h,
      ))
      (λ behind. ((behind, Leads-trans x y ys behind l), (l, h)))

pub sort_texts-IsSorted : (xs : List Text) → IsSorted (sort_texts xs)
unfolding sort_texts
sort_texts-IsSorted [] = tt
sort_texts-IsSorted (x ∷ xs) = insert_sorted-IsSorted x (sort_texts xs) (sort_texts-IsSorted xs)

length-insert_sorted : (x : Text) (xs : List Text) → length (insert_sorted x xs) ≡ length xs + 1
unfolding insert_sorted
length-insert_sorted x [] = refl
length-insert_sorted x (y ∷ ys) = ground (arith, length-insert_sorted x ys)

pub length-sort_texts : (xs : List Text) → length (sort_texts xs) ≡ length xs
unfolding sort_texts
length-sort_texts [] = refl
length-sort_texts (x ∷ xs) =
    ground (arith, length-insert_sorted x (sort_texts xs), length-sort_texts xs)
