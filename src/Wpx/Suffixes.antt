-- ===== src/Wpx/Suffixes.antt =====
-- The suffixes that name no area, such as /P and /MM.
use w4gns_logger4men.Base.{
  ℕ, ◌≡◌, refl, sym, ap, ◌∙◌, Bool, true, false, ◌&&◌, ◌||◌, List, [], ◌∷◌, ◌++◌, arith,
  if◌then◌else◌, All, append-nil,
}
use w4gns_logger4men.Text.{
  Text, within, is_space, upper_byte, to_upper, trim_left, trim_right, trim_space, is_empty, clean,
  in_table,
}
use w4gns_logger4men.Wpx.{
  split_slash, segments, non_qualifying, qualifying, head_or_empty, choose_prefix, wpx_prefix,
}

-- A byte of a cleaned callsign: a capital letter, a digit or a slash.
abbrev pub is_call_byte : ℕ → Bool
is_call_byte c = within b'/' b'9' c || within b'A' b'Z' c

abbrev pub is_call_text : Text → Bool
is_call_text [] = true
is_call_text (c ∷ s) = is_call_byte c && is_call_text s

to_upper-call : (s : Text) → is_call_text s ≡ true → to_upper s ≡ s
unfolding to_upper upper_byte
to_upper-call [] h = refl
to_upper-call (c ∷ s) h = ground (arith, to_upper-call s)

trim_right-call : (s : Text) → is_call_text s ≡ true → trim_right s ≡ s
unfolding trim_right is_space
trim_right-call [] h = refl
trim_right-call (c ∷ s) h = ground (arith, trim_right-call s)

trim_left-call : (s : Text) → is_call_text s ≡ true → trim_left s ≡ s
unfolding trim_left is_space
trim_left-call [] h = refl
trim_left-call (c ∷ s) h = ground arith

clean-call : (s : Text) → is_call_text s ≡ true → clean s ≡ s
unfolding clean trim_space
clean-call s h =
    ap to_upper (ap trim_right (trim_left-call s h) ∙ trim_right-call s h) ∙ to_upper-call s h

is_call_text-append :
    (s t : Text) → is_call_text s ≡ true → is_call_text t ≡ true → is_call_text (s ++ t) ≡ true
is_call_text-append [] t h k = k
is_call_text-append (c ∷ s) t h k = ground (arith, is_call_text-append s t)

-- A slash separates.
split_slash-append :
    (part s t : Text) → split_slash part (s ++ b'/' ∷ t) ≡ split_slash part s ++ segments t
unfolding split_slash segments
split_slash-append part [] t = refl
split_slash-append part (c ∷ s) t =
    ground (arith, split_slash-append [] s t, split_slash-append (part ++ c ∷ []) s t)

keep-append :
    (b : Bool) (x : Text) (p q r : List Text)
    → p ≡ q ++ r
    → (if b then p else x ∷ p) ≡ (if b then q else x ∷ q) ++ r
keep-append true x p q r h = h
keep-append false x p q r h = ap (λ l. x ∷ l) h

qualifying-append : (xs ys : List Text) → qualifying (xs ++ ys) ≡ qualifying xs ++ qualifying ys
unfolding qualifying
qualifying-append [] ys = refl
qualifying-append (x ∷ xs) ys =
    keep-append (is_empty x || in_table non_qualifying x) x _ _ _ (qualifying-append xs ys)

split_slash-head :
    (part s t : Text)
    → head_or_empty (split_slash part s ++ segments t) ≡ head_or_empty (split_slash part s)
unfolding split_slash head_or_empty
split_slash-head part [] t = refl
split_slash-head part (c ∷ s) t = ground (arith, split_slash-head (part ++ c ∷ []) s t)

wpx_prefix-call :
    (s : Text)
    → is_empty s ≡ false
    → is_call_text s ≡ true
    → wpx_prefix s ≡ choose_prefix (head_or_empty (segments s)) (qualifying (segments s))
unfolding wpx_prefix
wpx_prefix-call s h plain = rw (clean-call s plain, h) refl

is_empty-append : (s t : Text) → is_empty s ≡ false → is_empty (s ++ t) ≡ false
is_empty-append [] t h = absurd (ground arith)
is_empty-append (c ∷ s) t h = refl

-- A suffix that no segment of which qualifies.
module _ (call suffix : Text) where
  wpx_prefix-ignored :
      is_empty call ≡ false
      → is_call_text call ≡ true
      → is_call_text suffix ≡ true
      → qualifying (segments suffix) ≡ []
      → wpx_prefix (call ++ b'/' ∷ suffix) ≡ wpx_prefix call
  wpx_prefix-ignored some_call plain plain_suffix ignored =
      let whole = call ++ b'/' ∷ suffix in
      let parts : segments whole ≡ segments call ++ segments suffix =
        unfold segments in split_slash-append [] call suffix in
      let first : head_or_empty (segments call ++ segments suffix) ≡ head_or_empty (segments call) =
        unfold segments in split_slash-head [] call suffix in
      let kept : qualifying (segments call ++ segments suffix) ≡ qualifying (segments call) =
        qualifying-append (segments call) (segments suffix)
        ∙ ap (λ l. qualifying (segments call) ++ l) ignored
        ∙ append-nil (qualifying (segments call)) in
      wpx_prefix-call whole (is_empty-append call _ some_call)
        (is_call_text-append call (b'/' ∷ suffix) plain plain_suffix)
      ∙ ap (λ l. choose_prefix (head_or_empty l) (qualifying l)) parts
      ∙ ap (λ x. choose_prefix x (qualifying (segments call ++ segments suffix))) first
      ∙ ap (choose_prefix (head_or_empty (segments call))) kept
      ∙ sym (wpx_prefix-call call some_call plain)

abbrev is_nil : List Text → Bool
is_nil [] = true
is_nil (x ∷ xs) = false

is_nil_lem : (xs : List Text) → is_nil xs ≡ true → xs ≡ []
is_nil_lem [] h = refl
is_nil_lem (x ∷ xs) h = absurd (ground arith)

-- Every text of the list is a suffix without a qualifying segment.
abbrev are_ignored : List Text → Bool
are_ignored [] = true
are_ignored (s ∷ ss) = is_call_text s && is_nil (qualifying (segments s)) && are_ignored ss

ignored-All :
    (call : Text) (suffixes : List Text)
    → is_empty call ≡ false
    → is_call_text call ≡ true
    → are_ignored suffixes ≡ true
    → All (λ suffix. wpx_prefix (call ++ b'/' ∷ suffix) ≡ wpx_prefix call) suffixes
ignored-All call [] h plain k = tt
ignored-All call (s ∷ ss) h plain k = (
  wpx_prefix-ignored call s h plain (ground arith)
      (is_nil_lem (qualifying (segments s)) (ground arith)),
  ignored-All call ss h plain (ground arith),
)

non_qualifying-are_ignored : are_ignored non_qualifying ≡ true
unfolding qualifying segments non_qualifying
non_qualifying-are_ignored = refl

-- Each of the suffixes M, MM, AM, A, E, J, P, QRP and QRPP, behind a slash, leaves the prefix of a
-- call as it was; for a call of capital letters, digits and slashes that is not empty.
pub wpx_prefix-suffixes :
    (call : Text)
    → is_empty call ≡ false
    → is_call_text call ≡ true
    → All (λ suffix. wpx_prefix (call ++ b'/' ∷ suffix) ≡ wpx_prefix call) non_qualifying
wpx_prefix-suffixes call h plain =
    ignored-All call non_qualifying h plain non_qualifying-are_ignored
