-- ===== src/Cluster/Printable.antt =====
-- What a spot shows on the terminal.
use w4gns_logger4men.Base.{
  ℕ, ◌≡◌, refl, Bool, true, false, ◌&&◌, Option, none, some, List, [], ◌∷◌, arith, nat_beq,
  if◌then◌else◌,
}
use w4gns_logger4men.Text.{Text, codes, is_empty, to_upper, upper_byte, equal_fold, fields}
use w4gns_logger4men.Contest.Types.{Time}
use w4gns_logger4men.Cluster.{
  ClusterSpot, is_control, sanitize_cluster_text, trim_colon, join_fields, read_spot,
  spot_of_fields, parse_cluster_spot,
}

-- No rune of the text moves the cursor or begins an escape sequence.
abbrev pub IsPrintable : Text → Type 0
IsPrintable [] = Unit {0}
IsPrintable (c ∷ s) = (is_control c ≡ false) × IsPrintable s

IsPrintable-if :
    (b : Bool) (s t : Text)
    → (b ≡ true → IsPrintable s)
    → (b ≡ false → IsPrintable t)
    → IsPrintable (if b then s else t)
IsPrintable-if true s t h k = h refl
IsPrintable-if false s t h k = k refl

sanitize-IsPrintable : (s : Text) → IsPrintable (sanitize_cluster_text s)
unfolding sanitize_cluster_text
sanitize-IsPrintable [] = tt
sanitize-IsPrintable (c ∷ s) =
    IsPrintable-if (nat_beq c 9) _ _ (λ _. (refl, sanitize-IsPrintable s))
      (λ _.
        IsPrintable-if (is_control c) _ _ (λ _. sanitize-IsPrintable s)
          (λ shown. (shown, sanitize-IsPrintable s)))

is_control-upper_byte : (c : ℕ) → is_control c ≡ false → is_control (upper_byte c) ≡ false
unfolding upper_byte
is_control-upper_byte c h = ground arith

to_upper-IsPrintable : (s : Text) → IsPrintable s → IsPrintable (to_upper s)
unfolding to_upper
to_upper-IsPrintable [] h = tt
to_upper-IsPrintable (c ∷ s) (p, h) = (is_control-upper_byte c p, to_upper-IsPrintable s h)

sanitize_of_printable : (s : Text) → IsPrintable s → sanitize_cluster_text s ≡ s
unfolding sanitize_cluster_text
sanitize_of_printable [] h = refl
sanitize_of_printable (c ∷ s) (p, h) = ground (arith, sanitize_of_printable s h)

-- Every text of a spot is printable.
pub record IsShown (spot : ClusterSpot) : Type 0 where
  pub spotter : IsPrintable spot.spotter
  pub frequency : IsPrintable spot.frequency
  pub callsign : IsPrintable spot.callsign
  pub comment : IsPrintable spot.comment

-- The spot, where there is one.
abbrev pub AllShown : Option ClusterSpot → Type 0
AllShown none = Unit {0}
AllShown (some spot) = IsShown spot

AllShown-if :
    (b : Bool) (o p : Option ClusterSpot) → AllShown o → AllShown p → AllShown (if b then o else p)
AllShown-if true o p h k = h
AllShown-if false o p h k = k

read_spot-AllShown :
    (dx de spotter frequency call : Text) (comment : List Text) (received : Time)
    → AllShown (read_spot dx de spotter frequency call comment received)
unfolding read_spot
read_spot-AllShown dx de spotter frequency call comment received =
    AllShown-if (equal_fold dx (codes "DX") && equal_fold de (codes "de")) _ none
      (AllShown-if (is_empty (trim_colon spotter)) none _ tt (record {
        spotter = sanitize-IsPrintable (trim_colon spotter);
        frequency = sanitize-IsPrintable frequency;
        callsign = to_upper-IsPrintable (sanitize_cluster_text call) (sanitize-IsPrintable call);
        comment = sanitize-IsPrintable (join_fields comment);
      }))
      tt

spot_of_fields-AllShown :
    (words : List Text) (received : Time) → AllShown (spot_of_fields words received)
unfolding spot_of_fields
spot_of_fields-AllShown [] received = tt
spot_of_fields-AllShown (a ∷ []) received = tt
spot_of_fields-AllShown (a ∷ b ∷ []) received = tt
spot_of_fields-AllShown (a ∷ b ∷ c ∷ []) received = tt
spot_of_fields-AllShown (a ∷ b ∷ c ∷ d ∷ []) received = tt
spot_of_fields-AllShown (a ∷ b ∷ c ∷ d ∷ e ∷ more) received =
    read_spot-AllShown a b c d e more received

-- Whatever line comes from the network, a spot that `parseClusterSpot` reads from it holds no control
-- character, which is a rune below 32, the rune 127 or one from 128 to 159, in its spotter,
-- frequency, callsign or comment; and `sanitizeClusterText` changes nothing in a text that it has
-- cleaned.
pub parse_cluster_spot-AllShown :
    (line text : Text) (received : Time)
    → AllShown (parse_cluster_spot line received)
      × (sanitize_cluster_text (sanitize_cluster_text text) ≡ sanitize_cluster_text text)
unfolding parse_cluster_spot
parse_cluster_spot-AllShown line text received = (
  spot_of_fields-AllShown (fields line) received,
  sanitize_of_printable (sanitize_cluster_text text) (sanitize-IsPrintable text),
)
