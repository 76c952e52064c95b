-- ===== src/Exchange/Iota.antt =====
-- iota.go: the island references of the RSGB IOTA Contest.
use w4gns_logger4men.Base.{
  ℕ, ◌≡◌, refl, Bool, false, not, ◌&&◌, ◌||◌, List, [], ◌∷◌, nat_beq, if◌then◌else◌, take,
}
use w4gns_logger4men.Text.{Text, codes, within, is_empty, to_upper, fields, in_table}

-- The continents of `iotaReferencePattern`.
unfoldable iota_continents : List Text
unfolding fields
iota_continents = fields (codes "AF AN AS EU NA OC SA")

-- `\w` of the pattern's word boundaries.
is_word : ℕ → Bool
is_word c = within b'0' b'9' c || within b'A' b'Z' c || within b'a' b'z' c || nat_beq c b'_'

starts_word : Text → Bool
unfolding is_word
starts_word [] = false
starts_word (c ∷ s) = is_word c

-- Whether `(AF|AN|AS|EU|NA|OC|SA)-\d{3}\b` matches here, in either case.
unfoldable pub iota_at : Text → Bool
unfolding iota_continents in_table to_upper starts_word
iota_at (a ∷ b ∷ d ∷ x ∷ y ∷ z ∷ rest) =
    in_table iota_continents (to_upper (a ∷ b ∷ []))
    && nat_beq d b'-'
    && within b'0' b'9' x
    && within b'0' b'9' y
    && within b'0' b'9' z
    && not (starts_word rest)
iota_at _ = false

-- `FindString`: the leftmost match that no word character stands before.
find_iota : Bool → Text → Text
unfolding iota_at is_word
find_iota word [] = []
find_iota word (c ∷ s) =
    let rest = find_iota (is_word c) s in
    if not word && iota_at (c ∷ s) then take 6 (c ∷ s) else rest

unfoldable pub iota_reference_code : Text → Text
unfolding find_iota to_upper
iota_reference_code text = to_upper (find_iota false text)

-- `iotaMultiplierValue`, of the received exchange and the QSO's own reference field.
unfoldable pub iota_multiplier_value : Text → Text → Text
unfolding iota_reference_code
iota_multiplier_value srx_string iota_ref =
    let code = iota_reference_code srx_string in
    if is_empty code then iota_reference_code iota_ref else code

reference_test :
    (iota_reference_code (codes "599 001 eu-005") ≡ codes "EU-005")
    × (iota_reference_code (codes "RS-599") ≡ [])
    × (iota_reference_code (codes "XEU-005 NA-0650 oc-001") ≡ codes "OC-001")
unfolding iota_reference_code
reference_test = (refl, refl, refl)
