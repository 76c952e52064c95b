-- ===== src/Cabrillo.antt =====
-- The texts of cabrillo_export.go that go into a submission. A byte outside printable ASCII is dropped,
-- which takes out each byte of a longer rune, as the source drops the rune.
use w4gns_logger4men.Base.{ℕ, [], ◌∷◌, ◌++◌, if◌then◌else◌, ltb, length, take}
use w4gns_logger4men.Text.{Text, codes, within, is_empty, trim_space}

-- `cabrilloOrDefault`
unfoldable pub or_default : Text → Text → Text
unfolding trim_space
or_default value default = if is_empty (trim_space value) then default else value

-- `cabrilloHeaderValue`
unfoldable pub header_value : Text → Text
header_value [] = []
header_value (c ∷ s) = let rest = header_value s in if within 0x20 0x7e c then c ∷ rest else rest

-- `cabrilloText`
unfoldable pub column_text : Text → ℕ → Text
unfolding header_value
column_text value width =
    let cleaned = header_value value in
    if ltb width (length cleaned) then take width cleaned else cleaned

-- `cabrilloExchange`
unfoldable pub cabrillo_exchange : Text → Text → Text
unfolding trim_space
cabrillo_exchange serial text =
    let s = trim_space serial in
    let t = trim_space text in
    if is_empty s then t else if is_empty t then s else s ++ codes " " ++ t
