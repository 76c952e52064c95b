-- ===== src/Submission.antt =====
-- The tokens of contest_validation.go, the validators of an exchange in the children.
pub mod Areas
pub mod National
pub mod Locations
pub mod Counted
pub mod Counties
pub mod Charts
pub mod Provinces
pub mod Districts
pub mod Stations
pub mod Accepted
use w4gns_logger4men.Base.{Bool, true, false, not, ◌&&◌, [], ◌∷◌, Option, none, some}
use w4gns_logger4men.Text.{Text, within, is_empty}
use w4gns_logger4men.Text.Numeral.{positive}
use w4gns_logger4men.Wpx.{is_digits_only}

abbrev pub is_some {ℓ} : {A : Type ℓ} → Option A → Bool
is_some none = false
is_some (some a) = true

-- `positiveSerial`
unfoldable pub positive_serial : Text → Bool
unfolding is_digits_only positive
positive_serial s = is_digits_only s && is_some (positive s)

unfoldable pub all_capitals : Text → Bool
all_capitals [] = true
all_capitals (c ∷ s) = within b'A' b'Z' c && all_capitals s

-- `submissionName`
unfoldable pub submission_name : Text → Bool
unfolding all_capitals
submission_name s = all_capitals s && not (is_empty s)
