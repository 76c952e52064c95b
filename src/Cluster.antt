-- ===== src/Cluster.antt =====
-- cluster.go: a line of the DX cluster, read. A text from the network is the list of its runes, in
-- which a byte that is no UTF-8 is the rune 65533.
pub mod Printable
pub mod Filters
use w4gns_logger4men.Base.{
  ℕ, ◌≡◌, refl, Bool, true, false, ◌&&◌, ◌||◌, Option, none, some, List, [], ◌∷◌, ◌++◌, ltb, leb,
  nat_beq, if◌then◌else◌,
}
use w4gns_logger4men.Text.{Text, codes, within, is_empty, to_upper, equal_fold, fields}
use w4gns_logger4men.Contest.Types.{Time}

-- `clusterSpot`
pub record ClusterSpot : Type 0 where
  pub spotter : Text
  pub frequency : Text
  pub callsign : Text
  pub comment : Text
  pub received : Time

-- The runes that `sanitizeClusterText` drops: the controls below 32, DEL, and those from 128 to 159.
abbrev pub is_control : ℕ → Bool
is_control c = ltb c 32 || nat_beq c 127 || within 128 159 c

-- `sanitizeClusterText`; a tab becomes a blank.
unfoldable pub sanitize_cluster_text : Text → Text
sanitize_cluster_text [] = []
sanitize_cluster_text (c ∷ s) =
    let rest = sanitize_cluster_text s in
    if nat_beq c 9 then 32 ∷ rest else if is_control c then rest else c ∷ rest

-- `strings.TrimSuffix(s, ":")`
unfoldable pub trim_colon : Text → Text
trim_colon [] = []
trim_colon (c ∷ s) =
    let rest = trim_colon s in if nat_beq c b':' && is_empty s then [] else c ∷ rest

-- `strings.Join(fields, " ")`
unfoldable pub join_fields : List Text → Text
join_fields [] = []
join_fields (field ∷ []) = field
join_fields (field ∷ next ∷ more) = field ++ codes " " ++ join_fields (next ∷ more)

-- A line of five fields or more.
unfoldable pub read_spot : Text → Text → Text → Text → Text → List Text → Time → Option ClusterSpot
unfolding equal_fold trim_colon sanitize_cluster_text join_fields to_upper
read_spot dx de spotter frequency call comment received =
    if equal_fold dx (codes "DX") && equal_fold de (codes "de")
    then if is_empty (trim_colon spotter)
      then none
      else some (record {
        spotter = sanitize_cluster_text (trim_colon spotter);
        frequency = sanitize_cluster_text frequency;
        callsign = to_upper (sanitize_cluster_text call);
        comment = sanitize_cluster_text (join_fields comment);
        received = received;
      })
    else none

unfoldable pub spot_of_fields : List Text → Time → Option ClusterSpot
unfolding read_spot
spot_of_fields (dx ∷ de ∷ spotter ∷ frequency ∷ call ∷ comment) received =
    read_spot dx de spotter frequency call comment received
spot_of_fields _ received = none

-- `parseClusterSpot`
unfoldable pub parse_cluster_spot : Text → Time → Option ClusterSpot
unfolding spot_of_fields fields
parse_cluster_spot line received = spot_of_fields (fields line) received
