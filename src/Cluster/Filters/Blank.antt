-- ===== src/Cluster/Filters/Blank.antt =====
-- A filter, and the same filter with every field but the bands left blank.
use w4gns_logger4men.Base.{◌≡◌, true, arith}
use w4gns_logger4men.Exchange.{Lookup}
use w4gns_logger4men.Text.{trim_space}
use w4gns_logger4men.Validation.{Floats}
use w4gns_logger4men.Cluster.{ClusterSpot}
use w4gns_logger4men.Cluster.Filters.{
  ClusterFilters, default_cluster_filters, matches_entity_filters, matches_call_area,
  is_baseline_cw_eligible, allows_spot,
}

-- Only the bands of a filter.
unfoldable pub bands_only : ClusterFilters → ClusterFilters
unfolding default_cluster_filters
bands_only f = record default_cluster_filters { bands = f.bands }

module _ (fl : Floats) (lookup : Lookup) (f : ClusterFilters) (spot : ClusterSpot) where
  allows_bands_only :
      allows_spot fl lookup (bands_only f) spot ≡ is_baseline_cw_eligible fl spot f.bands
  unfolding allows_spot bands_only matches_entity_filters matches_call_area trim_space
  allows_bands_only = ground arith

  allows-eligible :
      allows_spot fl lookup f spot ≡ true → is_baseline_cw_eligible fl spot f.bands ≡ true
  unfolding allows_spot
  allows-eligible h = ground arith

-- A filter whose fields are blank shows the spots on its bands that look like CW and no other ones;
-- and setting fields only hides spots: what a filter shows, the filter of its bands alone shows.
pub allows_spot-narrow :
    (fl : Floats) (lookup : Lookup) (f : ClusterFilters) (spot : ClusterSpot)
    → (allows_spot fl lookup (bands_only f) spot ≡ is_baseline_cw_eligible fl spot f.bands)
      × (allows_spot fl lookup f spot ≡ true → allows_spot fl lookup (bands_only f) spot ≡ true)
allows_spot-narrow fl lookup f spot = (
  allows_bands_only fl lookup f spot,
  λ h. rw (allows_bands_only fl lookup f spot) (allows-eligible fl lookup f spot h),
)
