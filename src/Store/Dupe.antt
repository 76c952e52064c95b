-- ===== src/Store/Dupe.antt =====
-- `isDupe`: the query of each duplicate scope.
pub mod Scopes
pub mod Logged
use w4gns_logger4men.Base.{
  ℕ, ◌-◌, ◌*◌, Bool, true, false, not, ◌&&◌, ◌||◌, Option, none, some, List, [], ◌∷◌, ◌++◌, leb,
  nat_beq, if◌then◌else◌,
}
use w4gns_logger4men.Base.Eq.{◌==◌, list_beq}
use w4gns_logger4men.Text.{Text, text_eq, codes}
use w4gns_logger4men.Contest.Types.{Time}
use w4gns_logger4men.Outbox.{minute, stamp}
use w4gns_logger4men.Store.{StoredQso}

-- What `isDupe` is asked.
pub record Question : Type 0 where
  pub call : Text
  pub band : Text
  pub contest_id : Text
  pub event_id : Text
  pub dupe_scope : Text
  pub profile_id : ℕ
  pub exclude_id : ℕ
  pub now : Time
  pub since : Time

abbrev pub dupe_window : ℕ
dupe_window = 10 * minute

-- The text behind the first "@", as `strings.Cut` finds it.
unfoldable pub occurrence : Text → Option Text
occurrence [] = none
occurrence (c ∷ s) = let rest = occurrence s in if nat_beq c b'@' then some s else rest

-- `substr(contest_id, instr(contest_id, '@') + 1)`: the whole text where it has no "@".
unfoldable pub occurrence_column : Text → Text
unfolding occurrence
occurrence_column s = elim (occurrence s) [ none ↦ s | some rest ↦ rest ]

module _ (like : Text → Text → Bool) (x : Question) where
  -- `contest_id = ? OR contest_id LIKE ? OR contest_id LIKE ?`
  unfoldable pub in_event : StoredQso → Bool
  unfolding list_beq
  in_event r =
      r.values.contest_id == x.event_id
      || like r.values.contest_id (x.event_id ++ codes "-%")
      || like r.values.contest_id (x.event_id ++ codes "@%")

  -- The condition of the scope.
  unfoldable pub in_scope : StoredQso → Bool
  unfolding in_event list_beq
  in_scope r =
      let mine = r.values.call == x.call && nat_beq r.values.profile_id x.profile_id in
      let here = r.values.band == x.band in
      if x.dupe_scope == []
      then mine
        && here
        && leb (stamp (x.now - dupe_window)) r.started
        && leb r.started (stamp x.now)
      else if x.dupe_scope == codes "call+band+session"
      then mine && here && r.values.contest_id == x.contest_id
      else if x.dupe_scope == codes "call"
      then mine && in_event r
      else mine && here && in_event r

  -- `AND substr(...) = ?`, where the contest id names an occurrence.
  unfoldable pub same_occurrence : StoredQso → Bool
  unfolding occurrence occurrence_column list_beq
  same_occurrence r = elim (occurrence x.contest_id) [
    | none ↦ true
    | some wanted ↦ x.dupe_scope == [] || occurrence_column r.values.contest_id == wanted
  ]

  -- The whole WHERE.
  unfoldable pub is_match : StoredQso → Bool
  unfolding in_scope same_occurrence
  is_match r =
      in_scope r
      && (nat_beq x.exclude_id 0 || not (nat_beq r.values.id x.exclude_id))
      && same_occurrence r
      && (nat_beq x.since 0 || leb (stamp x.since) r.started)

  -- `COUNT(1) > 0`
  unfoldable pub any_match : List StoredQso → Bool
  unfolding is_match
  any_match [] = false
  any_match (r ∷ rs) = is_match r || any_match rs

  -- `isDupe`, where the query succeeds; `none` where the scope needs the exchanges.
  unfoldable pub is_dupe : List StoredQso → Option Bool
  unfolding any_match list_beq
  is_dupe log = if x.dupe_scope == codes "call+band+location" then none else some (any_match log)
