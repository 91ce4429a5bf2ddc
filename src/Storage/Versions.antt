-- ===== src/Storage/Versions.antt =====
-- The history of values that open transactions read: entries by revision, what a commit preserves
-- and records, and the value that is visible at a revision.
pub mod Shown
pub mod Visible
use undr.Base.{
  ℕ, Bool, true, false, ◌||◌, String, List, [], ◌∷◌, Option, none, some, nat_beq, leb, string_key,
  if◌then◌else◌,
}
use undr.Base.Map
use undr.Base.Map.{BTreeMap}
use undr.Base.Set.{BTreeSet}

pub record VersionedValue {ℓ} (T : Type ℓ) : Type ℓ where
  pub revision : ℕ
  pub value : Option T

abbrev pub Lineage : Type 0
Lineage = BTreeMap String ℕ

abbrev pub History {ℓ} : Type ℓ → Type ℓ
History T = BTreeMap String (List (VersionedValue T))

module _ {ℓ} {T : Type ℓ} where
  unfoldable pub append_version_entry :
      List (VersionedValue T) → ℕ → Option T → List (VersionedValue T)
  append_version_entry [] rev v = record { revision = rev; value = v } ∷ []
  append_version_entry (last ∷ []) rev v =
      if nat_beq last.revision rev
      then record last { value = v } ∷ []
      else last ∷ record { revision = rev; value = v } ∷ []
  append_version_entry (first ∷ second ∷ rest) rev v =
      first ∷ append_version_entry (second ∷ rest) rev v

  -- `map.entry(key).or_default()`
  abbrev pub entries_or_default : Option (List (VersionedValue T)) → List (VersionedValue T)
  entries_or_default none = []
  entries_or_default (some versions) = versions

  unfoldable pub append_at : String → ℕ → Option T → History T → History T
  append_at key rev v history =
      Map.insert key (append_version_entry (entries_or_default (Map.get key history)) rev v) history

  -- One of the two loops of `preserve_historical_versions`.
  abbrev pub preserve_one : BTreeMap String T → String → Option ℕ → History T → History T
  preserve_one live key none history = history
  preserve_one live key (some rev) history = append_at key rev (Map.get key live) history

  unfoldable pub preserve_versions :
      BTreeSet String → BTreeMap String T → Lineage → History T → History T
  preserve_versions [] live lineage history = history
  preserve_versions (key ∷ keys) live lineage history =
      preserve_versions keys live lineage (preserve_one live key (Map.get key lineage) history)

  -- One of the two loops of `record_versions_after_commit`.
  unfoldable pub record_versions : BTreeSet String → BTreeMap String T → ℕ → History T → History T
  record_versions [] live rev history = history
  record_versions (key ∷ keys) live rev history =
      record_versions keys live rev (append_at key rev (Map.get key live) history)

  -- `versions.iter().rev().find(|entry| entry.revision <= revision)`
  unfoldable pub latest_at : ℕ → List (VersionedValue T) → Option (VersionedValue T)
  latest_at rev [] = none
  latest_at rev (entry ∷ later) = elim (latest_at rev later) [
    | none ↦ if leb entry.revision rev then some entry else none
    | some newer ↦ some newer
  ]

  abbrev pub value_of : Option (VersionedValue T) → Option T
  value_of none = none
  value_of (some entry) = entry.value

  unfoldable pub history_value : ℕ → Option (List (VersionedValue T)) → Option T
  unfolding latest_at
  history_value rev none = none
  history_value rev (some versions) = value_of (latest_at rev versions)

  abbrev pub visible_from : ℕ → Option ℕ → Option T → Option T → Option T
  visible_from rev none live old = old
  visible_from rev (some current) live old = if leb current rev then live else old

  unfoldable pub visible_value_at_revision :
      String → ℕ → BTreeMap String T → Lineage → History T → Option T
  unfolding history_value
  visible_value_at_revision key rev live lineage history =
      visible_from rev (Map.get key lineage) (Map.get key live)
        (history_value rev (Map.get key history))

-- The loop of `update_lineage_for_batch` over the nodes.
unfoldable pub update_node_lineage : BTreeSet String → ℕ → Lineage → Lineage
update_node_lineage [] rev lineage = lineage
update_node_lineage (key ∷ keys) rev lineage =
    update_node_lineage keys rev (Map.insert key rev lineage)

-- The loop of `update_lineage_for_batch` over the edges.
unfoldable pub update_edge_lineage {ℓ} :
    {T : Type ℓ} → BTreeSet String → BTreeMap String T → ℕ → Lineage → Lineage
update_edge_lineage [] edges rev lineage = lineage
update_edge_lineage (key ∷ keys) edges rev lineage = update_edge_lineage keys edges rev (
    if Map.contains_key key edges || Map.contains_key key lineage
    then Map.insert key rev lineage
    else lineage)
