-- ===== src/Storage/Versions/Visible.antt =====
-- What a reader at a revision sees, before and after a commit at a later revision.
use undr.Base.{
  ℕ, ◌≡◌, refl, ◌∙◌, ◌⊎◌, inl, inr, true, false, ◌||◌, ◌&&◌, String, [], ◌∷◌, none, some, arith,
  leb, string_key, Bool-cases, Option-cases, if◌then◌else◌,
}
use undr.Base.Map
use undr.Base.Map.{BTreeMap, is_some}
use undr.Base.Set
use undr.Base.Set.{BTreeSet}
use undr.Storage.Versions.{
  Lineage, History, preserve_versions, record_versions, visible_value_at_revision,
  update_node_lineage, update_edge_lineage,
}
use undr.Storage.Versions.Shown.{shown, shown_record, shown_preserve_hidden, shown_preserve_live}

module _ {ℓ} {T : Type ℓ} where
  -- What a commit does to the live value and the lineage of a key.
  abbrev pub Moves :
      String
      → ℕ
      → BTreeSet String
      → BTreeMap String T
      → BTreeMap String T
      → Lineage
      → Lineage
      → Type ℓ
  Moves key lsn touched live live' lineage lineage' =
      ((Set.contains key touched ≡ false)
        × (Map.get key live' ≡ Map.get key live)
        × (Map.get key lineage' ≡ Map.get key lineage))
      ⊎ ((Set.contains key touched ≡ true)
          × ((Map.get key lineage' ≡ some lsn)
              ⊎ ((Map.get key lineage ≡ none) × (Map.get key lineage' ≡ none))))

  module _ (key : String) (r lsn : ℕ) (touched : BTreeSet String) (live live' : BTreeMap String T)
      (lineage lineage' : Lineage) (history : History T) (after : leb lsn r ≡ false)
      (moves : Moves key lsn touched live live' lineage lineage') where
    abbrev history' : History T
    history' = record_versions touched live' lsn (preserve_versions touched live lineage history)

    -- The reader looks into the history, before and after.
    kept_hidden :
        ((c : ℕ) → Map.get key lineage ≡ some c → leb c r ≡ false)
        → shown key r history' ≡ shown key r history
    kept_hidden h =
        shown_record key r lsn touched live' (preserve_versions touched live lineage history) after
        ∙ shown_preserve_hidden key r touched live lineage history h

    keeps_absent :
        Map.get key lineage ≡ none
        → visible_value_at_revision key r live' lineage' history'
          ≡ visible_value_at_revision key r live lineage history
    unfolding visible_value_at_revision
    keeps_absent absent =
        let same = kept_hidden (λ c e. ground arith) in
        elim moves [
          | inl m ↦ rw (m.2, absent, same)
          | inr m ↦ elim m.1 [
            | inl moved ↦ rw (moved, absent, after, same)
            | inr none_after ↦ rw (none_after.1, absent, same)
          ]
        ]

    keeps_late :
        (c : ℕ)
        → Map.get key lineage ≡ some c
        → leb c r ≡ false
        → visible_value_at_revision key r live' lineage' history'
          ≡ visible_value_at_revision key r live lineage history
    unfolding visible_value_at_revision
    keeps_late c found late =
        let same = kept_hidden (λ d e. ground arith) in
        elim moves [
          | inl m ↦ rw (m.2, found, late, same)
          | inr m ↦ elim m.1 [
            | inl moved ↦ rw (moved, found, after, late, same)
            | inr none_after ↦ ground arith
          ]
        ]

    keeps_early :
        (c : ℕ)
        → Map.get key lineage ≡ some c
        → leb c r ≡ true
        → visible_value_at_revision key r live' lineage' history'
          ≡ visible_value_at_revision key r live lineage history
    unfolding visible_value_at_revision
    keeps_early c found early = elim moves [
      | inl m ↦ rw (m.2, found, early) m.1
      | inr m ↦ elim m.1 [
        | inl moved ↦
            rw (moved, found, after, early)
              (shown_record key r lsn touched live' (preserve_versions touched live lineage history)
                  after
                ∙ shown_preserve_live key r c touched live lineage history found early (inl m.0))
        | inr none_after ↦ ground arith
      ]
    ]

    -- A reader at a revision before the commit sees the same value of the key afterwards.
    pub commit_keeps_visible :
        visible_value_at_revision key r live' lineage' history'
        ≡ visible_value_at_revision key r live lineage history
    commit_keeps_visible = elim (Option-cases (Map.get key lineage)) [
      | inl absent ↦ keeps_absent absent
      | inr (c, found) ↦ elim (Bool-cases (leb c r)) [
        | inl early ↦ keeps_early c found early
        | inr late ↦ keeps_late c found late
      ]
    ]

  -- Preserving values changes nothing by itself.
  pub preserve_keeps_visible :
      (key : String) (r : ℕ) (touched : BTreeSet String) (live : BTreeMap String T)
      (lineage : Lineage) (history : History T)
      → visible_value_at_revision key r live lineage
          (preserve_versions touched live lineage history)
        ≡ visible_value_at_revision key r live lineage history
  unfolding visible_value_at_revision
  preserve_keeps_visible key r touched live lineage history =
      elim (Option-cases (Map.get key lineage)) [
        | inl absent ↦
            rw absent
              (shown_preserve_hidden key r touched live lineage history (λ c e. ground arith))
        | inr (c, found) ↦ elim (Bool-cases (leb c r)) [
          | inl early ↦ rw (found, early) refl
          | inr late ↦
              rw (found, late)
                (shown_preserve_hidden key r touched live lineage history (λ d e. ground arith))
        ]
      ]

pub get-update_node_lineage :
    (key : String) (keys : BTreeSet String) (rev : ℕ) (lineage : Lineage)
    → Map.get key (update_node_lineage keys rev lineage)
      ≡ (if Set.contains key keys then some rev else Map.get key lineage)
unfolding update_node_lineage Set.contains
get-update_node_lineage key [] rev lineage = refl
get-update_node_lineage key (j ∷ keys) rev lineage = ground (
  arith,
  get-update_node_lineage key keys rev (Map.insert j rev lineage),
  Map.get-insert j key rev lineage,
)

pub get-update_edge_lineage {ℓ} :
    {T : Type ℓ} (key : String) (keys : BTreeSet String) (live : BTreeMap String T) (rev : ℕ)
    (lineage : Lineage)
    → Map.get key (update_edge_lineage keys live rev lineage) ≡ (
        if Set.contains key keys && (is_some (Map.get key live) || is_some (Map.get key lineage))
        then some rev
        else Map.get key lineage)
unfolding update_edge_lineage Set.contains
get-update_edge_lineage key [] live rev lineage = refl
get-update_edge_lineage key (j ∷ keys) live rev lineage = ground (
  arith,
  get-update_edge_lineage key keys live rev (
      if Map.contains_key j live || Map.contains_key j lineage
      then Map.insert j rev lineage
      else lineage),
  Map.get-insert j key rev lineage,
  Map.contains_key-eq j live,
  Map.contains_key-eq j lineage,
  string_key.beq_iff j key,
)
