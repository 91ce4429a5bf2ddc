-- ===== src/Storage/Versions/Shown.antt =====
-- What the history alone shows for a key at a revision, and how preserving and recording values
-- change it.
use undr.Base.{
  ℕ, ◌≡◌, refl, sym, ap, subst, ◌∙◌, ◌⊎◌, inl, inr, true, false, String, List, [], ◌∷◌, Option,
  none, some, arith, nat_beq, nat_beq_iff, leb, string_key, Bool-cases, if◌then◌else◌,
}
use undr.Base.Map
use undr.Base.Map.{BTreeMap, is_some}
use undr.Base.Set
use undr.Base.Set.{BTreeSet}
use undr.Storage.Versions.{
  VersionedValue, Lineage, History, append_version_entry, entries_or_default, append_at,
  preserve_versions, preserve_one, record_versions, latest_at, value_of, history_value,
}

module _ {ℓ} {T : Type ℓ} where
  abbrev entry : ℕ → Option T → VersionedValue T
  entry rev v = record { revision = rev; value = v }

  latest_at-append_later :
      (r rev : ℕ) (v : Option T) (es : List (VersionedValue T))
      → leb rev r ≡ false
      → latest_at r (append_version_entry es rev v) ≡ latest_at r es
  unfolding latest_at append_version_entry
  latest_at-append_later r rev v [] h = ground arith
  latest_at-append_later r rev v (e ∷ []) h = ground (arith, nat_beq_iff e.revision rev)
  latest_at-append_later r rev v (e ∷ f ∷ es) h = rw (latest_at-append_later r rev v (f ∷ es) h)

  latest_at-append_earlier :
      (r rev : ℕ) (v : Option T) (es : List (VersionedValue T))
      → leb rev r ≡ true
      → latest_at r (append_version_entry es rev v) ≡ some (entry rev v)
  unfolding latest_at append_version_entry
  latest_at-append_earlier r rev v [] h = ground arith
  latest_at-append_earlier r rev v (e ∷ []) h = elim (Bool-cases (nat_beq e.revision rev)) [
    | inl same ↦ rw (same, (nat_beq_iff e.revision rev).0 same) (ground arith)
    | inr other ↦ rw other (ground arith)
  ]
  latest_at-append_earlier r rev v (e ∷ f ∷ es) h = rw (latest_at-append_earlier r rev v (f ∷ es) h)

  history_value_or :
      (r : ℕ) (o : Option (List (VersionedValue T)))
      → history_value r o ≡ value_of (latest_at r (entries_or_default o))
  unfolding history_value latest_at
  history_value_or r none = refl
  history_value_or r (some es) = refl

  -- The value that the history alone shows for a key at a revision.
  abbrev pub shown : String → ℕ → History T → Option T
  shown key r history = history_value r (Map.get key history)

  get-append_at :
      (key j : String) (rev : ℕ) (v : Option T) (history : History T)
      → Map.get key (append_at j rev v history) ≡ (
          if string_key.beq j key
          then some (append_version_entry (entries_or_default (Map.get key history)) rev v)
          else Map.get key history)
  unfolding append_at
  get-append_at key j rev v history = ground (
    arith,
    Map.get-insert j key (append_version_entry (entries_or_default (Map.get j history)) rev v)
        history,
    string_key.beq_iff j key,
  )

  shown_later :
      (key j : String) (r rev : ℕ) (v : Option T) (history : History T)
      → leb rev r ≡ false
      → shown key r (append_at j rev v history) ≡ shown key r history
  unfolding history_value
  shown_later key j r rev v history h = elim (Bool-cases (string_key.beq j key)) [
    | inl same ↦
        rw (get-append_at key j rev v history, same)
          (ap value_of (latest_at-append_later r rev v (entries_or_default (Map.get key history)) h)
            ∙ sym (history_value_or r (Map.get key history)))
    | inr other ↦ rw (get-append_at key j rev v history, other)
  ]

  shown_earlier :
      (key j : String) (r rev : ℕ) (v : Option T) (history : History T)
      → leb rev r ≡ true
      → shown key r (append_at j rev v history)
        ≡ (if string_key.beq j key then v else shown key r history)
  unfolding history_value
  shown_earlier key j r rev v history h = elim (Bool-cases (string_key.beq j key)) [
    | inl same ↦
        rw (get-append_at key j rev v history, same)
          (ap value_of
            (latest_at-append_earlier r rev v (entries_or_default (Map.get key history)) h))
    | inr other ↦ rw (get-append_at key j rev v history, other)
  ]

  pub shown_record :
      (key : String) (r rev : ℕ) (keys : BTreeSet String) (live : BTreeMap String T)
      (history : History T)
      → leb rev r ≡ false
      → shown key r (record_versions keys live rev history) ≡ shown key r history
  unfolding record_versions
  shown_record key r rev [] live history h = refl
  shown_record key r rev (j ∷ keys) live history h =
      shown_record key r rev keys live (append_at j rev (Map.get j live) history) h
      ∙ shown_later key j r rev (Map.get j live) history h

  preserve_other :
      (key j : String) (r : ℕ) (o : Option ℕ) (live : BTreeMap String T) (history : History T)
      → string_key.beq j key ≡ false
      → shown key r (preserve_one live j o history) ≡ shown key r history
  preserve_other key j r none live history other = refl
  preserve_other key j r (some rev) live history other =
      rw (get-append_at key j rev (Map.get j live) history, other)

  preserve_hidden :
      (key j : String) (r : ℕ) (o : Option ℕ) (live : BTreeMap String T) (history : History T)
      → ((c : ℕ) → o ≡ some c → leb c r ≡ false)
      → shown key r (preserve_one live j o history) ≡ shown key r history
  preserve_hidden key j r none live history h = refl
  preserve_hidden key j r (some rev) live history h =
      shown_later key j r rev (Map.get j live) history (h rev refl)

  -- Preserving a key that has no lineage, or whose last change is after the revision.
  pub shown_preserve_hidden :
      (key : String) (r : ℕ) (keys : BTreeSet String) (live : BTreeMap String T) (lineage : Lineage)
      (history : History T)
      → ((c : ℕ) → Map.get key lineage ≡ some c → leb c r ≡ false)
      → shown key r (preserve_versions keys live lineage history) ≡ shown key r history
  unfolding preserve_versions
  shown_preserve_hidden key r [] live lineage history h = refl
  shown_preserve_hidden key r (j ∷ keys) live lineage history h =
      shown_preserve_hidden key r keys live lineage
        (preserve_one live j (Map.get j lineage) history) h
      ∙ elim (Bool-cases (string_key.beq j key)) [
        | inl same ↦ preserve_hidden key j r (Map.get j lineage) live history (λ c e.
            h c (subst (λ k. Map.get k lineage ≡ some c) ((string_key.beq_iff j key).0 same) e))
        | inr other ↦ preserve_other key j r (Map.get j lineage) live history other
      ]

  -- Preserving a key whose last change is no later than the revision makes the history show its
  -- live value.
  pub shown_preserve_live :
      (key : String) (r c : ℕ) (keys : BTreeSet String) (live : BTreeMap String T)
      (lineage : Lineage) (history : History T)
      → Map.get key lineage ≡ some c
      → leb c r ≡ true
      → (Set.contains key keys ≡ true) ⊎ (shown key r history ≡ Map.get key live)
      → shown key r (preserve_versions keys live lineage history) ≡ Map.get key live
  unfolding preserve_versions Set.contains
  shown_preserve_live key r c [] live lineage history same early (inl there) = cc
  shown_preserve_live key r c [] live lineage history same early (inr here) = here
  shown_preserve_live key r c (j ∷ keys) live lineage history same early either =
      shown_preserve_live key r c keys live lineage
        (preserve_one live j (Map.get j lineage) history) same early
        (elim (Bool-cases (string_key.beq j key)) [
          | inl is_key ↦
              let here : j ≡ key = (string_key.beq_iff j key).0 is_key in
              inr (
                rw (here, same)
                  (ground (
                    arith,
                    shown_earlier key key r c (Map.get key live) history early,
                    string_key.beq_iff key key,
                  )))
          | inr other ↦ elim either [
            | inl there ↦ inl (rw other at there)
            | inr shown_now ↦
                inr (preserve_other key j r (Map.get j lineage) live history other ∙ shown_now)
          ]
        ])
