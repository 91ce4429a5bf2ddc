-- ===== src/Replication/Follower.antt =====
-- The follower's progress: terms and log numbers never go back, and what was applied is not applied
-- again.
use undr.Base.{
  ℕ, ◌≡◌, refl, inl, inr, ◌≤◌, true, false, List, [], ◌∷◌, Option, none, some, All, arith, ltb, leb,
  Bool-cases,
}
use undr.Common.{ok}
use undr.Replication.{
  ReplicationRecord, ReplicationStatus, ReplicationManager, apply_records, apply_follower_records,
  is_follower, follow,
}

-- The second status is no earlier than the first, and its follower stays what it was.
pub record IsAhead (before after : ReplicationStatus) : Type 0 where
  pub term : before.current_term ≤ after.current_term
  pub applied : before.last_applied_source_lsn ≤ after.last_applied_source_lsn

apply_records-IsAhead :
    (applied : Option ℕ) (records : List ReplicationRecord) (status : ReplicationStatus)
    → IsAhead status (apply_records applied records status).1
unfolding apply_records
apply_records-IsAhead applied [] status = record { term = omega arith; applied = omega arith }
apply_records-IsAhead applied (r ∷ records) status =
    elim (Bool-cases (ltb r.source_term status.current_term)) [
      | inl older ↦ rw older (record { term = omega arith; applied = omega arith })
      | inr current ↦ elim (Bool-cases (leb r.source_lsn status.last_applied_source_lsn)) [
        | inl known ↦ rw (current, known) (apply_records-IsAhead applied records status)
        | inr new ↦
            let later = apply_records-IsAhead (some r.source_lsn) records (follow r status) in
            rw (current, new)
              (record {
                term = ground (arith, later.term);
                applied = ground (arith, later.applied);
              })
      ]
    ]

-- Records none of which is older than the term of the follower and none of which is new.
apply_records-known :
    (applied : Option ℕ) (records : List ReplicationRecord) (status : ReplicationStatus)
    → All
        (λ (r : ReplicationRecord).
          (status.current_term ≤ r.source_term) × (r.source_lsn ≤ status.last_applied_source_lsn))
        records
    → apply_records applied records status ≡ (ok applied, status)
unfolding apply_records
apply_records-known applied [] status known = refl
apply_records-known applied (r ∷ records) status known =
    let current : ltb r.source_term status.current_term ≡ false = ground (arith, known.0.0) in
    let old : leb r.source_lsn status.last_applied_source_lsn ≡ true = ground (arith, known.0.1) in
    rw (current, old) (apply_records-known applied records status known.1)

-- Whatever records a node is given to apply, and whether it accepts them all or refuses one, its
-- term and the last number it applied do not go back.
pub apply_follower_records-IsAhead :
    (records : List ReplicationRecord) (manager : ReplicationManager)
    → IsAhead manager.status (apply_follower_records records manager).1.status
unfolding apply_follower_records
apply_follower_records-IsAhead records manager =
    elim (Bool-cases (is_follower manager.status.mode)) [
      | inl follows ↦ rw follows (apply_records-IsAhead none records manager.status)
      | inr other ↦ rw other (record { term = omega arith; applied = omega arith })
    ]

-- Records that a follower has applied before, and that are of no older term than its own, are
-- accepted again without any effect.
pub apply_follower_records_again :
    (records : List ReplicationRecord) (manager : ReplicationManager)
    → is_follower manager.status.mode ≡ true
    → All
        (λ (r : ReplicationRecord).
          (manager.status.current_term ≤ r.source_term)
          × (r.source_lsn ≤ manager.status.last_applied_source_lsn))
        records
    → apply_follower_records records manager ≡ (ok none, manager)
unfolding apply_follower_records
apply_follower_records_again records manager follows known =
    rw (follows, apply_records-known none records manager.status known) refl
