-- ===== src/Storage/Engine/Atomic.antt =====
-- A write happens as a whole or not at all.
use undr.Base.{ℕ, ◌≡◌, refl, sym, subst, ◌∙◌, Bool, true, false, not, Option, none, some, ltb}
use undr.Common.{Result, ok, err, panic, validation, ensure, ◌>>=◌, ◌>>◌}
use undr.Core.Records.{normalize_memory_metadata}
use undr.Core.Batch.{WriteBatch, batch_is_empty}
use undr.Wal.Record.{Bytes, WalRecord, write_batch}
use undr.Wal.Log.{Wal, AppendIo, append}
use undr.Storage.Batch.{
  check_each, validate_namespaced_edge, BatchEffects, batch_effects, normalize_write_batch,
  validate_batch_against_maps, apply_batch_to_maps_unchecked,
}
use undr.Storage.Engine.{
  StorageEngine, StorageCodec, apply_write_batch_with_snapshot_readers, publish_appended,
  append_payload, write_prepared, prepare_batch, preserve_historical_versions, publish,
}

-- What an answer of the engine says of its maps, its revision and its pending entries.
abbrev pub IsAtomic : StorageEngine → WriteBatch → Result ℕ × StorageEngine → Type 0
IsAtomic engine batch (ok lsn, after) =
    (after.nodes ≡ (apply_batch_to_maps_unchecked engine.nodes engine.edges batch).0)
    × (after.edges ≡ (apply_batch_to_maps_unchecked engine.nodes engine.edges batch).1)
    × (after.commit_revision ≡ lsn)
IsAtomic engine batch (err e, after) =
    (after.nodes ≡ engine.nodes)
    × (after.edges ≡ engine.edges)
    × (after.commit_revision ≡ engine.commit_revision)
IsAtomic engine batch (panic, after) =
    (after.nodes ≡ engine.nodes)
    × (after.edges ≡ engine.edges)
    × (after.commit_revision ≡ engine.commit_revision)

published-IsAtomic :
    (before engine : StorageEngine) (readers : Bool) (effects : BatchEffects) (batch : WriteBatch)
    (p : Result WalRecord × Wal)
    → before.nodes ≡ engine.nodes
    → before.edges ≡ engine.edges
    → before.commit_revision ≡ engine.commit_revision
    → IsAtomic before batch (publish_appended readers effects batch engine p)
unfolding publish
published-IsAtomic before engine true effects batch (ok w, wal) n e c =
    (rw (n, e) refl, rw (n, e) refl, refl)
published-IsAtomic before engine false effects batch (ok w, wal) n e c =
    (rw (n, e) refl, rw (n, e) refl, refl)
published-IsAtomic before engine readers effects batch (err x, wal) n e c = (sym n, sym e, sym c)
published-IsAtomic before engine readers effects batch (panic, wal) n e c = (sym n, sym e, sym c)

payload-IsAtomic :
    (codec : StorageCodec) (answer : AppendIo) (before engine : StorageEngine) (readers : Bool)
    (effects : BatchEffects) (batch : WriteBatch) (payload : Option Bytes)
    → before.nodes ≡ engine.nodes
    → before.edges ≡ engine.edges
    → before.commit_revision ≡ engine.commit_revision
    → IsAtomic before batch (append_payload codec answer readers effects batch payload engine)
payload-IsAtomic codec answer before engine readers effects batch none n e c = (sym n, sym e, sym c)
payload-IsAtomic codec answer before engine readers effects batch (some payload) n e c =
    published-IsAtomic before engine readers effects batch
      (append codec.log answer write_batch payload engine.wal) n e c

prepared-IsAtomic :
    (codec : StorageCodec) (answer : AppendIo) (engine : StorageEngine) (readers : Bool)
    (batch : WriteBatch) (prepared : Result WriteBatch)
    → ((b : WriteBatch) → prepared ≡ ok b → b ≡ batch)
    → IsAtomic engine batch (write_prepared codec answer readers prepared engine)
unfolding preserve_historical_versions
prepared-IsAtomic codec answer engine true batch (ok b) same =
    subst (λ t. IsAtomic engine t (write_prepared codec answer true (ok b) engine)) (same b refl)
      (payload-IsAtomic codec answer engine
        (preserve_historical_versions (batch_effects engine.edges b) engine) true
        (batch_effects engine.edges b) b (codec.to_vec b) refl refl refl)
prepared-IsAtomic codec answer engine false batch (ok b) same =
    subst (λ t. IsAtomic engine t (write_prepared codec answer false (ok b) engine)) (same b refl)
      (payload-IsAtomic codec answer engine engine false (batch_effects engine.edges b) b
        (codec.to_vec b) refl refl refl)
prepared-IsAtomic codec answer engine readers batch (err e) same = (refl, refl, refl)
prepared-IsAtomic codec answer engine readers batch panic same = (refl, refl, refl)

-- A successful sequence of two steps had a successful first one.
pub bind_ok {ℓ κ} :
    {A : Type ℓ} {B : Type κ} (m : Result A) (f : A → Result B) (b : B)
    → (m >>= f) ≡ ok b
    → (a : A) × (m ≡ ok a) × (f a ≡ ok b)
bind_ok (ok a) f b h = (a, refl, h)
bind_ok (err e) f b h = cc
bind_ok panic f b h = cc

pub then_ok {κ} :
    {B : Type κ} (m : Result (Unit {0})) (k : Result B) (b : B)
    → (m >> k) ≡ ok b
    → (m ≡ ok tt) × (k ≡ ok b)
then_ok (ok u) k b h = (refl, h)
then_ok (err e) k b h = cc
then_ok panic k b h = cc

normalize_write_batch-ok : (batch n : WriteBatch) → normalize_write_batch batch ≡ ok n → n ≡ batch
unfolding normalize_write_batch
normalize_write_batch-ok batch n h =
    let edges = then_ok (check_each normalize_memory_metadata batch.nodes_upserted) _ n h in
    let same = then_ok (check_each validate_namespaced_edge batch.edges_upserted) _ n edges.1 in
    let here : ok n ≡ ok batch = sym same.1 in cc (here)

-- What passes the checks is the batch itself, valid for the maps.
pub prepare_batch-ok :
    (engine : StorageEngine) (batch b : WriteBatch)
    → prepare_batch engine batch ≡ ok b
    → (b ≡ batch) × (validate_batch_against_maps engine.nodes engine.edges batch ≡ ok tt)
unfolding prepare_batch
prepare_batch-ok engine batch b h =
    let (n, normal, rest) = bind_ok (normalize_write_batch batch) _ b h in
    let filled = then_ok (ensure (not (batch_is_empty n)) validation) _ b rest in
    let checked =
      then_ok (validate_batch_against_maps engine.nodes engine.edges n) (ok n) b filled.1 in
    let valid : validate_batch_against_maps engine.nodes engine.edges n ≡ ok tt = checked.0 in
    let last : ok n ≡ ok b = checked.1 in
    let here : n ≡ batch = normalize_write_batch-ok batch n normal in
    let there : n ≡ b = cc last in
    (
      sym there ∙ here,
      subst (λ t. validate_batch_against_maps engine.nodes engine.edges t ≡ ok tt) here valid,
    )

-- A write that succeeds applies its whole batch to the maps, and the number it returns is the new
-- revision. A write that fails, wherever it does, changes neither the maps nor the revision.
pub write-IsAtomic :
    (codec : StorageCodec) (answer : AppendIo) (engine : StorageEngine) (batch : WriteBatch)
    (readers : ℕ)
    → IsAtomic engine batch
        (apply_write_batch_with_snapshot_readers codec answer batch readers engine)
unfolding apply_write_batch_with_snapshot_readers
write-IsAtomic codec answer engine batch readers =
    prepared-IsAtomic codec answer engine (ltb 0 readers) batch (prepare_batch engine batch)
      (λ b h. (prepare_batch-ok engine batch b h).0)
