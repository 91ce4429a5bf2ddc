-- ===== src/Tests/Engine.antt =====
-- The theorems on the engine of Tests/Sample (crates/storage/src/lib.rs).
use undr.Base.{
  String, ◌≡◌, refl, inl, inr, true, false, List, [], ◌∷◌, none, some, arith, string_key,
}
use undr.Base.Map
use undr.Base.Set
use undr.Common.{Result, ok, err, validation, conflict}
use undr.Common.Decimal.{transaction_name}
use undr.Core.Records.{EdgeRecord, normalize_memory_metadata}
use undr.Core.Batch.{batch_is_empty, TransactionSummary, active, snapshot, upsert_node, upsert_edge}
use undr.Wal.Record.{WalRecord, new_record, encode_record}
use undr.Wal.Log.{append, written, write_fails}
use undr.Wal.Append.Invariant.{IsLog}
use undr.Storage.Batch.{
  merge_write_batches, extend_touched_nodes, extend_touched_edges, batch_for_operation,
  normalize_write_batch, validate_batch_against_maps, apply_batch_to_maps_unchecked, batch_effects,
}
use undr.Storage.Batch.Pointwise.{apply_batch_pointwise, node_after, edge_after}
use undr.Storage.Batch.Effects.{batch_effects_complete}
use undr.Storage.Batch.Integrity.{IsSound, apply-IsSound}
use undr.Storage.Versions.{visible_value_at_revision}
use undr.Storage.Engine.{StorageEngine, apply_write_batch_with_snapshot_readers, apply_write_batch}
use undr.Storage.Engine.Atomic.{IsAtomic, write-IsAtomic}
use undr.Storage.Transactions.{
  commit_transaction, stage_transaction_operation, rollback_transaction,
}
use undr.Storage.Transactions.Snapshot.{IsReady, ReadsSame, write_isolated}
use undr.Storage.Transactions.Commit.{commit_isolated, commit_conflicts, rollback_isolated}
use undr.Storage.Transactions.Interleaving.{
  Operation, write, begin, commit, perform, perform_all, AreForeign, snapshot_isolation,
  perform-IsReady,
}
use undr.Storage.Transactions.Stage.{ReadsBack, stage-ReadsBack, stage_failure_drops}
use undr.Storage.Recovery.{recover_records}
use undr.Storage.Recovery.Durable.{IsRecovered, write_survives}
use undr.Tests.Sample.{
  new_a, nodes, edges, Unique-edges, keyed_edges, sound, update_a, delete_b, session, log_codec,
  codec, wal, engine, ready,
}

valid : validate_batch_against_maps nodes edges delete_b ≡ ok tt
unfolding validate_batch_against_maps
valid = refl

apply-IsSound_example :
    IsSound
      (apply_batch_to_maps_unchecked nodes edges delete_b).0
      (apply_batch_to_maps_unchecked nodes edges delete_b).1
apply-IsSound_example = apply-IsSound nodes edges delete_b sound valid

batch_effects_complete_example :
    (Set.contains "a" (batch_effects edges delete_b).touched_node_ids ≡ false
      → Map.get "a" (apply_batch_to_maps_unchecked nodes edges delete_b).0 ≡ Map.get "a" nodes)
    × (Set.contains "a" (batch_effects edges delete_b).touched_edge_ids ≡ false
        → Map.get "a" (apply_batch_to_maps_unchecked nodes edges delete_b).1 ≡ Map.get "a" edges)
batch_effects_complete_example =
    batch_effects_complete nodes edges delete_b "a" Unique-edges keyed_edges

apply_batch_pointwise_example :
    (Map.get "e" (apply_batch_to_maps_unchecked nodes edges delete_b).0
      ≡ node_after delete_b "e" (Map.get "e" nodes))
    × (Map.get "e" (apply_batch_to_maps_unchecked nodes edges delete_b).1
        ≡ edge_after delete_b "e" (Map.get "e" edges))
apply_batch_pointwise_example = apply_batch_pointwise nodes edges delete_b "e" Unique-edges

write-IsAtomic_example :
    IsAtomic engine delete_b
      (apply_write_batch_with_snapshot_readers codec (write_fails 3) delete_b 2 engine)
write-IsAtomic_example = write-IsAtomic codec (write_fails 3) engine delete_b 2

write_isolated_example :
    ReadsSame "tx_1" "b" engine (apply_write_batch codec written delete_b engine).1
write_isolated_example = write_isolated codec written engine ready "tx_1" "b" delete_b

commit_isolated_example :
    ReadsSame "tx_2" "b" engine (commit_transaction codec written "tx_1" engine).1
commit_isolated_example = commit_isolated "tx_1" "tx_2" "b" refl codec written engine ready

rollback_isolated_example : ReadsSame "tx_2" "b" engine (rollback_transaction "tx_1" engine).1
rollback_isolated_example = rollback_isolated engine "tx_1" "tx_2" "b" refl

found_two : Map.get "tx_2" engine.transactions ≡ some (session "tx_2" update_a ("a" ∷ []))
unfolding Map.get
found_two = refl

a_at_three : Map.get "a" engine.node_lineage ≡ some 3
unfolding Map.get
a_at_three = refl

touches_a : Set.contains {K = String} "a" ("a" ∷ []) ≡ true
unfolding Set.contains
touches_a = refl

commit_conflicts_example : commit_transaction codec written "tx_2" engine ≡ (err conflict, engine)
commit_conflicts_example =
    commit_conflicts codec written engine "tx_2" (session "tx_2" update_a ("a" ∷ [])) 3 "a"
      found_two refl refl (inl (touches_a, a_at_three))

abbrev staged : Result TransactionSummary × StorageEngine
staged = stage_transaction_operation "tx_2" (upsert_node new_a) engine

abbrev staged_summary : TransactionSummary
staged_summary = record {
  transaction_id = "tx_2";
  isolation_level = snapshot;
  state = active;
  started_at_revision = 1;
  staged_operation_count = 2;
  touched_node_count = 1;
  touched_edge_count = 0;
}

staging :
    stage_transaction_operation "tx_2" (upsert_node new_a) engine ≡ (ok staged_summary, staged.1)
unfolding stage_transaction_operation Map.get merge_write_batches extend_touched_nodes
    extend_touched_edges batch_for_operation Set.extend Set.insert Set.contains
staging = refl

stage-ReadsBack_example : ReadsBack "tx_2" (upsert_node new_a) staged.1
stage-ReadsBack_example =
    stage-ReadsBack engine staged.1 "tx_2" (session "tx_2" update_a ("a" ∷ [])) (upsert_node new_a)
      staged_summary found_two refl staging

abbrev dangling : EdgeRecord
dangling = record { id = "f"; source = "a"; target = "z"; edge_type = "next"; properties = [] }

abbrev refused : StorageEngine
refused = (stage_transaction_operation "tx_2" (upsert_edge dangling) engine).1

refusing :
    stage_transaction_operation "tx_2" (upsert_edge dangling) engine ≡ (err validation, refused)
unfolding stage_transaction_operation Map.get visible_value_at_revision
refusing = refl

stage_failure_drops_example : Map.get "tx_2" refused.transactions ≡ none
stage_failure_drops_example =
    stage_failure_drops engine refused "tx_2" (upsert_edge dangling) validation refusing

empty-IsLog : IsLog log_codec wal []
empty-IsLog = record {
  closed = [];
  active = [];
  early = [];
  late = [];
  stored = refl;
  frames = refl;
  below = tt;
  layout = inr (refl, refl);
  whole = refl;
}

recovered : IsRecovered codec 3 engine [] engine
recovered = record {
  rebuilt = engine;
  seen = none;
  runs = unfold recover_records in refl;
  same_nodes = refl;
  same_edges = refl;
}

abbrev deleted : StorageEngine
deleted = (apply_write_batch_with_snapshot_readers codec written delete_b 2 engine).1

deleting : apply_write_batch_with_snapshot_readers codec written delete_b 2 engine ≡ (ok 4, deleted)
unfolding apply_write_batch_with_snapshot_readers normalize_write_batch batch_is_empty
    validate_batch_against_maps append new_record encode_record
deleting = refl

write_survives_example :
    (r : WalRecord) × IsLog log_codec deleted.wal (r ∷ [])
    × IsRecovered codec 3 engine (r ∷ []) deleted
write_survives_example =
    write_survives codec written engine deleted engine delete_b 2 3 4 [] empty-IsLog (omega arith)
      recovered (omega arith) (λ payload made. refl) deleting

abbrev operations : List Operation
operations = commit written "tx_1" ∷ write (write_fails 3) update_a ∷ begin snapshot ∷ []

after_commit : (commit_transaction codec written "tx_1" engine).1.wal.next_lsn ≡ 5
unfolding commit_transaction apply_write_batch_with_snapshot_readers normalize_write_batch
    batch_is_empty validate_batch_against_maps append new_record encode_record Map.get Map.remove
after_commit = refl

new_name :
    string_key.beq
      (transaction_name
        (perform codec
          (write (write_fails 3) update_a)
          (perform codec (commit written "tx_1") engine)).next_transaction_ordinal)
      "tx_2"
    ≡ false
unfolding transaction_name apply_write_batch commit_transaction
    apply_write_batch_with_snapshot_readers normalize_write_batch batch_is_empty
    validate_batch_against_maps append new_record encode_record normalize_memory_metadata
    Map.contains_key Map.get Map.remove
new_name = refl

foreign : AreForeign codec "tx_2" operations engine
foreign = ((refl, omega arith), (omega (arith, after_commit), (new_name, tt)))

snapshot_isolation_example : ReadsSame "tx_2" "b" engine (perform_all codec operations engine)
snapshot_isolation_example = snapshot_isolation codec "tx_2" "b" operations engine foreign ready

perform-IsReady_example : IsReady (perform codec (commit written "tx_1") engine)
perform-IsReady_example =
    perform-IsReady codec "tx_2" (commit written "tx_1") engine (refl, omega arith) ready
