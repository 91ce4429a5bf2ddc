-- ===== src/Tests/Sample.antt =====
-- An engine with two nodes, an edge and two transactions (crates/storage/src/lib.rs).
use mathlib.Core.Option.{some-injective}
use undr.Base.{
  String, Bool-cases, ◌≡◌, refl, subst, inl, inr, ◌≤◌, true, false, List, [], ◌∷◌, none, some,
  arith, string_key,
}
use undr.Base.Int.{pos}
use undr.Base.Map
use undr.Core.Value.{integer}
use undr.Core.Records.{NodeRecord, EdgeRecord}
use undr.Core.Batch.{WriteBatch, empty_batch, active, snapshot}
use undr.Wal.Record.{Codec}
use undr.Wal.Log.{Wal, fsync_on_write}
use undr.Storage.Batch.{Nodes, Edges}
use undr.Storage.Batch.Integrity.{IsSound}
use undr.Storage.Engine.{TransactionSession, StorageEngine, StorageCodec}
use undr.Storage.Transactions.Snapshot.{IsReady}

abbrev pub a : NodeRecord
a = record {
  id = "a";
  node_type = "memory";
  properties = ("timestamp", integer (pos 5)) ∷ [];
  vectors = ("default", 0x3f800000 ∷ []) ∷ [];
}

abbrev pub b : NodeRecord
b = record { id = "b"; node_type = "memory"; properties = []; vectors = [] }

abbrev pub new_a : NodeRecord
new_a = record { id = "a"; node_type = "fact"; properties = []; vectors = [] }

abbrev pub e : EdgeRecord
e = record { id = "e"; source = "a"; target = "b"; edge_type = "next"; properties = [] }

abbrev pub nodes : Nodes
nodes = ("a", a) ∷ ("b", b) ∷ []

abbrev pub edges : Edges
edges = ("e", e) ∷ []

pub Unique-nodes : Map.Unique nodes
unfolding Map.get
Unique-nodes = (refl, (refl, tt))

pub Unique-edges : Map.Unique edges
unfolding Map.get
Unique-edges = (refl, tt)

pub keyed_nodes : (key : String) (node : NodeRecord) → Map.get key nodes ≡ some node → node.id ≡ key
unfolding Map.get
keyed_nodes key node found = ground (arith, string_key.beq_iff "a" key, string_key.beq_iff "b" key)

pub keyed_edges : (key : String) (edge : EdgeRecord) → Map.get key edges ≡ some edge → edge.id ≡ key
unfolding Map.get
keyed_edges key edge found = ground (arith, string_key.beq_iff "e" key)

pub attached :
    (key : String) (edge : EdgeRecord)
    → Map.get key edges ≡ some edge
    → (Map.is_some (Map.get edge.source nodes) ≡ true)
      × (Map.is_some (Map.get edge.target nodes) ≡ true)
unfolding Map.get
attached key edge found = elim (Bool-cases (string_key.beq "e" key)) [
  | inl same ↦
      subst
        (λ (x : EdgeRecord).
          (Map.is_some (Map.get x.source nodes) ≡ true)
          × (Map.is_some (Map.get x.target nodes) ≡ true))
        (some-injective e edge (rw same at found)) (refl, refl)
  | inr other ↦ cc (rw other at found)
]

pub sound : IsSound nodes edges
sound = record {
  unique_nodes = Unique-nodes;
  unique_edges = Unique-edges;
  keyed_nodes = keyed_nodes;
  keyed_edges = keyed_edges;
  attached = attached;
}

abbrev pub update_a : WriteBatch
update_a = record empty_batch { nodes_upserted = new_a ∷ [] }

abbrev pub delete_b : WriteBatch
delete_b = record empty_batch { deleted_node_ids = "b" ∷ [] }

abbrev pub session : String → WriteBatch → List String → TransactionSession
session id batch touched = record {
  transaction_id = id;
  isolation_level = snapshot;
  state = active;
  started_at_revision = 1;
  node_overrides = [];
  edge_overrides = [];
  staged_batch = batch;
  touched_node_ids = touched;
  touched_edge_ids = [];
}

abbrev pub log_codec : Codec
log_codec = record {
  crc32 = λ bytes. 5;
  to_allocvec = λ r. some (1 ∷ []);
  from_bytes = λ bytes. none;
}

abbrev pub codec : StorageCodec
codec = record {
  log = log_codec;
  to_vec = λ batch. some (4 ∷ []);
  from_slice = λ bytes. some delete_b;
  from_postcard = λ bytes. none;
  reads_marker = λ bytes. true;
}

abbrev pub wal : Wal
wal = record {
  segments = [];
  runtime = record {
    segment_size_bytes = 100;
    durability_mode = fsync_on_write;
    max_replay_bytes = 1000;
  };
  active_segment_id = 1;
  next_lsn = 4;
}

-- "a" has changed at the revision 3, after "tx_1" and "tx_2" began.
abbrev pub engine : StorageEngine
engine = record {
  manifest = record { last_clean_shutdown = true; last_applied_lsn = some 1 };
  wal = wal;
  nodes = nodes;
  edges = edges;
  node_lineage = ("a", 3) ∷ ("b", 1) ∷ [];
  edge_lineage = ("e", 1) ∷ [];
  node_versions = [];
  edge_versions = [];
  commit_revision = 3;
  latest_applied_lsn = some 3;
  checkpoint_dirty = false;
  pending_checkpoint_entries = [];
  next_transaction_ordinal = 3;
  transactions =
      ("tx_1", session "tx_1" delete_b ("b" ∷ []))
      ∷ ("tx_2", session "tx_2" update_a ("a" ∷ []))
      ∷ [];
}

pub began :
    (id : String) (s : TransactionSession)
    → Map.get id engine.transactions ≡ some s
    → s.started_at_revision ≤ 3
unfolding Map.get
began id s found = elim (Bool-cases (string_key.beq "tx_1" id)) [
  | inl first ↦
      subst (λ (x : TransactionSession). x.started_at_revision ≤ 3)
        (some-injective _ s (rw first at found)) (omega arith)
  | inr not_first ↦ elim (Bool-cases (string_key.beq "tx_2" id)) [
    | inl second ↦
        subst (λ (x : TransactionSession). x.started_at_revision ≤ 3)
          (some-injective _ s (rw (not_first, second) at found)) (omega arith)
    | inr other ↦ cc (rw (not_first, other) at found)
  ]
]

pub ready : IsReady engine
ready = record { sound = sound; revision_below = omega arith; began = began }
