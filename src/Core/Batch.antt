-- ===== src/Core/Batch.antt =====
-- `WriteBatch` and the types of the transactions, of crates/core/src/lib.rs.
use undr.Base.{ℕ, Bool, ◌&&◌, List, [], is_empty}
use undr.Common.{NodeId, EdgeId, TransactionId}
use undr.Core.Records.{NodeRecord, EdgeRecord}

pub record WriteBatch : Type 0 where
  pub nodes_upserted : List NodeRecord
  pub edges_upserted : List EdgeRecord
  pub deleted_node_ids : List NodeId
  pub deleted_edge_ids : List EdgeId

-- `WriteBatch::default()`
abbrev pub empty_batch : WriteBatch
empty_batch = record {
  nodes_upserted = [];
  edges_upserted = [];
  deleted_node_ids = [];
  deleted_edge_ids = [];
}

unfoldable pub batch_is_empty : WriteBatch → Bool
batch_is_empty batch =
    is_empty batch.nodes_upserted
    && is_empty batch.edges_upserted
    && is_empty batch.deleted_node_ids
    && is_empty batch.deleted_edge_ids

pub data IsolationLevel : Type 0 where
  snapshot : IsolationLevel

pub data TransactionState : Type 0 where
  active committed rolled_back : TransactionState

pub data TransactionOperation : Type 0 where
  upsert_node : NodeRecord → TransactionOperation
  upsert_edge : EdgeRecord → TransactionOperation
  delete_node : NodeId → TransactionOperation
  delete_edge : EdgeId → TransactionOperation

pub record TransactionSummary : Type 0 where
  pub transaction_id : TransactionId
  pub isolation_level : IsolationLevel
  pub state : TransactionState
  pub started_at_revision : ℕ
  pub staged_operation_count : ℕ
  pub touched_node_count : ℕ
  pub touched_edge_count : ℕ

pub record TransactionCommitResult : Type 0 where
  pub transaction_id : TransactionId
  pub committed_revision : ℕ
  pub committed_lsn : ℕ
  pub staged_operation_count : ℕ
