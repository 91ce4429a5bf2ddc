-- ===== src/Core/Records.antt =====
-- `NodeRecord` and `EdgeRecord` of crates/core/src/lib.rs.
use undr.Base.{ℕ, String, List, [], Option, none, some, is_blank, before_first, not, string_key}
use undr.Base.Int.{ℤ}
use undr.Base.Map
use undr.Base.Map.{BTreeMap, is_some}
use undr.Common.{NodeId, EdgeId, validation, Result, ok, ensure, ◌>>◌}
use undr.Core.Value.{PropertyValue, as_i64, as_f32}

pub record NodeRecord : Type 0 where
  pub id : NodeId
  pub node_type : String
  pub properties : BTreeMap String PropertyValue
  pub vectors : BTreeMap String (List ℕ)

pub record EdgeRecord : Type 0 where
  pub id : EdgeId
  pub source : NodeId
  pub target : NodeId
  pub edge_type : String
  pub properties : BTreeMap String PropertyValue

unfoldable pub validate_kind : String → Result (Unit {0})
validate_kind value = ensure (not (is_blank value)) validation

unfoldable pub validate_property_key : String → Result (Unit {0})
validate_property_key key = ensure (not (is_blank key)) validation

unfoldable pub new_node : NodeId → String → Result NodeRecord
unfolding validate_kind
new_node id node_type = do
  validate_kind node_type
  ok (record { id = id; node_type = node_type; properties = []; vectors = [] })

unfoldable pub with_property : NodeRecord → String → PropertyValue → Result NodeRecord
unfolding validate_property_key
with_property node key value = do
  validate_property_key key
  ok (record node { properties = Map.insert key value node.properties })

unfoldable pub with_vector : NodeRecord → String → List ℕ → Result NodeRecord
unfolding validate_property_key
with_vector node name values = do
  validate_property_key name
  ok (record node { vectors = Map.insert name values node.vectors })

unfoldable pub property : NodeRecord → String → Option PropertyValue
property node key = Map.get key node.properties

-- The text before the first ':' of an identifier.
unfoldable pub namespace : NodeRecord → Option String
namespace node = before_first b':' node.id

unfoldable pub vector : NodeRecord → String → Option (List ℕ)
vector node name = Map.get name node.vectors

unfoldable pub embedding : NodeRecord → Option (List ℕ)
embedding node = vector node "default"

abbrev pub and_then {ℓ κ} : {A : Type ℓ} {B : Type κ} → Option A → (A → Option B) → Option B
and_then none f = none
and_then (some a) f = f a

unfoldable pub timestamp_ms : NodeRecord → Option ℤ
timestamp_ms node = and_then (property node "timestamp") as_i64

unfoldable pub importance : NodeRecord → Option ℕ
importance node = and_then (property node "importance") as_f32

unfoldable pub confidence : NodeRecord → Option ℕ
confidence node = and_then (property node "confidence") as_f32

-- `if let Some(value) = value { if convert(value).is_none() { return Err(..) } }`
unfoldable pub require_convertible {ℓ} :
    {A : Type ℓ} → (PropertyValue → Option A) → Option PropertyValue → Result (Unit {0})
require_convertible convert none = ok tt
require_convertible convert (some value) = ensure (is_some (convert value)) validation

-- It checks alone: no branch of it writes to the record.
unfoldable pub normalize_memory_metadata : NodeRecord → Result (Unit {0})
unfolding require_convertible
normalize_memory_metadata node = do
  ensure (not (Map.contains_key "embedding" node.properties)) validation
  require_convertible as_i64 (Map.get "timestamp" node.properties)
  require_convertible as_f32 (Map.get "importance" node.properties)
  require_convertible as_f32 (Map.get "confidence" node.properties)

unfoldable pub new_edge : EdgeId → NodeId → NodeId → String → Result EdgeRecord
unfolding validate_kind
new_edge id source target edge_type = do
  validate_kind edge_type
  ok (record { id = id; source = source; target = target; edge_type = edge_type; properties = [] })
