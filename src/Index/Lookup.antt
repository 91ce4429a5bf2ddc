-- ===== src/Index/Lookup.antt =====
-- Records by their identifiers, as a function, which `updated` changes at one of them; and the
-- conditions on a record that lookups ask for.
use undr.Base.{
  Bool, true, false, ◌&&◌, ◌||◌, String, Option, none, some, string_key, ◌==◌, if◌then◌else◌,
}
use undr.Base.Int.{ℤ, leb_ℤ}
use undr.Common.{NodeId}
use undr.Core.Records.{EdgeRecord}

abbrev pub Lookup : Type 0 → Type 0
Lookup A = String → Option A

abbrev pub updated : {A : Type 0} → String → Option A → Lookup A → Lookup A
updated id value records key = if string_key.beq id key then value else records key

-- `option.is_some_and(test)`
abbrev pub has {ℓ} : {A : Type ℓ} → (A → Bool) → Option A → Bool
has test none = false
has test (some a) = test a

pub data EdgeDirection : Type 0 where
  outgoing incoming both : EdgeDirection

-- The edge leaves the node, enters it, or either.
abbrev pub touches : NodeId → EdgeDirection → EdgeRecord → Bool
touches id outgoing edge = edge.source == id
touches id incoming edge = edge.target == id
touches id both edge = edge.source == id || edge.target == id

abbrev pub has_type : Option String → EdgeRecord → Bool
has_type none edge = true
has_type (some value) edge = edge.edge_type == value

abbrev pub is_within : ℤ → ℤ → Option ℤ → Bool
is_within from to none = false
is_within from to (some time) = leb_ℤ from time && leb_ℤ time to
