-- ===== src/Storage.antt =====
-- graph-engine/crates/graph-storage/src/lib.rs: property values, rows, and the interface of a reader. An `f64` is kept as its
-- 64 bits, and compared as IEEE 754 orders the values that these stand for.
pub mod Value
pub mod Reader
pub mod Conforms
pub mod Rows
use doi.Prelude.{
  ℕ, ◌*◌, ◌%◌, ◌^◌, String, Bool, ◌||◌, List, Result, Option, none, some, Ordering, ltb,
  if◌then◌else◌,
}
use doi.Prelude.Int.{ℤ, pos, neg, compare_ℤ}
use doi.Schema.{NodeId, EdgeId, Schema, Label, EdgeType}

-- a `SnapshotId` is an `i64`
abbrev pub SnapshotId : Type 0
SnapshotId = ℤ

mutual
  pub data PropertyValue : Type 0 where
    int64 : ℤ → PropertyValue
    float64 : ℕ → PropertyValue
    bool : Bool → PropertyValue
    string : String → PropertyValue
    timestamp : ℤ → PropertyValue
    bytes : List ℕ → PropertyValue
    list : PropertyValues → PropertyValue
    null : PropertyValue

  pub data PropertyValues : Type 0 where
    nil : PropertyValues
    cons : PropertyValue → PropertyValues → PropertyValues

-- `BTreeMap<String, PropertyValue>`, read by key only
abbrev pub Properties : Type 0
Properties = List (String × PropertyValue)

pub record NodeRow : Type 0 where
  pub id : NodeId
  pub properties : Properties

pub record EdgeRow : Type 0 where
  pub id : EdgeId
  pub src : NodeId
  pub dst : NodeId
  pub properties : Properties

-- The exponent is all ones and the fraction is not zero.
pub is_nan : ℕ → Bool
is_nan bits = ltb (0x7ff * 2 ^ 52) (bits % 2 ^ 63)

-- The order of doubles is that of sign and magnitude, with the two zeros equal.
pub float_order : ℕ → ℤ
float_order bits = if ltb bits (2 ^ 63) then pos (bits % 2 ^ 63) else neg (bits % 2 ^ 63)

-- `f64::partial_cmp`
unfoldable pub partial_cmp : ℕ → ℕ → Option Ordering
unfolding is_nan float_order
partial_cmp a b =
    if is_nan a || is_nan b then none else some (compare_ℤ (float_order a) (float_order b))

pub data StorageError : Type 0 where
  table_not_found snapshot_resolution non_conforming_row backend : String → StorageError

-- The trait. A stream is the list of the results that it yields, and a reader answers the same
-- question the same way for the time of one build.
pub record IcebergReader : Type 0 where
  pub latest_snapshot : (table : String) → Result StorageError SnapshotId
  pub scan_nodes :
      Schema → Label → SnapshotId → Result StorageError (List (Result StorageError NodeRow))
  pub scan_edges :
      Schema → EdgeType → SnapshotId → Result StorageError (List (Result StorageError EdgeRow))
