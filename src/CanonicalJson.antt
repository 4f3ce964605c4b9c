-- ===== src/CanonicalJson.antt =====
-- JSONLimits, `_validate_tree` and `canonicalize_json_value` of
-- packages/contracts/src/superlily_contracts/canonical_json.py. An integer is
-- its sign and its magnitude, a finite float its decimal text, and a value that json does not have its type's name.
pub mod Measures
pub mod Limits
mod Tests
use Prim.Native.String.{len, count as text_length, ◌++◌ as text_append}
use superlily.Base.{ℕ, ◌+◌, Bool, true, false, ◌&&◌, String, Option, none, some, if◌then◌else◌, ltb}

pub record JsonLimits : Type 0 where
  pub max_source_bytes : ℕ
  pub max_depth : ℕ
  pub max_object_properties : ℕ
  pub max_array_items : ℕ
  pub max_total_nodes : ℕ
  pub max_string_characters : ℕ

pub data Float : Type 0 where
  finite : String → Float
  infinite : Bool → Float
  nan : Float

pub data Key : Type 0 where
  text : String → Key
  no_text : Key

mutual
  pub data Json : Type 0 where
    null : Json
    boolean : Bool → Json
    string : String → Json
    integer : Bool → ℕ → Json
    float : Float → Json
    list : Items → Json
    dict : Members → Json
    other : String → Json

  pub data Items : Type 0 where
    no_items : Items
    item : Json → Items → Items

  pub data Members : Type 0 where
    no_members : Members
    member : Key → Json → Members → Members

-- a value, or a CanonicalJSONError with its text
pub data Checked (A : Type 0) : Type 0 where
  checked : A → Checked A
  canonical_json_error : String → Checked A

abbrev pub and_then : {A B : Type 0} → Checked A → (A → Checked B) → Checked B
and_then (checked a) f = f a
and_then (canonical_json_error e) f = canonical_json_error e

-- math.isfinite
unfoldable pub is_finite : Float → Bool
is_finite (finite s) = true
is_finite _ = false

unfoldable pub item_count : Items → ℕ
item_count no_items = 0
item_count (item v rest) = item_count rest + 1

unfoldable pub member_count : Members → ℕ
member_count no_members = 0
member_count (member k v rest) = member_count rest + 1

-- what a visit does before it looks at the node
unfoldable pub enter : JsonLimits → ℕ → ℕ → Checked ℕ → Checked ℕ
enter limits depth node_count visited =
    if ltb limits.max_total_nodes (node_count + 1)
    then canonical_json_error "JSON node limit exceeded"
    else if ltb limits.max_depth depth
    then canonical_json_error "JSON depth limit exceeded"
    else visited

unfoldable pub check_key : JsonLimits → Key → Checked ℕ → Checked ℕ
check_key limits no_text visited = canonical_json_error "JSON object keys must be strings"
check_key limits (text k) visited =
    if ltb limits.max_string_characters (text_length k)
    then canonical_json_error "JSON object key length limit exceeded"
    else visited

-- a visit returns the node count that it leaves
unfoldable mutual
  unfolding enter is_finite item_count member_count check_key

  pub visit : JsonLimits → Json → ℕ → ℕ → Checked ℕ
  visit limits null depth node_count = enter limits depth node_count (checked (node_count + 1))
  visit limits (boolean b) depth node_count =
      enter limits depth node_count (checked (node_count + 1))
  visit limits (string s) depth node_count = enter limits depth node_count (
      if ltb limits.max_string_characters (text_length s)
      then canonical_json_error "JSON string length limit exceeded"
      else checked (node_count + 1))
  visit limits (integer sign n) depth node_count =
      enter limits depth node_count (checked (node_count + 1))
  visit limits (float x) depth node_count = enter limits depth node_count (
      if is_finite x
      then checked (node_count + 1)
      else canonical_json_error "non-finite JSON number is forbidden")
  visit limits (list items) depth node_count = enter limits depth node_count (
      if ltb limits.max_array_items (item_count items)
      then canonical_json_error "JSON array item limit exceeded"
      else visit_items limits items depth (node_count + 1))
  visit limits (dict members) depth node_count = enter limits depth node_count (
      if ltb limits.max_object_properties (member_count members)
      then canonical_json_error "JSON object property limit exceeded"
      else visit_members limits members depth (node_count + 1))
  visit limits (other type_name) depth node_count =
      enter limits depth node_count
        (canonical_json_error (text_append "unsupported JSON value type: " type_name))

  pub visit_items : JsonLimits → Items → ℕ → ℕ → Checked ℕ
  visit_items limits no_items depth node_count = checked node_count
  visit_items limits (item v rest) depth node_count =
      and_then (visit limits v (depth + 1) node_count) (λ n. visit_items limits rest depth n)

  pub visit_members : JsonLimits → Members → ℕ → ℕ → Checked ℕ
  visit_members limits no_members depth node_count = checked node_count
  visit_members limits (member k v rest) depth node_count =
      check_key limits k
        (and_then (visit limits v (depth + 1) node_count) (λ n. visit_members limits rest depth n))

-- `_validate_tree`, with the number of nodes that it counted
unfoldable pub validate_tree : JsonLimits → Json → Checked ℕ
unfolding visit
validate_tree limits value = visit limits value 0 0

pub record CanonicalJson : Type 0 where
  pub value : Json
  pub canonical_bytes : String
  pub sha256 : String

-- JSONLimits()
abbrev pub default_limits : JsonLimits
default_limits = record {
  max_source_bytes = 262144;
  max_depth = 32;
  max_object_properties = 512;
  max_array_items = 4096;
  max_total_nodes = 32768;
  max_string_characters = 262144;
}

-- the checks of the text that rfc8785.dumps returned, `none` where it raised
unfoldable pub check_bytes :
    (String → String) → JsonLimits → Json → Option String → Checked CanonicalJson
check_bytes sha256 limits value none =
    canonical_json_error "JSON value is outside the RFC 8785 domain"
check_bytes sha256 limits value (some canonical_bytes) =
    if ltb limits.max_source_bytes (len canonical_bytes)
    then canonical_json_error "canonical JSON byte limit exceeded"
    else checked (record {
      value = value;
      canonical_bytes = canonical_bytes;
      sha256 = sha256 canonical_bytes;
    })

-- `dumps` is rfc8785.dumps, and `sha256` hashlib's, of a text's UTF-8.
unfoldable pub canonicalize_json_value :
    (Json → Option String) → (String → String) → JsonLimits → Json → Checked CanonicalJson
unfolding validate_tree check_bytes
canonicalize_json_value dumps sha256 limits value =
    and_then (validate_tree limits value)
      (λ node_count. check_bytes sha256 limits value (dumps value))
