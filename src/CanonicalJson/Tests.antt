-- ===== src/CanonicalJson/Tests.antt =====
-- Values that the walk accepts and refuses.
use superlily.Base.{◌≡◌, refl, some, none, true, if◌then◌else◌}
use superlily.CanonicalJson.{
  JsonLimits, Json, null, boolean, string, integer, list, dict, float, nan, no_items, item,
  no_members, member, text, no_text, other, checked, canonical_json_error, validate_tree,
}
use superlily.CanonicalJson.Limits.{value_of, validate_tree-within}
use superlily.CanonicalJson.Measures.{nodes, is_within}

abbrev limits : JsonLimits
limits = record {
  max_source_bytes = 64;
  max_depth = 2;
  max_object_properties = 2;
  max_array_items = 2;
  max_total_nodes = 5;
  max_string_characters = 3;
}

-- {"a": [1, "né"], "b": true}
abbrev value : Json
value = dict (
    member (text "a") (list (item (integer true 1) (item (string "né") no_items)))
      (member (text "b") (boolean true) no_members))

accepts_value : validate_tree limits value ≡ checked 5
unfolding validate_tree
accepts_value = refl

refuses_depth :
    validate_tree limits (list (item value (item null no_items)))
    ≡ canonical_json_error "JSON depth limit exceeded"
unfolding validate_tree
refuses_depth = refl

refuses_key :
    validate_tree limits (dict (member no_text null no_members))
    ≡ canonical_json_error "JSON object keys must be strings"
unfolding validate_tree
refuses_key = refl

refuses_float :
    validate_tree limits (list (item (float nan) no_items))
    ≡ canonical_json_error "non-finite JSON number is forbidden"
unfolding validate_tree
refuses_float = refl

refuses_other :
    validate_tree limits (other "bytes") ≡ canonical_json_error "unsupported JSON value type: bytes"
unfolding validate_tree
refuses_other = refl

validate_tree-within_example :
    value_of (validate_tree limits value)
    ≡ (if is_within limits value then some (nodes value) else none)
validate_tree-within_example = validate_tree-within limits value
