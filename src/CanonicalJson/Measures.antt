-- ===== src/CanonicalJson/Measures.antt =====
-- The size, the height and the parts of a JSON value, each measured apart.
use Prim.Native.String.{count as text_length}
use superlily.Base.{ℕ, ◌+◌, Bool, true, false, ◌&&◌, if◌then◌else◌, leb}
use superlily.CanonicalJson.{
  JsonLimits, Json, list, dict, string, float, other, Items, no_items, item, Members, no_members,
  member, Key, text, no_text, is_finite, item_count, member_count,
}

abbrev pub larger : ℕ → ℕ → ℕ
larger m n = if leb m n then n else m

unfoldable mutual
  pub nodes : Json → ℕ
  nodes (list items) = 1 + item_nodes items
  nodes (dict members) = 1 + member_nodes members
  nodes _ = 1

  pub item_nodes : Items → ℕ
  item_nodes no_items = 0
  item_nodes (item v rest) = nodes v + item_nodes rest

  pub member_nodes : Members → ℕ
  member_nodes no_members = 0
  member_nodes (member k v rest) = nodes v + member_nodes rest

unfoldable mutual
  pub height : Json → ℕ
  height (list items) = item_height items
  height (dict members) = member_height members
  height _ = 0

  pub item_height : Items → ℕ
  item_height no_items = 0
  item_height (item v rest) = larger (1 + height v) (item_height rest)

  pub member_height : Members → ℕ
  member_height no_members = 0
  member_height (member k v rest) = larger (1 + height v) (member_height rest)

unfoldable pub is_key : JsonLimits → Key → Bool
is_key limits no_text = false
is_key limits (text k) = leb (text_length k) limits.max_string_characters

-- each part by itself: its text, its number, or how many parts it has
unfoldable mutual
  unfolding is_finite item_count member_count is_key

  pub is_plain : JsonLimits → Json → Bool
  is_plain limits (string s) = leb (text_length s) limits.max_string_characters
  is_plain limits (float x) = is_finite x
  is_plain limits (list items) =
      leb (item_count items) limits.max_array_items && items_plain limits items
  is_plain limits (dict members) =
      leb (member_count members) limits.max_object_properties && members_plain limits members
  is_plain limits (other type_name) = false
  is_plain limits _ = true

  pub items_plain : JsonLimits → Items → Bool
  items_plain limits no_items = true
  items_plain limits (item v rest) = is_plain limits v && items_plain limits rest

  pub members_plain : JsonLimits → Members → Bool
  members_plain limits no_members = true
  members_plain limits (member k v rest) =
      is_key limits k && (is_plain limits v && members_plain limits rest)

-- the limits, each measured on the whole value
unfoldable pub is_within : JsonLimits → Json → Bool
unfolding nodes height is_plain
is_within limits v =
    leb (nodes v) limits.max_total_nodes && (leb (height v) limits.max_depth && is_plain limits v)
