-- ===== src/CanonicalJson/Limits.antt =====
-- A value that the walk accepts is one whose size, height and parts are within the limits, each measured apart.
use superlily.Base.{
  ℕ, ◌+◌, ◌≤◌, ◌≡◌, refl, ap, ◌∙◌, Bool, ◌&&◌, Option, none, some, String, if◌then◌else◌, leb, ltb,
  arith, Bool-cases, inl, inr,
}
use Prim.Native.String.{count as text_length}
use superlily.CanonicalJson.Measures.{
  larger, nodes, item_nodes, member_nodes, height, item_height, member_height, is_plain,
  items_plain, members_plain, is_key, is_within,
}
use superlily.CanonicalJson.{
  JsonLimits, Json, null, boolean, string, integer, float, list, dict, other, Items, no_items, item,
  Members, no_members, member, text, no_text, Checked, checked, canonical_json_error, and_then,
  is_finite, item_count, member_count, enter, check_key, visit, visit_items, visit_members,
  validate_tree,
}

unfoldable pub value_of : Checked ℕ → Option ℕ
value_of (checked n) = some n
value_of (canonical_json_error e) = none

-- the count that a walk leaves if it accepts
abbrev expected : JsonLimits → ℕ → ℕ → Bool → Option ℕ
expected limits total deepest plain =
    if leb total limits.max_total_nodes && (leb deepest limits.max_depth && plain)
    then some total
    else none

and_then-some :
    (c : Checked ℕ) (f : ℕ → Checked ℕ) (n : ℕ)
    → value_of c ≡ some n
    → value_of (and_then c f) ≡ value_of (f n)
unfolding value_of
and_then-some (checked m) f n h = cc
and_then-some (canonical_json_error e) f n h = cc

and_then-none :
    (c : Checked ℕ) (f : ℕ → Checked ℕ) → value_of c ≡ none → value_of (and_then c f) ≡ none
unfolding value_of
and_then-none (checked m) f h = cc
and_then-none (canonical_json_error e) f h = refl

and_then-expected :
    (limits : JsonLimits) (c : Checked ℕ) (f : ℕ → Checked ℕ) (t more d a b : ℕ) (p q : Bool)
    → value_of c ≡ expected limits t ((d + 1) + a) p
    → (t ≤ limits.max_total_nodes → value_of (f t) ≡ expected limits (t + more) (d + b) q)
    → value_of (and_then c f) ≡ expected limits (t + more) (d + larger (1 + a) b) (p && q)
and_then-expected limits c f t more d a b p q h k =
    elim (Bool-cases (leb t limits.max_total_nodes && (leb (d + 1 + a) limits.max_depth && p))) [
      | inl fits ↦
          and_then-some c f t (ground (arith, h, fits))
          ∙ k (ground (arith, fits))
          ∙ ground (arith, fits)
      | inr fails ↦ and_then-none c f (ground (arith, h, fails)) ∙ ground (arith, fails)
    ]

enter-expected :
    (limits : JsonLimits) (depth count m a : ℕ) (p : Bool) (visited : Checked ℕ)
    → (count + 1 ≤ limits.max_total_nodes
        → depth ≤ limits.max_depth
        → value_of visited ≡ expected limits (count + 1 + m) (depth + a) p)
    → value_of (enter limits depth count visited) ≡ expected limits (count + 1 + m) (depth + a) p
unfolding enter value_of
enter-expected limits depth count m a p visited h = ground (arith, h)

refused-expected :
    (limits : JsonLimits) (most parts t deep : ℕ) (p : Bool) (e : String) (visited : Checked ℕ)
    → value_of visited ≡ expected limits t deep p
    → value_of (if ltb most parts then canonical_json_error e else visited)
      ≡ expected limits t deep (leb parts most && p)
unfolding value_of
refused-expected limits most parts t deep p e visited h = ground (arith, h)

mutual
  unfolding value_of nodes height is_plain visit enter check_key is_key is_finite

  visit-expected :
      (limits : JsonLimits) (v : Json) (depth count : ℕ)
      → value_of (visit limits v depth count)
        ≡ expected limits (count + nodes v) (depth + height v) (is_plain limits v)
  visit-expected limits null depth count = ground arith
  visit-expected limits (boolean b) depth count = ground arith
  visit-expected limits (string s) depth count = ground arith
  visit-expected limits (integer sign n) depth count = ground arith
  visit-expected limits (float x) depth count = ground arith
  visit-expected limits (list items) depth count =
      enter-expected limits depth count (item_nodes items) (item_height items) _ _ (λ few shallow.
        refused-expected limits limits.max_array_items (item_count items) _ _ _ _ _
          (items-expected limits items depth (count + 1) few shallow))
      ∙ ap (λ n. expected limits n (depth + item_height items) (is_plain limits (list items)))
          (omega arith)
  visit-expected limits (dict members) depth count =
      enter-expected limits depth count (member_nodes members) (member_height members) _ _
        (λ few shallow.
          refused-expected limits limits.max_object_properties (member_count members) _ _ _ _ _
            (members-expected limits members depth (count + 1) few shallow))
      ∙ ap (λ n. expected limits n (depth + member_height members) (is_plain limits (dict members)))
          (omega arith)
  visit-expected limits (other type_name) depth count = ground arith

  items-expected :
      (limits : JsonLimits) (items : Items) (depth count : ℕ)
      → count ≤ limits.max_total_nodes
      → depth ≤ limits.max_depth
      → value_of (visit_items limits items depth count)
        ≡ expected limits
            (count + item_nodes items)
            (depth + item_height items)
            (items_plain limits items)
  items-expected limits no_items depth count few shallow = ground arith
  items-expected limits (item v rest) depth count few shallow =
      and_then-expected limits (visit limits v (depth + 1) count)
        (λ n. visit_items limits rest depth n) (count + nodes v) (item_nodes rest) depth (height v)
        (item_height rest) _ _ (visit-expected limits v (depth + 1) count)
        (λ few_then. items-expected limits rest depth (count + nodes v) few_then shallow)
      ∙ ap
          (λ n.
            expected limits n (depth + item_height (item v rest))
              (items_plain limits (item v rest)))
          (omega arith)

  members-expected :
      (limits : JsonLimits) (members : Members) (depth count : ℕ)
      → count ≤ limits.max_total_nodes
      → depth ≤ limits.max_depth
      → value_of (visit_members limits members depth count)
        ≡ expected limits
            (count + member_nodes members)
            (depth + member_height members)
            (members_plain limits members)
  members-expected limits no_members depth count few shallow = ground arith
  members-expected limits (member no_text v rest) depth count few shallow = ground arith
  members-expected limits (member (text k) v rest) depth count few shallow =
      refused-expected limits limits.max_string_characters (text_length k) _ _ _ _ _ (
        and_then-expected limits (visit limits v (depth + 1) count)
          (λ n. visit_members limits rest depth n) (count + nodes v) (member_nodes rest) depth
          (height v) (member_height rest) _ _ (visit-expected limits v (depth + 1) count)
          (λ few_then. members-expected limits rest depth (count + nodes v) few_then shallow))
      ∙ ap
          (λ n.
            expected limits n (depth + member_height (member (text k) v rest))
              (members_plain limits (member (text k) v rest)))
          (omega arith)

-- `_validate_tree` accepts a value exactly if its number of nodes, its height, and each of its texts, numbers,
-- arrays and objects are within the limits; it then has counted each node once.
pub validate_tree-within :
    (limits : JsonLimits) (v : Json)
    → value_of (validate_tree limits v) ≡ (if is_within limits v then some (nodes v) else none)
unfolding validate_tree is_within
validate_tree-within limits v =
    visit-expected limits v 0 0
    ∙ ap (λ n. expected limits n (0 + height v) (is_plain limits v)) (omega arith)
    ∙ ap (λ d. expected limits (nodes v) d (is_plain limits v)) (omega arith)
