-- ===== src/Execution/Artifacts.antt =====
-- `validate_and_reference_artifacts`, `_transition_artifact` and `_reference` of
-- apps/core/src/superlily_core/tool_artifact_service.py, as a completion uses them.
use Prim.Native.Nat.{Ordering}
use Prim.Native.String.{compare}
use superlily.Base.{
  has_duplicates, sort_by, ℕ, ◌+◌, Bool, true, false, not, ◌&&◌, Option, none, some, String, List,
  [], ◌∷◌, length, map, ltb, eqb, is_none, is_some, ◌==◌, if◌then◌else◌,
}
use superlily.Base.Table.{find, replace}
use superlily.Authority.Rows.{
  ToolInvocation, ToolAttempt, ToolUsage, ToolDescriptor, ToolArtifact, ArtifactState,
  ArtifactEvent, Database,
}
use superlily.Authority.Session.{
  conflict, runtime_error, Tx, ◌>>=◌, ◌>>◌, pure, raise, query, modify, require,
}
use superlily.Execution.Proof.{External}
use superlily.Execution.Lifecycle.{exceeds}

pub record ToolArtifactReference : Type 0 where
  pub artifact_id : String
  pub content_sha256 : String
  pub mime_type : String
  pub byte_size : ℕ
  pub width_pixels : Option ℕ
  pub height_pixels : Option ℕ

-- The value of the check, an ArtifactProtocolError with its code and safe detail, or the RuntimeError of a
-- finalized row with no observed metadata.
pub data ArtifactOutcome : Type 0 where
  total : ℕ → List ToolArtifact → ArtifactOutcome
  refused : String → String → ArtifactOutcome
  broken : ArtifactOutcome

abbrev artifact_key : ToolArtifact → String
artifact_key r = r.id

abbrev comes_first : Ordering → Bool
comes_first Ordering.gt = false
comes_first _ = true

-- key=lambda item: item.artifact_id
is_before : ToolArtifactReference → ToolArtifactReference → Bool
is_before r q = comes_first (compare r.artifact_id q.artifact_id)

abbrev is_finalized : ArtifactState → Bool
is_finalized ArtifactState.finalized = true
is_finalized _ = false

abbrev same_dimension : Option ℕ → Option ℕ → Bool
same_dimension (some a) (some b) = eqb a b
same_dimension _ _ = false

-- the artifact is finalized for this fenced attempt and its content is kept
is_bound : ToolAttempt → ToolInvocation → String → ToolArtifact → Bool
is_bound a i provider_id r =
    r.invocation_id == i.id
    && r.attempt_id == a.id
    && r.provider_id == provider_id
    && eqb r.fencing_token a.fencing_token
    && is_finalized r.state
    && is_none r.content_deleted_at

has_metadata : ToolArtifact → Bool
has_metadata r =
    is_some r.content_sha256
    && is_some r.byte_size
    && is_some r.width_pixels
    && is_some r.height_pixels

abbrev same_text : Option String → String → Bool
same_text none t = false
same_text (some s) t = s == t

abbrev same_number : Option ℕ → ℕ → Bool
same_number none n = false
same_number (some m) n = eqb m n

-- _reference(artifact) == reference, for a row with its metadata
same_reference : ToolArtifact → ToolArtifactReference → Bool
same_reference r q =
    r.id == q.artifact_id
    && same_text r.content_sha256 q.content_sha256
    && r.mime_type == q.mime_type
    && same_number r.byte_size q.byte_size
    && same_dimension r.width_pixels q.width_pixels
    && same_dimension r.height_pixels q.height_pixels

abbrev add_row : ℕ → ToolArtifact → ArtifactOutcome → ArtifactOutcome
add_row size r (total n rows) = total (size + n) (r ∷ rows)
add_row size r other = other

-- the stored object of a row, and then the rows after it
stored_row : External → ToolArtifact → Option String → Option ℕ → ArtifactOutcome → ArtifactOutcome
stored_row x r (some key) (some size) rest =
    if x.object_exists key size
    then add_row size r rest
    else refused "artifact_object_missing" "artifact content-addressed object is unavailable"
stored_row x r _ _ rest =
    refused "artifact_storage_missing" "artifact storage metadata is incomplete"

-- one round of the loop over the references
checked_row :
    External
    → ToolAttempt
    → ToolInvocation
    → String
    → ToolArtifactReference
    → Option ToolArtifact
    → ArtifactOutcome
    → ArtifactOutcome
unfolding is_bound has_metadata same_reference stored_row
checked_row x a i provider_id q none rest =
    refused "artifact_missing" "artifact reference is unknown"
checked_row x a i provider_id q (some r) rest =
    if not (is_bound a i provider_id r)
    then refused "artifact_binding_mismatch"
        "artifact is not finalized for the current fenced attempt"
    else if not (has_metadata r)
    then broken
    else if not (same_reference r q)
    then refused "artifact_metadata_mismatch" "artifact reference metadata is not exact"
    else stored_row x r r.storage_key r.byte_size rest

unfoldable pub check_rows :
    External
    → ToolAttempt
    → ToolInvocation
    → String
    → Database
    → List ToolArtifactReference
    → ArtifactOutcome
unfolding checked_row
check_rows x a i provider_id db [] = total 0 []
check_rows x a i provider_id db (q ∷ rest) =
    checked_row x a i provider_id q (find artifact_key q.artifact_id db.artifacts)
      (check_rows x a i provider_id db rest)

-- the byte count against the report and the reviewed budget
unfoldable pub check_total : ToolDescriptor → ToolUsage → ArtifactOutcome → ArtifactOutcome
check_total d usage (total n rows) =
    if not (eqb n usage.artifact_bytes)
    then refused "artifact_usage_mismatch"
        "reported artifact bytes do not match finalized references"
    else if exceeds n d.resource_budget.artifact_bytes
    then refused "artifact_budget_exceeded" "artifact references exceed the reviewed byte budget"
    else total n rows
check_total d usage other = other

-- everything that the function checks before it marks a row
unfoldable pub check_artifacts :
    External
    → Bool
    → ToolAttempt
    → ToolInvocation
    → ToolDescriptor
    → List ToolArtifactReference
    → ToolUsage
    → String
    → Database
    → ArtifactOutcome
unfolding check_rows check_total is_before
check_artifacts x artifact_enabled a i d references usage provider_id db =
    if has_duplicates (map (λ q. q.artifact_id) references)
    then refused "artifact_duplicate" "artifact references must be unique"
    else elim d.artifact_policy [
      | none ↦
          if eqb (length references) 0 && eqb usage.artifact_bytes 0
          then total 0 []
          else refused "artifact_not_authorized" "descriptor does not authorize artifact output"
      | some policy ↦
          if not artifact_enabled
          then refused "artifact_storage_unavailable" "artifact storage is disabled"
          else if ltb policy.max_count (length references)
          then refused "artifact_count_exceeded" "artifact result exceeds the reviewed count"
          else check_total d usage (check_rows x a i provider_id db (sort_by is_before references))
    ]

-- the row of `event="reference"`, and its ledger row
unfoldable pub mark : ToolArtifact → ℕ → Database → Database
mark r now db = record db {
  artifacts =
      replace artifact_key
        (record r {
          state = ArtifactState.finalized;
          resource_version = r.resource_version + 1;
          referenced_at = some now;
          updated_at = now;
        })
        db.artifacts;
  artifact_events =
      record {
        artifact_id = r.id;
        sequence = r.resource_version + 1;
        event = ArtifactEvent.reference;
        previous_state = some r.state;
        state = ArtifactState.finalized;
        reason_code = "artifact_referenced_by_completion";
        effective_at = now;
      }
      ∷ db.artifact_events;
}

-- the update of the row as it was read, or the conflict of a row that changed
unchanged : ToolArtifact → Database → Bool
unchanged r db = elim (find artifact_key r.id db.artifacts) [
  | none ↦ false
  | some current ↦ is_finalized current.state && eqb current.resource_version r.resource_version
]

unfoldable pub mark_rows : List ToolArtifact → ℕ → Tx (Unit {0})
unfolding mark unchanged
mark_rows [] now = pure tt
mark_rows (r ∷ rest) now = do
  reached ← query (unchanged r)
  require reached (conflict "artifact state changed concurrently")
  modify (mark r now)
  mark_rows rest now

-- The outcome, with the rows marked if that is asked; a RuntimeError ends the request.
unfoldable pub settle_artifacts : Bool → ℕ → ArtifactOutcome → Tx ArtifactOutcome
settle_artifacts mark_referenced now (total n rows) =
    if mark_referenced then (do mark_rows rows now; pure (total n rows)) else pure (total n rows)
settle_artifacts mark_referenced now (refused code detail) = pure (refused code detail)
settle_artifacts mark_referenced now broken = raise runtime_error

unfoldable pub validate_and_reference_artifacts :
    External
    → Bool
    → ToolAttempt
    → ToolInvocation
    → ToolDescriptor
    → List ToolArtifactReference
    → ToolUsage
    → String
    → ℕ
    → Bool
    → Tx ArtifactOutcome
validate_and_reference_artifacts x artifact_enabled a i d references usage provider_id now
      mark_referenced =
    do
      outcome ← query (check_artifacts x artifact_enabled a i d references usage provider_id)
      settle_artifacts mark_referenced now outcome
