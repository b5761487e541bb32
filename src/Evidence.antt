-- ===== src/Evidence.antt =====
-- The refs of evidence and their trust levels, src/missionforge/evidence.py.
pub mod Store
use missionforge.Common.{ℕ, Bool, not, leb, Option, none, some, List, [], ◌∷◌}
use missionforge.Text.{Text, codes}
use missionforge.Outcome.{Outcome, ok, refuse_if, denied, ◌>>=◌, ◌>>◌}
use missionforge.Value.{Value, text, dict, Fields, end, item, item_or, entry, strings}
use missionforge.Contracts.{require_non_empty_str, require_mapping, validate_ref}
use missionforge.Checks.{ref_list, find_name, require_enum, from_option}
use missionforge.TaskContract.Extension.{optional_non_empty}

-- `EvidenceTrustLevel` of src/missionforge/contracts.py
pub data EvidenceTrustLevel : Type 0 where
  untrusted_worker_claim llm_interpretation artifact_ref command_result : EvidenceTrustLevel
  test_result schema_validation reviewer_decision human_acceptance : EvidenceTrustLevel

-- `level.value`
abbrev pub level_value : EvidenceTrustLevel → Text
level_value untrusted_worker_claim = codes "untrusted_worker_claim"
level_value llm_interpretation = codes "llm_interpretation"
level_value artifact_ref = codes "artifact_ref"
level_value command_result = codes "command_result"
level_value test_result = codes "test_result"
level_value schema_validation = codes "schema_validation"
level_value reviewer_decision = codes "reviewer_decision"
level_value human_acceptance = codes "human_acceptance"

abbrev row : EvidenceTrustLevel → Text × EvidenceTrustLevel
row l = (level_value l, l)

abbrev pub level_of : Text → Option EvidenceTrustLevel
level_of = find_name (
    row untrusted_worker_claim
    ∷ row llm_interpretation
    ∷ row artifact_ref
    ∷ row command_result
    ∷ row test_result
    ∷ row schema_validation
    ∷ row reviewer_decision
    ∷ row human_acceptance
    ∷ [])

-- _TRUST_RANK
abbrev pub trust_rank : EvidenceTrustLevel → ℕ
trust_rank untrusted_worker_claim = 0
trust_rank llm_interpretation = 1
trust_rank artifact_ref = 2
trust_rank command_result = 3
trust_rank test_result = 4
trust_rank schema_validation = 5
trust_rank reviewer_decision = 6
trust_rank human_acceptance = 7

-- Levels are given by their wire strings, which is what a `StrEnum` member is too.
unfoldable pub trust_satisfies : Value → Value → Outcome Bool
trust_satisfies actual required = do
  actual_level ← require_enum level_of actual
  required_level ← require_enum level_of required
  ok (leb (trust_rank required_level) (trust_rank actual_level))

pub record ArtifactRef : Type 0 where
  pub artifact_id : Text
  pub ref : Text
  pub sha256 : Option Text
  pub media_type : Option Text

unfoldable pub artifact_from_dict : Value → Outcome ArtifactRef
artifact_from_dict payload = do
  fs ← require_mapping payload
  artifact_id ← require_non_empty_str (item "artifact_id" fs)
  ref ← validate_ref (item "ref" fs)
  sha256 ← optional_non_empty (item "sha256" fs)
  media_type ← optional_non_empty (item "media_type" fs)
  ok (record { artifact_id = artifact_id; ref = ref; sha256 = sha256; media_type = media_type })

unfoldable pub validate_artifact_ref : ArtifactRef → Outcome (Unit {0})
validate_artifact_ref a = do
  require_non_empty_str (text a.artifact_id)
  validate_ref (text a.ref)
  optional_non_empty (from_option a.sha256)
  optional_non_empty (from_option a.media_type)
  ok tt

unfoldable pub artifact_to_dict : ArtifactRef → Outcome Fields
artifact_to_dict a = do
  validate_artifact_ref a
  ok (
      entry "artifact_id" (text a.artifact_id) (
        entry "ref" (text a.ref) (
          entry "sha256" (from_option a.sha256)
            (entry "media_type" (from_option a.media_type) end))))

pub record EvidenceRef : Type 0 where
  pub evidence_id : Text
  pub ref : Text
  pub trust_level : EvidenceTrustLevel
  pub kind : Text
  pub source_refs : List Text

unfoldable pub evidence_from_dict : Value → Outcome EvidenceRef
evidence_from_dict payload = do
  fs ← require_mapping payload
  evidence_id ← require_non_empty_str (item "evidence_id" fs)
  ref ← validate_ref (item "ref" fs)
  level ← require_enum level_of (item "trust_level" fs)
  kind ← require_non_empty_str (item_or "kind" (text (codes "artifact")) fs)
  source_refs ← ref_list (item_or "source_refs" (strings []) fs)
  ok (record {
    evidence_id = evidence_id;
    ref = ref;
    trust_level = level;
    kind = kind;
    source_refs = source_refs;
  })

unfoldable pub validate_sources : List Text → Outcome (Unit {0})
validate_sources [] = ok tt
validate_sources (r ∷ rs) = do validate_ref (text r); validate_sources rs

unfoldable pub validate_evidence : EvidenceRef → Outcome (Unit {0})
unfolding validate_sources
validate_evidence e = do
  require_non_empty_str (text e.evidence_id)
  validate_ref (text e.ref)
  require_non_empty_str (text e.kind)
  validate_sources e.source_refs

unfoldable pub evidence_to_dict : EvidenceRef → Outcome Fields
evidence_to_dict e = do
  validate_evidence e
  ok (
      entry "evidence_id" (text e.evidence_id) (
        entry "ref" (text e.ref) (
          entry "trust_level" (text (level_value e.trust_level))
            (entry "kind" (text e.kind) (entry "source_refs" (strings e.source_refs) end)))))

unfoldable pub require_trust_for_acceptance : EvidenceRef → EvidenceTrustLevel → Outcome (Unit {0})
unfolding trust_satisfies
require_trust_for_acceptance evidence required = do
  enough ← trust_satisfies (text (level_value evidence.trust_level)) (text (level_value required))
  refuse_if (not enough) denied
