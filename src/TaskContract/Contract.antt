-- ===== src/TaskContract/Contract.antt =====
-- `TaskContract` of src/missionforge/task_contract.py: the frozen obligation, and the hash that is part
-- of it.
pub mod RoundTrip
use missionforge.Common.{Bool, true, false, not, List, [], ◌∷◌, is_empty}
use missionforge.Text.{Text, codes, text_eq}
use missionforge.Outcome.{Outcome, ok, refuse, refuse_if, mismatch, missing, not_text, ◌>>=◌, ◌>>◌}
use missionforge.Platform.{Platform}
use missionforge.Value.{
  Value, null, text, list, dict, Items, Fields, end, field, item, item_or, entry, strings,
}
use missionforge.Contracts.{require_non_empty_str, require_str_list, require_mapping, validate_ref}
use missionforge.Checks.{
  ref_list, validate_unique_refs, require_schema, safe_mapping, stable_json_hash,
}
use missionforge.TaskContract.Clause.{
  ContractClause, validate_clauses, clause_items, mapped_clauses, clauses_or_strings, output_keys,
  constraint_keys, acceptance_keys,
}

-- TASK_CONTRACT_SCHEMA_VERSION
abbrev pub contract_schema : Text
contract_schema = codes "task_contract.v1"

-- `revision_policy` is a string or a mapping.
pub record TaskContract : Type 0 where
  pub contract_id : Text
  pub product_id : Text
  pub objective : Text
  pub required_outputs : List ContractClause
  pub semantic_acceptance : List ContractClause
  pub hard_constraints : List ContractClause
  pub background : List Text
  pub users_or_audience : List Text
  pub non_goals : List ContractClause
  pub assumptions : List ContractClause
  pub risk_notes : List ContractClause
  pub workspace_policy_ref : Text
  pub permission_manifest_ref : Text
  pub judge_rubric_ref : Text
  pub revision_policy : Value
  pub source_refs : List Text
  pub product_contract_refs : List Text
  pub created_by : Text
  pub created_at : Text
  pub metadata : Value
  pub schema_version : Text
  pub contract_hash : Text

-- `_revision_policy`
unfoldable pub policy_of : Platform → Value → Outcome Value
policy_of py (text t) = do s ← require_non_empty_str (text t); ok (text s)
policy_of py v = safe_mapping py v

-- `_optional_str`
unfoldable pub optional_str : Value → Outcome Text
optional_str null = ok []
optional_str (text t) = ok t
optional_str _ = refuse not_text

-- `_string_or_str_list`
unfoldable pub string_or_str_list : Value → Outcome (List Text)
string_or_str_list (text t) = do s ← require_non_empty_str (text t); ok (s ∷ [])
string_or_str_list v = require_str_list v

unfoldable pub validate : Platform → TaskContract → Outcome (Unit {0})
validate py c = do
  require_schema c.schema_version contract_schema
  require_non_empty_str (text c.contract_id)
  require_non_empty_str (text c.product_id)
  require_non_empty_str (text c.objective)
  require_str_list (strings c.background)
  require_str_list (strings c.users_or_audience)
  validate_clauses py [] c.non_goals
  validate_clauses py [] c.assumptions
  validate_clauses py [] c.required_outputs
  validate_clauses py [] c.hard_constraints
  validate_clauses py [] c.semantic_acceptance
  validate_clauses py [] c.risk_notes
  refuse_if (is_empty c.required_outputs) missing
  refuse_if (is_empty c.semantic_acceptance) missing
  validate_ref (text c.workspace_policy_ref)
  validate_ref (text c.permission_manifest_ref)
  validate_ref (text c.judge_rubric_ref)
  policy_of py c.revision_policy
  validate_unique_refs c.source_refs
  validate_unique_refs c.product_contract_refs
  require_non_empty_str (text c.created_by)
  optional_str (text c.created_at)
  safe_mapping py c.metadata
  ok tt

-- The dict display of `_content_dict`, when the lists of clauses and the policy are computed.
abbrev pub content_with :
    TaskContract → Items → Items → Items → Items → Items → Items → Value → Fields
content_with c non_goals assumptions outputs constraints acceptance risks policy =
    entry "contract_id" (text c.contract_id) (
      entry "schema_version" (text c.schema_version) (
        entry "product_id" (text c.product_id) (
          entry "objective" (text c.objective) (
            entry "background" (strings c.background) (
              entry "users_or_audience" (strings c.users_or_audience) (
                entry "non_goals" (list non_goals) (
                  entry "assumptions" (list assumptions) (
                    entry "required_outputs" (list outputs) (
                      entry "hard_constraints" (list constraints) (
                        entry "semantic_acceptance" (list acceptance) (
                          entry "risk_notes" (list risks) (
                            entry "workspace_policy_ref" (text c.workspace_policy_ref) (
                              entry "permission_manifest_ref" (text c.permission_manifest_ref) (
                                entry "judge_rubric_ref" (text c.judge_rubric_ref) (
                                  entry "revision_policy" policy (
                                    entry "source_refs" (strings c.source_refs) (
                                      entry "product_contract_refs"
                                        (strings c.product_contract_refs)
                                        (entry "created_by" (text c.created_by) (
                                          entry "created_at" (text c.created_at)
                                            (entry "metadata" c.metadata end))))))))))))))))))))

-- `_content_dict`
unfoldable pub content_dict : Platform → TaskContract → Outcome Fields
content_dict py c = do
  non_goals ← clause_items py c.non_goals
  assumptions ← clause_items py c.assumptions
  outputs ← clause_items py c.required_outputs
  constraints ← clause_items py c.hard_constraints
  acceptance ← clause_items py c.semantic_acceptance
  risks ← clause_items py c.risk_notes
  policy ← policy_of py c.revision_policy
  ok (content_with c non_goals assumptions outputs constraints acceptance risks policy)

-- `compute_hash`
unfoldable pub compute_hash : Platform → TaskContract → Outcome Text
unfolding content_dict
compute_hash py c = do fields ← content_dict py c; stable_json_hash py (dict fields)

-- `__post_init__`
unfoldable pub post_init : Platform → TaskContract → Outcome TaskContract
unfolding validate compute_hash
post_init py c = do validate py c; hash ← compute_hash py c; ok (record c { contract_hash = hash })

-- `payload["contract_hash"] = hash`, which is no key of the content
unfoldable pub with_hash : Text → Fields → Fields
with_hash hash end = entry "contract_hash" (text hash) end
with_hash hash (field k v fs) = field k v (with_hash hash fs)

unfoldable pub to_dict : Platform → TaskContract → Outcome Fields
unfolding validate compute_hash content_dict with_hash
to_dict py c = do
  validate py c
  hash ← compute_hash py c
  refuse_if (not (text_eq hash c.contract_hash)) mismatch
  fields ← content_dict py c
  ok (with_hash c.contract_hash fields)

-- `freeze`
abbrev pub freeze : Platform → TaskContract → Outcome Fields
freeze = to_dict

unfoldable pub parse : Platform → Fields → Outcome TaskContract
parse py fs = do
  contract_id ← require_non_empty_str (item "contract_id" fs)
  schema ← require_non_empty_str (item_or "schema_version" (text contract_schema) fs)
  product_id ← require_non_empty_str (item "product_id" fs)
  objective ← require_non_empty_str (item "objective" fs)
  background ← string_or_str_list (item_or "background" (strings []) fs)
  users ← require_str_list (item_or "users_or_audience" (strings []) fs)
  non_goals ← clauses_or_strings py (codes "non-goal") (item_or "non_goals" (strings []) fs)
  assumptions ← clauses_or_strings py (codes "assumption") (item_or "assumptions" (strings []) fs)
  outputs ← mapped_clauses py output_keys (item_or "required_outputs" (strings []) fs)
  constraints ← mapped_clauses py constraint_keys (item_or "hard_constraints" (strings []) fs)
  acceptance ← mapped_clauses py acceptance_keys (item_or "semantic_acceptance" (strings []) fs)
  risks ← clauses_or_strings py (codes "risk") (item_or "risk_notes" (strings []) fs)
  workspace ←
      validate_ref
        (item_or "workspace_policy_ref" (text (codes "contract/workspace_policy.json")) fs)
  permission ←
      validate_ref
        (item_or "permission_manifest_ref" (text (codes "contract/permission_manifest.json")) fs)
  rubric ← validate_ref (item_or "judge_rubric_ref" (text (codes "contract/judge_rubric.json")) fs)
  policy ← policy_of py (item_or "revision_policy" (text (codes "explicit_revision_required")) fs)
  sources ← ref_list (item_or "source_refs" (strings []) fs)
  products ← ref_list (item_or "product_contract_refs" (strings []) fs)
  created_by ← require_non_empty_str (item_or "created_by" (text (codes "product.integration")) fs)
  created_at ← optional_str (item_or "created_at" (text []) fs)
  metadata ← safe_mapping py (item_or "metadata" (dict end) fs)
  ok (record {
    contract_id = contract_id;
    product_id = product_id;
    objective = objective;
    required_outputs = outputs;
    semantic_acceptance = acceptance;
    hard_constraints = constraints;
    background = background;
    users_or_audience = users;
    non_goals = non_goals;
    assumptions = assumptions;
    risk_notes = risks;
    workspace_policy_ref = workspace;
    permission_manifest_ref = permission;
    judge_rubric_ref = rubric;
    revision_policy = policy;
    source_refs = sources;
    product_contract_refs = products;
    created_by = created_by;
    created_at = created_at;
    metadata = metadata;
    schema_version = schema;
    contract_hash = [];
  })

-- The hash that a payload gives, if any, is this one.
abbrev pub hash_agrees : Value → Text → Bool
hash_agrees null hash = true
hash_agrees (text t) hash = text_eq t hash
hash_agrees _ hash = false

unfoldable pub from_dict : Platform → Value → Outcome TaskContract
unfolding parse post_init
from_dict py payload = do
  fs ← require_mapping payload
  draft ← parse py fs
  contract ← post_init py draft
  refuse_if (not (hash_agrees (item "contract_hash" fs) contract.contract_hash)) mismatch
  ok contract
