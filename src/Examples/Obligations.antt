-- ===== src/Examples/Obligations.antt =====
-- The theorems on task contracts and their revisions, at a contract with one output, one criterion and
-- one risk.
use missionforge.Common.{◌≡◌, ◌≢◌, refl, Option, none, some, [], ◌∷◌}
use missionforge.Text.{Text, codes}
use missionforge.Outcome.{Outcome, ok, raise}
use missionforge.Value.{Value, null, text, list, dict, nil, cons, Fields, end, entry}
use missionforge.Contracts.{require_mapping}
use missionforge.TaskContract.Contract.{TaskContract, freeze}
use missionforge.TaskContract.Frozen.{IsFrozen, from_dict-IsFrozen}
use missionforge.TaskContract.Contract.RoundTrip.{from_dict-freeze}
use missionforge.TaskContract.Revision.{TaskContractRevision, to_dict}
use missionforge.TaskContract.Revision.RoundTrip.{from_dict-revised}
use missionforge.Examples.Running.{computing, python}

unfoldable freezing : Unit {0}
unfolding computing missionforge.TaskContract.Clause.validate
    missionforge.TaskContract.Clause.from_dict missionforge.TaskContract.Clause.to_dict
    missionforge.TaskContract.Clause.clause_items missionforge.TaskContract.Clause.validate_clauses
    missionforge.TaskContract.Clause.keyed_clause missionforge.TaskContract.Clause.mapped_items
    missionforge.TaskContract.Clause.mapped_clauses
    missionforge.TaskContract.Clause.clause_or_string
    missionforge.TaskContract.Clause.clause_or_string_items
    missionforge.TaskContract.Clause.clauses_or_strings missionforge.TaskContract.Contract.policy_of
    missionforge.TaskContract.Contract.optional_str
    missionforge.TaskContract.Contract.string_or_str_list
    missionforge.TaskContract.Contract.validate missionforge.TaskContract.Contract.content_dict
    missionforge.TaskContract.Contract.compute_hash missionforge.TaskContract.Contract.post_init
    missionforge.TaskContract.Contract.with_hash missionforge.TaskContract.Contract.to_dict
    missionforge.TaskContract.Contract.parse missionforge.TaskContract.Contract.from_dict
    missionforge.TaskContract.Extension.optional_non_empty
    missionforge.TaskContract.Revision.validate missionforge.TaskContract.Revision.from_dict
    missionforge.TaskContract.Revision.to_dict
freezing = tt

abbrev output : Value
output = dict (
    entry "output_id" (text (codes "O-1")) (
      entry "description" (text (codes "a page"))
        (entry "artifact_refs" (list (cons (text (codes "out/page.md")) nil)) end)))

abbrev criterion : Value
criterion = dict (
    entry "criterion_id" (text (codes "A-1"))
      (entry "statement" (text (codes "it has a title")) end))

abbrev contract_fields : Fields
contract_fields = entry "contract_id" (text (codes "TC-1")) (
    entry "product_id" (text (codes "pages")) (
      entry "objective" (text (codes "write a page")) (
        entry "required_outputs" (list (cons output nil)) (
          entry "semantic_acceptance" (list (cons criterion nil))
            (entry "risk_notes" (list (cons (text (codes "too long")) nil)) end)))))

abbrev contract_of : Outcome TaskContract → Option TaskContract
contract_of (ok c) = some c
contract_of (raise e) = none

abbrev or_blank : Option TaskContract → TaskContract
or_blank (some c) = c
or_blank none = record {
  contract_id = [];
  product_id = [];
  objective = [];
  required_outputs = [];
  semantic_acceptance = [];
  hard_constraints = [];
  background = [];
  users_or_audience = [];
  non_goals = [];
  assumptions = [];
  risk_notes = [];
  workspace_policy_ref = [];
  permission_manifest_ref = [];
  judge_rubric_ref = [];
  revision_policy = null;
  source_refs = [];
  product_contract_refs = [];
  created_by = [];
  created_at = [];
  metadata = null;
  schema_version = [];
  contract_hash = [];
}

abbrev page : TaskContract
page =
    or_blank
      (contract_of (missionforge.TaskContract.Contract.from_dict python (dict contract_fields)))

page_mapping : require_mapping (dict contract_fields) ≡ ok contract_fields
unfolding require_mapping
page_mapping = refl

page_parsed : missionforge.TaskContract.Contract.from_dict python (dict contract_fields) ≡ ok page
unfolding freezing
page_parsed = refl

-- The risk got an identifier by its place.
page_risk :
    page.risk_notes
    ≡ (record {
      clause_id = codes "risk-001";
      body = codes "too long";
      refs = [];
      metadata = dict end;
    })
      ∷ []
unfolding freezing
page_risk = refl

from_dict-IsFrozen_example : IsFrozen python contract_fields page
from_dict-IsFrozen_example =
    from_dict-IsFrozen python (dict contract_fields) contract_fields page page_mapping page_parsed

from_dict-freeze_example :
    (fs : Fields) × (freeze python page ≡ ok fs)
    × (missionforge.TaskContract.Contract.from_dict python (dict fs) ≡ ok page)
from_dict-freeze_example = from_dict-freeze python (dict contract_fields) page page_parsed

abbrev old_hash : Text
old_hash = codes "sha256:0000000000000000000000000000000000000000000000000000000000000000"

abbrev new_hash : Text
new_hash = codes "sha256:1111111111111111111111111111111111111111111111111111111111111111"

abbrev revision : TaskContractRevision
revision = record {
  revision_id = codes "R-1";
  previous_contract_ref = codes "contract/v1.json";
  previous_contract_hash = old_hash;
  revised_contract_ref = codes "contract/v2.json";
  revised_contract_hash = new_hash;
  reason = codes "a new page";
  requested_by = codes "user";
  approved_by = some (codes "owner");
  evidence_refs = [];
  schema_version = codes "task_contract_revision.v1";
}

abbrev revision_value : Value
revision_value = dict (missionforge.TaskContract.Revision.content revision)

revision_parsed : missionforge.TaskContract.Revision.from_dict revision_value ≡ ok revision
unfolding freezing
revision_parsed = refl

from_dict-revised_example :
    (revision.previous_contract_hash ≢ revision.revised_contract_hash)
    × (fs : Fields) × (to_dict revision ≡ ok fs)
    × (missionforge.TaskContract.Revision.from_dict (dict fs) ≡ ok revision)
from_dict-revised_example = from_dict-revised revision_value revision revision_parsed
