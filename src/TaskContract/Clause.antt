-- ===== src/TaskContract/Clause.antt =====
-- `ContractClause` of src/missionforge/task_contract.py, and the lists of clauses that a task contract
-- is read from.
pub mod RoundTrip
use missionforge.Common.{ℕ, suc, Bool, true, false, Option, none, some, List, [], ◌∷◌, ◌++◌}
use missionforge.Text.{Text, codes}
use missionforge.Text.Decimal.{decimal}
use missionforge.Outcome.{Outcome, ok, refuse, refuse_if, duplicate, not_json, ◌>>=◌, ◌>>◌}
use missionforge.Platform.{Platform}
use missionforge.Value.{
  Value, text, list, dict, Items, nil, cons, Fields, end, null, get, get_or, item, item_or, entry,
  strings,
}
use missionforge.Contracts.{require_non_empty_str, require_mapping}
use missionforge.Checks.{ref_list, safe_mapping, member}

pub record ContractClause : Type 0 where
  pub clause_id : Text
  pub body : Text
  pub refs : List Text
  pub metadata : Value

unfoldable pub validate : Platform → ContractClause → Outcome (Unit {0})
validate py c = do
  require_non_empty_str (text c.clause_id)
  require_non_empty_str (text c.body)
  ref_list (strings c.refs)
  safe_mapping py c.metadata
  ok tt

unfoldable pub from_dict : Platform → Value → Outcome ContractClause
from_dict py payload = do
  fs ← require_mapping payload
  clause_id ← require_non_empty_str (item "clause_id" fs)
  body ← require_non_empty_str (item "text" fs)
  refs ← ref_list (item_or "refs" (strings []) fs)
  metadata ← safe_mapping py (item_or "metadata" (dict end) fs)
  let clause : ContractClause = record {
    clause_id = clause_id;
    body = body;
    refs = refs;
    metadata = metadata;
  }
  validate py clause
  ok clause

abbrev pub content : ContractClause → Fields
content c =
    entry "clause_id" (text c.clause_id)
      (entry "text" (text c.body) (entry "refs" (strings c.refs) (entry "metadata" c.metadata end)))

unfoldable pub to_dict : Platform → ContractClause → Outcome Fields
to_dict py c = validate py c >> ok (content c)

-- `[item.to_dict() for item in clauses]`
unfoldable pub clause_items : Platform → List ContractClause → Outcome Items
unfolding to_dict
clause_items py [] = ok nil
clause_items py (c ∷ cs) = do
  fields ← to_dict py c
  rest ← clause_items py cs
  ok (cons (dict fields) rest)

-- `_validate_clause_list`; `seen` holds the identifiers before
unfoldable pub validate_clauses : Platform → List Text → List ContractClause → Outcome (Unit {0})
validate_clauses py seen [] = ok tt
validate_clauses py seen (c ∷ cs) = do
  validate py c
  refuse_if (member c.clause_id seen) duplicate
  validate_clauses py (c.clause_id ∷ seen) cs

-- The keys that one kind of clause has in a contract.
pub record ClauseKeys : Type 0 where
  pub id_key : Text
  pub text_key : Text
  pub refs_key : Text

abbrev pub output_keys : ClauseKeys
output_keys = record {
  id_key = codes "output_id";
  text_key = codes "description";
  refs_key = codes "artifact_refs";
}

abbrev pub constraint_keys : ClauseKeys
constraint_keys = record {
  id_key = codes "constraint_id";
  text_key = codes "statement";
  refs_key = codes "source_refs";
}

abbrev pub acceptance_keys : ClauseKeys
acceptance_keys = record {
  id_key = codes "criterion_id";
  text_key = codes "statement";
  refs_key = codes "evidence_refs";
}

-- A clause whose fields have the names of its kind; it is not validated by itself.
unfoldable pub keyed_clause : Platform → ClauseKeys → Fields → Outcome ContractClause
keyed_clause py keys fs = do
  clause_id ← require_non_empty_str (get_or keys.id_key null fs)
  body ← require_non_empty_str (get_or keys.text_key null fs)
  refs ← ref_list (get_or keys.refs_key (strings []) fs)
  metadata ← safe_mapping py (item_or "metadata" (dict end) fs)
  ok (record { clause_id = clause_id; body = body; refs = refs; metadata = metadata })

-- One item of `_mapped_clauses`; `named` is what its mapping has under `clause_id`.
abbrev pub mapped_clause : Platform → ClauseKeys → Fields → Option Value → Outcome ContractClause
mapped_clause py keys fs (some named) = from_dict py (dict fs)
mapped_clause py keys fs none = keyed_clause py keys fs

unfoldable pub mapped_items : Platform → ClauseKeys → Items → Outcome (List ContractClause)
unfolding keyed_clause from_dict
mapped_items py keys nil = ok []
mapped_items py keys (cons v vs) = do
  fs ← require_mapping v
  clause ← mapped_clause py keys fs (get (codes "clause_id") fs)
  rest ← mapped_items py keys vs
  ok (clause ∷ rest)

-- `_mapped_clauses`
unfoldable pub mapped_clauses : Platform → ClauseKeys → Value → Outcome (List ContractClause)
mapped_clauses py keys (list vs) = do
  clauses ← mapped_items py keys vs
  validate_clauses py [] clauses
  ok clauses
mapped_clauses py keys _ = refuse not_json

-- One item of `_clauses_or_strings`: a string gets an identifier by its place.
unfoldable pub clause_or_string : Platform → Text → ℕ → Value → Outcome ContractClause
clause_or_string py prefix index (text t) = do
  body ← require_non_empty_str (text t)
  ok (record {
    clause_id = prefix ++ codes "-" ++ decimal 3 index;
    body = body;
    refs = [];
    metadata = dict end;
  })
clause_or_string py prefix index v = do fs ← require_mapping v; from_dict py (dict fs)

unfoldable pub clause_or_string_items : Platform → Text → ℕ → Items → Outcome (List ContractClause)
unfolding clause_or_string
clause_or_string_items py prefix index nil = ok []
clause_or_string_items py prefix index (cons v vs) = do
  clause ← clause_or_string py prefix index v
  rest ← clause_or_string_items py prefix (suc index) vs
  ok (clause ∷ rest)

-- `_clauses_or_strings`
unfoldable pub clauses_or_strings : Platform → Text → Value → Outcome (List ContractClause)
clauses_or_strings py prefix (list vs) = do
  clauses ← clause_or_string_items py prefix 1 vs
  validate_clauses py [] clauses
  ok clauses
clauses_or_strings py prefix _ = refuse not_json
