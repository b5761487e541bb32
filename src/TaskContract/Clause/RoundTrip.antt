-- ===== src/TaskContract/Clause/RoundTrip.antt =====
-- Clauses that were read from a contract (src/missionforge/task_contract.py) are written and read again
-- as themselves.
use missionforge.Common.{
  ℕ, suc, ◌≡◌, refl, subst, Option, none, some, List, [], ◌∷◌, ◌++◌, All, All-append, is_empty,
  false,
}
use missionforge.Text.{Text, codes, text_eq, strip, is_space}
use missionforge.Text.Decimal.{decimal}
use missionforge.Text.Solid.{IsSolid, strip_plain, decimal-IsSolid}
use missionforge.Outcome.{ok, >>=-eq-ok, ok_injective}
use missionforge.Platform.{Platform}
use missionforge.Value.{
  Value, null, boolean, integer, float, text, list, dict, object, Items, nil, cons, Fields, get,
  get_or, strings, end, texts,
}
use missionforge.Contracts.{require_non_empty_str, require_mapping, strip_items, require_str_list}
use missionforge.Contracts.Json.{ensure_json_value, ensure_json_fields}
use missionforge.Contracts.Payload.{
  assert_refs_only_payload, reject_forbidden, reject_forbidden_fields, validate_payload_refs,
  validate_payload_refs_fields,
}
use missionforge.Checks.{ref_list, validate_refs, safe_mapping}
use missionforge.Checks.Fixed.{non_empty_fixed, ref_list_fixed, mapping_fixed}
use missionforge.TaskContract.Clause.{
  ContractClause, ClauseKeys, validate, from_dict, content, to_dict, clause_items, validate_clauses,
  keyed_clause, mapped_clause, mapped_items, mapped_clauses, clause_or_string,
  clause_or_string_items, clauses_or_strings,
}

-- Each field is a result of its own check.
pub record IsParsed (py : Platform) (c : ContractClause) : Type 0 where
  pub clause_id : require_non_empty_str (text c.clause_id) ≡ ok c.clause_id
  pub body : require_non_empty_str (text c.body) ≡ ok c.body
  pub refs : ref_list (strings c.refs) ≡ ok c.refs
  pub metadata : safe_mapping py c.metadata ≡ ok c.metadata

IsParsed-to_dict :
    (py : Platform) (c : ContractClause) → IsParsed py c → to_dict py c ≡ ok (content c)
unfolding to_dict validate
IsParsed-to_dict py c p = rw (p.clause_id, p.body, p.refs, p.metadata) refl

IsParsed-validate : (py : Platform) (c : ContractClause) → IsParsed py c → validate py c ≡ ok tt
unfolding validate
IsParsed-validate py c p = rw (p.clause_id, p.body, p.refs, p.metadata) refl

IsParsed-from_dict :
    (py : Platform) (c : ContractClause) → IsParsed py c → from_dict py (dict (content c)) ≡ ok c
unfolding from_dict require_mapping get get_or text_eq
IsParsed-from_dict py c p =
    rw p.clause_id (rw p.body (rw p.refs (rw p.metadata (rw (IsParsed-validate py c p) refl))))

from_dict-IsParsed :
    (py : Platform) (v : Value) (c : ContractClause) → from_dict py v ≡ ok c → IsParsed py c
unfolding from_dict
from_dict-IsParsed py v c h0 =
    let (fs, e0, h1) = >>=-eq-ok (require_mapping v) _ h0 in
    let (a, ea, h2) = >>=-eq-ok (require_non_empty_str _) _ h1 in
    let (b, eb, h3) = >>=-eq-ok (require_non_empty_str _) _ h2 in
    let (r, er, h4) = >>=-eq-ok (ref_list _) _ h3 in
    let (m, em, h5) = >>=-eq-ok (safe_mapping py _) _ h4 in
    let (u, eu, h) = >>=-eq-ok (validate py _) _ h5 in
    subst (IsParsed py) (ok_injective h) (record {
      clause_id = non_empty_fixed _ a ea;
      body = non_empty_fixed _ b eb;
      refs = ref_list_fixed _ r er;
      metadata = mapping_fixed py _ m em;
    })

keyed_clause-IsParsed :
    (py : Platform) (keys : ClauseKeys) (fs : Fields) (c : ContractClause)
    → keyed_clause py keys fs ≡ ok c
    → IsParsed py c
unfolding keyed_clause
keyed_clause-IsParsed py keys fs c h1 =
    let (a, ea, h2) = >>=-eq-ok (require_non_empty_str _) _ h1 in
    let (b, eb, h3) = >>=-eq-ok (require_non_empty_str _) _ h2 in
    let (r, er, h4) = >>=-eq-ok (ref_list _) _ h3 in
    let (m, em, h) = >>=-eq-ok (safe_mapping py _) _ h4 in
    subst (IsParsed py) (ok_injective h) (record {
      clause_id = non_empty_fixed _ a ea;
      body = non_empty_fixed _ b eb;
      refs = ref_list_fixed _ r er;
      metadata = mapping_fixed py _ m em;
    })

mapped_clause-IsParsed :
    (py : Platform) (keys : ClauseKeys) (fs : Fields) (named : Option Value) (c : ContractClause)
    → mapped_clause py keys fs named ≡ ok c
    → IsParsed py c
mapped_clause-IsParsed py keys fs (some v) c h = from_dict-IsParsed py (dict fs) c h
mapped_clause-IsParsed py keys fs none c h = keyed_clause-IsParsed py keys fs c h

abbrev pub AllParsed : Platform → List ContractClause → Type 0
AllParsed py cs = All (IsParsed py) cs

mapped_items-AllParsed :
    (py : Platform) (keys : ClauseKeys) (vs : Items) (cs : List ContractClause)
    → mapped_items py keys vs ≡ ok cs
    → AllParsed py cs
unfolding mapped_items
mapped_items-AllParsed py keys nil cs h = subst (AllParsed py) (ok_injective h) tt
mapped_items-AllParsed py keys (cons v vs) cs h =
    let (fs, e1, h1) = >>=-eq-ok (require_mapping v) _ h in
    let (c, e2, h2) = >>=-eq-ok (mapped_clause py keys fs (get (codes "clause_id") fs)) _ h1 in
    let (rest, e3, h3) = >>=-eq-ok (mapped_items py keys vs) _ h2 in
    subst (AllParsed py) (ok_injective h3) (
      mapped_clause-IsParsed py keys fs (get (codes "clause_id") fs) c e2,
      mapped_items-AllParsed py keys vs rest e3,
    )

-- The items that clauses are written as.
abbrev pub written : List ContractClause → Items
written [] = nil
written (c ∷ cs) = cons (dict (content c)) (written cs)

pub clause_items-written :
    (py : Platform) (cs : List ContractClause)
    → AllParsed py cs
    → clause_items py cs ≡ ok (written cs)
unfolding clause_items
clause_items-written py [] p = refl
clause_items-written py (c ∷ cs) p =
    rw (IsParsed-to_dict py c p.0, clause_items-written py cs p.1) refl

mapped_items-written :
    (py : Platform) (keys : ClauseKeys) (cs : List ContractClause)
    → AllParsed py cs
    → mapped_items py keys (written cs) ≡ ok cs
unfolding mapped_items require_mapping get text_eq
mapped_items-written py keys [] p = refl
mapped_items-written py keys (c ∷ cs) p =
    rw (IsParsed-from_dict py c p.0, mapped_items-written py keys cs p.1) refl

not_empty : (s t : Text) (c : ℕ) → is_empty ((s ++ c ∷ []) ++ t) ≡ false
not_empty [] t c = refl
not_empty (d ∷ s) t c = refl

-- An identifier that is made of a solid prefix and a number.
generated-IsParsed :
    (py : Platform) (prefix : Text) (n : ℕ) (body : Text)
    → IsSolid prefix
    → require_non_empty_str (text body) ≡ ok body
    → IsParsed py (record {
      clause_id = prefix ++ codes "-" ++ decimal 3 n;
      body = body;
      refs = [];
      metadata = dict end;
    })
unfolding require_non_empty_str is_space ref_list validate_refs require_str_list strip_items texts
    safe_mapping require_mapping assert_refs_only_payload ensure_json_value ensure_json_fields
    reject_forbidden reject_forbidden_fields validate_payload_refs validate_payload_refs_fields
generated-IsParsed py prefix n body solid b =
    let id : Text = prefix ++ codes "-" ++ decimal 3 n in
    let plain : strip id ≡ id = strip_plain id (
      All-append (λ c. is_space c ≡ false) (prefix ++ codes "-") (decimal 3 n)
        (All-append (λ c. is_space c ≡ false) prefix (codes "-") solid (refl, tt))
        (decimal-IsSolid 3 n)) in
    record {
      clause_id = rw (plain, not_empty prefix (decimal 3 n) b'-') refl;
      body = b;
      refs = refl;
      metadata = refl;
    }

clause_or_string-IsParsed :
    (py : Platform) (prefix : Text) (n : ℕ) (v : Value) (c : ContractClause)
    → IsSolid prefix
    → clause_or_string py prefix n v ≡ ok c
    → IsParsed py c
unfolding clause_or_string require_mapping
clause_or_string-IsParsed py prefix n (text t) c solid h =
    let (body, e, h1) = >>=-eq-ok (require_non_empty_str (text t)) _ h in
    subst (IsParsed py) (ok_injective h1)
      (generated-IsParsed py prefix n body solid (non_empty_fixed (text t) body e))
clause_or_string-IsParsed py prefix n (dict fs) c solid h = from_dict-IsParsed py (dict fs) c h
clause_or_string-IsParsed py prefix n null c solid h = absurd (cc)
clause_or_string-IsParsed py prefix n (boolean b) c solid h = absurd (cc)
clause_or_string-IsParsed py prefix n (integer i) c solid h = absurd (cc)
clause_or_string-IsParsed py prefix n (float f) c solid h = absurd (cc)
clause_or_string-IsParsed py prefix n (list vs) c solid h = absurd (cc)
clause_or_string-IsParsed py prefix n (object o) c solid h = absurd (cc)

string_items-AllParsed :
    (py : Platform) (prefix : Text) (n : ℕ) (vs : Items) (cs : List ContractClause)
    → IsSolid prefix
    → clause_or_string_items py prefix n vs ≡ ok cs
    → AllParsed py cs
unfolding clause_or_string_items
string_items-AllParsed py prefix n nil cs solid h = subst (AllParsed py) (ok_injective h) tt
string_items-AllParsed py prefix n (cons v vs) cs solid h =
    let (c, e2, h2) = >>=-eq-ok (clause_or_string py prefix n v) _ h in
    let (rest, e3, h3) = >>=-eq-ok (clause_or_string_items py prefix (suc n) vs) _ h2 in
    subst (AllParsed py) (ok_injective h3) (
      clause_or_string-IsParsed py prefix n v c solid e2,
      string_items-AllParsed py prefix (suc n) vs rest solid e3,
    )

string_items-written :
    (py : Platform) (prefix : Text) (n : ℕ) (cs : List ContractClause)
    → AllParsed py cs
    → clause_or_string_items py prefix n (written cs) ≡ ok cs
unfolding clause_or_string_items clause_or_string require_mapping
string_items-written py prefix n [] p = refl
string_items-written py prefix n (c ∷ cs) p =
    rw (IsParsed-from_dict py c p.0, string_items-written py prefix (suc n) cs p.1) refl

-- A list of clauses that was read: its clauses are, and their identifiers were checked.
pub record ListParsed (py : Platform) (cs : List ContractClause) : Type 0 where
  pub all : AllParsed py cs
  pub valid : validate_clauses py [] cs ≡ ok tt

pub mapped_clauses-ListParsed :
    (py : Platform) (keys : ClauseKeys) (v : Value) (cs : List ContractClause)
    → mapped_clauses py keys v ≡ ok cs
    → ListParsed py cs
unfolding mapped_clauses
mapped_clauses-ListParsed py keys (list vs) cs h =
    let (ds, e, h1) = >>=-eq-ok (mapped_items py keys vs) _ h in
    let (u, f, h2) = >>=-eq-ok (validate_clauses py [] ds) _ h1 in
    subst (ListParsed py) (ok_injective h2)
      (record { all = mapped_items-AllParsed py keys vs ds e; valid = f })
mapped_clauses-ListParsed py keys _ cs h = absurd (cc)

pub clauses_or_strings-ListParsed :
    (py : Platform) (prefix : Text) (v : Value) (cs : List ContractClause)
    → IsSolid prefix
    → clauses_or_strings py prefix v ≡ ok cs
    → ListParsed py cs
unfolding clauses_or_strings
clauses_or_strings-ListParsed py prefix (list vs) cs solid h =
    let (ds, e, h1) = >>=-eq-ok (clause_or_string_items py prefix 1 vs) _ h in
    let (u, f, h2) = >>=-eq-ok (validate_clauses py [] ds) _ h1 in
    subst (ListParsed py) (ok_injective h2)
      (record { all = string_items-AllParsed py prefix 1 vs ds solid e; valid = f })
clauses_or_strings-ListParsed py prefix _ cs solid h = absurd (cc)

pub mapped_clauses-written :
    (py : Platform) (keys : ClauseKeys) (cs : List ContractClause)
    → ListParsed py cs
    → mapped_clauses py keys (list (written cs)) ≡ ok cs
unfolding mapped_clauses
mapped_clauses-written py keys cs p = rw (mapped_items-written py keys cs p.all) (rw p.valid refl)

pub clauses_or_strings-written :
    (py : Platform) (prefix : Text) (cs : List ContractClause)
    → ListParsed py cs
    → clauses_or_strings py prefix (list (written cs)) ≡ ok cs
unfolding clauses_or_strings
clauses_or_strings-written py prefix cs p =
    rw (string_items-written py prefix 1 cs p.all) (rw p.valid refl)
