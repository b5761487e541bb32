-- ===== src/Contracts/Payload.antt =====
-- `assert_refs_only_payload` of src/missionforge/contracts.py: payloads that carry refs, and no
-- bodies, prompts or secrets. `str.lower` is the parameter `lower`.
pub mod Occurs
use missionforge.Common.{
  ◌≡◌, refl, Bool, true, false, ◌||◌, List, [], ◌∷◌, if◌then◌else◌, any, ◌↔◌, subst, sym,
  Bool-cases, inl, inr, arith, ◌≢◌,
}
use missionforge.Text.{Text, codes, text_eq, has_text, ends_with}
use missionforge.Outcome.{
  Outcome, ok, refuse, raise, Error, forbidden_field, ◌>>=◌, ◌>>◌, >>=-eq-ok,
}
use missionforge.Value.{
  Value, null, boolean, integer, float, text, list, dict, object, Items, nil, cons, Fields, end,
  field, name, other_key,
}
use missionforge.Contracts.{require_str_list, validate_ref}
use missionforge.Contracts.Json.{ensure_json_value, IsJson, ensure_json_value_iff}

-- FORBIDDEN_RAW_FIELDS
abbrev forbidden_raw_fields : List Text
forbidden_raw_fields =
    codes "access_token"
    ∷ codes "api_key"
    ∷ codes "artifact_body"
    ∷ codes "body"
    ∷ codes "credential"
    ∷ codes "credentials"
    ∷ codes "id_token"
    ∷ codes "message_body"
    ∷ codes "notes_body"
    ∷ codes "passphrase"
    ∷ codes "password"
    ∷ codes "payload"
    ∷ codes "private_key"
    ∷ codes "prompt"
    ∷ codes "provider_message"
    ∷ codes "provider_messages"
    ∷ codes "raw"
    ∷ codes "raw_body"
    ∷ codes "raw_payload"
    ∷ codes "raw_prompt"
    ∷ codes "raw_transcript"
    ∷ codes "refresh_token"
    ∷ codes "secret"
    ∷ codes "secret_key"
    ∷ codes "stderr"
    ∷ codes "stdout"
    ∷ codes "transcript"
    ∷ []

-- FORBIDDEN_KEY_FRAGMENTS
abbrev forbidden_key_fragments : List Text
forbidden_key_fragments =
    codes "credential"
    ∷ codes "password"
    ∷ codes "prompt"
    ∷ codes "secret"
    ∷ codes "transcript"
    ∷ []

-- FORBIDDEN_KEY_SUFFIXES
abbrev forbidden_key_suffixes : List Text
forbidden_key_suffixes =
    codes "_access_token"
    ∷ codes "_api_key"
    ∷ codes "_body"
    ∷ codes "_payload"
    ∷ codes "_private_key"
    ∷ codes "_refresh_token"
    ∷ []

-- The test on a key in lower case.
unfoldable pub is_forbidden_key : Text → Bool
is_forbidden_key lowered =
    any (λ f. text_eq f lowered) forbidden_raw_fields
    || any (λ f. has_text f lowered) forbidden_key_fragments
    || any (λ f. ends_with f lowered) forbidden_key_suffixes

unfoldable pub is_refs_key : Text → Bool
is_refs_key lowered = text_eq lowered (codes "refs") || ends_with (codes "_refs") lowered

unfoldable pub is_ref_key : Text → Bool
is_ref_key lowered = text_eq lowered (codes "ref") || ends_with (codes "_ref") lowered

unfoldable pub validate_all : List Text → Outcome (Unit {0})
validate_all [] = ok tt
validate_all (r ∷ rs) = validate_ref (text r) >> validate_all rs

-- `for ref in require_str_list(item): validate_ref(ref)`
unfoldable pub check_refs_item : Value → Outcome (Unit {0})
unfolding validate_all
check_refs_item v = require_str_list v >>= λ refs. validate_all refs

-- `if item is not None and item != "": validate_ref(item)`
unfoldable pub check_ref_item : Value → Outcome (Unit {0})
check_ref_item null = ok tt
check_ref_item (text []) = ok tt
check_ref_item v = validate_ref v >> ok tt

unfoldable mutual
  pub reject_forbidden : (Text → Text) → Value → Outcome (Unit {0})
  reject_forbidden lower (dict fs) = reject_forbidden_fields lower fs
  reject_forbidden lower (list vs) = reject_forbidden_items lower vs
  reject_forbidden lower _ = ok tt

  pub reject_forbidden_items : (Text → Text) → Items → Outcome (Unit {0})
  reject_forbidden_items lower nil = ok tt
  reject_forbidden_items lower (cons v vs) =
      reject_forbidden lower v >> reject_forbidden_items lower vs

  pub reject_forbidden_fields : (Text → Text) → Fields → Outcome (Unit {0})
  reject_forbidden_fields lower end = ok tt
  reject_forbidden_fields lower (field (other_key _) v fs) =
      reject_forbidden lower v >> reject_forbidden_fields lower fs
  reject_forbidden_fields lower (field (name k) v fs) =
      let rest = reject_forbidden lower v >> reject_forbidden_fields lower fs in
      if is_forbidden_key (lower k) then refuse forbidden_field else rest

-- The branches of the loop over a mapping; `below` is the call on the field's value.
abbrev pub check_field : Text → Value → Outcome (Unit {0}) → Outcome (Unit {0})
check_field lowered v below =
    if is_refs_key lowered
    then check_refs_item v
    else if is_ref_key lowered
    then check_ref_item v
    else below

unfoldable mutual
  pub validate_payload_refs : (Text → Text) → Value → Outcome (Unit {0})
  validate_payload_refs lower (dict fs) = validate_payload_refs_fields lower fs
  validate_payload_refs lower (list vs) = validate_payload_refs_items lower vs
  validate_payload_refs lower _ = ok tt

  pub validate_payload_refs_items : (Text → Text) → Items → Outcome (Unit {0})
  validate_payload_refs_items lower nil = ok tt
  validate_payload_refs_items lower (cons v vs) =
      validate_payload_refs lower v >> validate_payload_refs_items lower vs

  pub validate_payload_refs_fields : (Text → Text) → Fields → Outcome (Unit {0})
  validate_payload_refs_fields lower end = ok tt
  validate_payload_refs_fields lower (field (other_key _) v fs) =
      validate_payload_refs lower v >> validate_payload_refs_fields lower fs
  validate_payload_refs_fields lower (field (name k) v fs) =
      check_field (lower k) v (validate_payload_refs lower v)
      >> validate_payload_refs_fields lower fs

unfoldable pub assert_refs_only_payload : (Text → Text) → Value → Outcome Value
assert_refs_only_payload lower value = do
  normalized ← ensure_json_value value
  reject_forbidden lower normalized
  validate_payload_refs lower normalized
  ok normalized
