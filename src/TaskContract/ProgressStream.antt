-- ===== src/TaskContract/ProgressStream.antt =====
-- `ProgressStreamGrant` of src/missionforge/task_contract.py.
use missionforge.Common.{List, [], ◌∷◌}
use missionforge.Text.{Text, codes}
use missionforge.Outcome.{Outcome, ok, refuse, refuse_if, duplicate, not_json, ◌>>=◌, ◌>>◌}
use missionforge.Value.{Value, text, list, Items, nil, cons, Fields, end, item, item_or, entry}
use missionforge.Contracts.{require_non_empty_str, require_mapping, validate_ref}
use missionforge.Checks.{member}

pub record ProgressStreamGrant : Type 0 where
  pub stream_id : Text
  pub stream_ref : Text
  pub audience : Text
  pub renderer : Text

unfoldable pub validate : ProgressStreamGrant → Outcome (Unit {0})
validate g = do
  require_non_empty_str (text g.stream_id)
  validate_ref (text g.stream_ref)
  require_non_empty_str (text g.audience)
  require_non_empty_str (text g.renderer)
  ok tt

unfoldable pub from_dict : Value → Outcome ProgressStreamGrant
from_dict payload = do
  fs ← require_mapping payload
  stream_id ← require_non_empty_str (item "stream_id" fs)
  stream_ref ← validate_ref (item "stream_ref" fs)
  audience ← require_non_empty_str (item_or "audience" (text (codes "user")) fs)
  renderer ← require_non_empty_str (item_or "renderer" (text (codes "plain")) fs)
  let grant : ProgressStreamGrant = record {
    stream_id = stream_id;
    stream_ref = stream_ref;
    audience = audience;
    renderer = renderer;
  }
  validate grant
  ok grant

unfoldable pub to_dict : ProgressStreamGrant → Outcome Fields
to_dict g = do
  validate g
  ok (
      entry "stream_id" (text g.stream_id) (
        entry "stream_ref" (text g.stream_ref)
          (entry "audience" (text g.audience) (entry "renderer" (text g.renderer) end))))

-- `_validate_progress_streams`: each is valid, and no identifier comes twice; `seen` holds those
-- before.
unfoldable pub validate_streams : List Text → List ProgressStreamGrant → Outcome (Unit {0})
validate_streams seen [] = ok tt
validate_streams seen (g ∷ gs) = do
  validate g
  refuse_if (member g.stream_id seen) duplicate
  validate_streams (g.stream_id ∷ seen) gs

unfoldable pub parse_streams : Items → Outcome (List ProgressStreamGrant)
parse_streams nil = ok []
parse_streams (cons v vs) = do
  require_mapping v
  grant ← from_dict v
  rest ← parse_streams vs
  ok (grant ∷ rest)

-- `_progress_streams_from_dicts`
unfoldable pub streams_from_dicts : Value → Outcome (List ProgressStreamGrant)
streams_from_dicts (list vs) = do
  streams ← parse_streams vs
  validate_streams [] streams
  ok streams
streams_from_dicts _ = refuse not_json
