-- ===== src/Value.antt =====
-- The values of a Python program that the contract checks tell apart: the JSON values, mappings
-- with keys of any kind, and all other objects.
use missionforge.Common.{ℕ, ◌≡◌, Bool, Option, none, some, ◌/◌, ◌%◌, ◌^◌, not, ◌==◌, if◌then◌else◌}
use missionforge.Text.{Text, text_eq}

-- `negsuc n` is -(n + 1).
pub data ℤ : Type 0 where
  pos : ℕ → ℤ
  negsuc : ℕ → ℤ

pub data Key : Type 0 where
  name : Text → Key
  other_key : ℕ → Key

-- A float is its IEEE 754 bit pattern, below 2 ^ 64.
mutual
  pub data Value : Type 0 where
    null : Value
    boolean : Bool → Value
    integer : ℤ → Value
    float : ℕ → Value
    text : Text → Value
    list : Items → Value
    dict : Fields → Value
    object : ℕ → Value

  pub data Items : Type 0 where
    nil : Items
    cons : Value → Items → Items

  pub data Fields : Type 0 where
    end : Fields
    field : Key → Value → Fields → Fields

-- `math.isfinite`: the exponent is not all ones.
unfoldable pub is_finite : ℕ → Bool
is_finite bits = not ((bits / 2 ^ 52) % 2048 == 2047)

-- `data.get(key)`, with `None` for a missing key
unfoldable pub get : Text → Fields → Option Value
get k end = none
get k (field (name j) v fs) = if text_eq j k then some v else get k fs
get k (field (other_key _) v fs) = get k fs

unfoldable pub get_or : Text → Value → Fields → Value
unfolding get
get_or k d fs = elim (get k fs) [ none ↦ d | some v ↦ v ]

-- `list(texts)` as a value
unfoldable pub texts : missionforge.Common.List Text → Items
texts missionforge.Common.[] = nil
texts (missionforge.Common.◌∷◌ t ts) = cons (text t) (texts ts)

-- `data.get("key", default)` and `data.get("key")`
abbrev pub item_or : missionforge.Common.String → Value → Fields → Value
item_or k d fs = get_or (missionforge.Text.codes k) d fs

abbrev pub item : missionforge.Common.String → Fields → Value
item k fs = item_or k null fs

-- One entry of a dict display.
abbrev pub entry : missionforge.Common.String → Value → Fields → Fields
entry k v fs = field (name (missionforge.Text.codes k)) v fs

abbrev pub strings : missionforge.Common.List Text → Value
strings ts = list (texts ts)
