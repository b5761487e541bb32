-- ===== src/Outcome.antt =====
-- Python's exceptions as values: what a call returns, or the class of what it raises with the check
-- that failed (contracts.py:13, kernel/contracts.py:30). The field names in messages are left out.
use missionforge.Common.{◌≡◌, refl, ap, ◌∙◌, Bool, true, false}

-- Which check of the program refused a value.
pub data Fault : Type 0 where
  not_text empty_text not_text_list not_mapping not_integer not_boolean not_enum : Fault
  unsafe_ref control_character bad_segment drive_prefix : Fault
  not_finite bad_key not_json forbidden_field : Fault
  bad_schema duplicate not_found mismatch denied no_ref bad_value missing : Fault

pub data Error : Type 0 where
  contract_validation : Fault → Error
  kernel_validation : Fault → Error
  os_error json_decode_error key_error type_error : Error

pub data Outcome {ℓ} (A : Type ℓ) : Type ℓ where
  ok : A → Outcome A
  raise : Error → Outcome A

abbrev pub refuse {ℓ} : {A : Type ℓ} → Fault → Outcome A
refuse f = raise (contract_validation f)

-- `if test: raise KernelValidationError(...)`
abbrev pub kernel_refuse {ℓ} : {A : Type ℓ} → Fault → Outcome A
kernel_refuse f = raise (kernel_validation f)

abbrev pub kernel_refuse_if : Bool → Fault → Outcome (Unit {0})
kernel_refuse_if true f = kernel_refuse f
kernel_refuse_if false f = ok tt

infixl 5 ◌>>=◌ ◌>>◌
abbrev pub ◌>>=◌ {ℓ κ} : {A : Type ℓ} {B : Type κ} → Outcome A → (A → Outcome B) → Outcome B
ok a >>= f = f a
raise e >>= f = raise e

abbrev pub ◌>>◌ {ℓ κ} : {A : Type ℓ} {B : Type κ} → Outcome A → Outcome B → Outcome B
m >> k = m >>= λ _. k

-- `if test: raise ContractValidationError(...)`
abbrev pub refuse_if : Bool → Fault → Outcome (Unit {0})
refuse_if true f = refuse f
refuse_if false f = ok tt

pub ok_injective {ℓ} : {A : Type ℓ} {a b : A} → ok a ≡ ok b → a ≡ b
ok_injective h = cc

-- What a block returned, its first call returned something for, and the rest returned it.
pub >>=-eq-ok {ℓ κ} :
    {A : Type ℓ} {B : Type κ} {out : B} (call : Outcome A) (rest : A → Outcome B)
    → (call >>= rest) ≡ ok out
    → (x : A) × (call ≡ ok x) × (rest x ≡ ok out)
>>=-eq-ok (ok x) rest returned = (x, refl, returned)
>>=-eq-ok (raise e) rest returned = cc

pub refuse_if-eq-ok : (b : Bool) (f : Fault) {u : Unit {0}} → refuse_if b f ≡ ok u → b ≡ false
refuse_if-eq-ok true f h = cc
refuse_if-eq-ok false f h = refl

-- What every result of the rest of a block satisfies, every result of the block satisfies.
pub >>=-post {ℓ κ μ} :
    {A : Type ℓ} {B : Type κ} (Q : B → Type μ) (m : Outcome A) (f : A → Outcome B) {b : B}
    → (m >>= f) ≡ ok b
    → ((a : A) → m ≡ ok a → f a ≡ ok b → Q b)
    → Q b
>>=-post Q (ok a) f h k = k a refl h
>>=-post Q (raise e) f h k = absurd (cc)

-- A block returns if its first call and the rest do.
pub >>=-total {ℓ κ} :
    {A : Type ℓ} {B : Type κ} (m : Outcome A) (f : A → Outcome B) (a : A)
    → m ≡ ok a
    → ((b : B) × (f a ≡ ok b))
    → (b : B) × ((m >>= f) ≡ ok b)
>>=-total (ok c) f a h (b, e) = (b, ap f (ok_injective h) ∙ e)
>>=-total (raise x) f a h r = absurd (cc)
