-- ===== src/Idempotency/Records.antt =====
-- src/capabilityhub/idempotency.py: the records, and how a result becomes a text and back. The JSON
-- library is a parameter: `print` makes a text of an object, `load` reads one; an object is the
-- dictionary of its fields.
use capabilityhub.Base.Options.{◌>>=◌}
use capabilityhub.Base.{ℕ, String, text_dec, ◌≡◌, refl, Option, none, some, [], ◌∷◌}
use capabilityhub.Dict.{Dict, text_key, get}
use capabilityhub.Models.Manifests.{ExecutionResult}

-- The statuses of the rows, and the one that only `wait` makes up.
pub data IdempotencyStatus : Type 0 where
  in_progress complete_status uncertain_status conflict_status : IdempotencyStatus

-- Capability, operation, key and the rest of the tuple.
abbrev pub IdempotencySlot : Type 0
IdempotencySlot = String × String × String × String × String

-- A field of the object that stands for a result.
pub data Field (Json : Type 0) : Type 0 where
  text : String → Field Json
  number : ℕ → Field Json
  value : Json → Field Json

pub record IdempotencyRecord (Json : Type 0) : Type 0 where
  pub arguments_digest : String
  pub status : IdempotencyStatus
  pub result : Option (ExecutionResult Json)

module _ {Json : Type 0} where
  -- The object of `_encode_result`.
  unfoldable pub result_fields : ExecutionResult Json → Dict String (Field Json)
  result_fields r =
      ("audit_id", text r.audit_id)
      ∷ ("capability_revision", text r.capability_revision)
      ∷ ("operation", text r.operation)
      ∷ ("output", value r.output)
      ∷ ("portable_tokens", number r.portable_tokens)
      ∷ ("provider", text r.provider)
      ∷ []

  -- `data[name]`, of the sort that the result has there.
  abbrev pub text_at : String → Dict String (Field Json) → Option String
  text_at name d = elim (get name d) [
    | none ↦ none
    | some f ↦ elim f [ text s ↦ some s | number n ↦ none | value j ↦ none ]
  ]

  abbrev pub number_at : String → Dict String (Field Json) → Option ℕ
  number_at name d = elim (get name d) [
    | none ↦ none
    | some f ↦ elim f [ text s ↦ none | number n ↦ some n | value j ↦ none ]
  ]

  abbrev pub value_at : String → Dict String (Field Json) → Option Json
  value_at name d = elim (get name d) [
    | none ↦ none
    | some f ↦ elim f [ text s ↦ none | number n ↦ none | value j ↦ some j ]
  ]

  -- The result of an object; none where the construction raises.
  unfoldable pub fields_result : Dict String (Field Json) → Option (ExecutionResult Json)
  fields_result d = do
    capability_revision ← text_at "capability_revision" d
    operation ← text_at "operation" d
    output ← value_at "output" d
    provider ← text_at "provider" d
    portable_tokens ← number_at "portable_tokens" d
    audit_id ← text_at "audit_id" d
    some (record {
      capability_revision = capability_revision;
      operation = operation;
      output = output;
      provider = provider;
      portable_tokens = portable_tokens;
      audit_id = audit_id;
    })

  -- `_encode_result`
  unfoldable pub encode_result : (Dict String (Field Json) → String) → ExecutionResult Json → String
  encode_result print r = print (result_fields r)

  -- `_decode_result`
  unfoldable pub decode_result :
      (String → Option (Dict String (Field Json))) → Option String → Option (ExecutionResult Json)
  decode_result load none = none
  decode_result load (some raw) = elim (load raw) [ none ↦ none | some d ↦ fields_result d ]

  pub fields_result-result_fields :
      (r : ExecutionResult Json) → fields_result (result_fields r) ≡ some r
  unfolding fields_result result_fields text_dec
  fields_result-result_fields r = refl
