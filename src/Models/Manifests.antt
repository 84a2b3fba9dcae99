-- ===== src/Models/Manifests.antt =====
-- src/capabilityhub/models.py: manifests and what they list, cards, requests and results. JSON values
-- are a parameter, and a mapping of them is a list of pairs.
use capabilityhub.Base.{append, ℕ, String, Bool, Option, none, some, List, [], ◌∷◌, ite, text_dec}
use capabilityhub.Dict.{Dict}
use capabilityhub.Models.{CapabilityKind, OperationType, SideEffect}

pub record CapabilityIdentity : Type 0 where
  pub namespace : String
  pub name : String
  pub version : String
  pub digest : String

-- `f"{self.namespace}/{self.name}"`
unfoldable pub coordinate : CapabilityIdentity → String
coordinate i = append i.namespace (append "/" i.name)

-- `f"{self.coordinate}@{self.version}#{self.digest}"`
unfoldable pub revision : CapabilityIdentity → String
revision i = append (coordinate i) (append "@" (append i.version (append "#" i.digest)))

pub record SectionDescriptor : Type 0 where
  pub name : String
  pub media_type : String
  pub content : String
  pub portable_tokens : ℕ
  pub sensitive : Bool

pub record DependencySpec : Type 0 where
  pub coordinate : String
  pub version_constraint : String
  pub optional : Bool

pub record ConflictSpec : Type 0 where
  pub conflict_type : String
  pub value : String

pub record SearchCard : Type 0 where
  pub capability_ref : String
  pub revision : String
  pub kind : CapabilityKind
  pub summary : String
  pub operations : List String
  pub risk : SideEffect
  pub trust_tier : String
  pub estimated_load_tokens : ℕ
  pub match_reason : List String

module _ (Json : Type 0) where
  pub record OperationSpec : Type 0 where
    pub name : String
    pub operation_type : OperationType
    pub input_schema : Dict String Json
    pub output_schema : Dict String Json
    pub side_effect : SideEffect
    pub requires_approval : Bool

  pub record CapabilityManifest : Type 0 where
    pub identity : CapabilityIdentity
    pub kind : CapabilityKind
    pub summary : String
    pub provider : String
    pub operations : List OperationSpec
    pub sections : List SectionDescriptor
    pub permissions : List String
    pub dependencies : List DependencySpec
    pub conflicts : List ConflictSpec
    pub tags : List String
    pub trust_tier : String
    pub source : String
    pub metadata : Dict String Json

  pub record ExecutionRequest : Type 0 where
    pub execution_ref : String
    pub operation : String
    pub arguments : Dict String Json
    pub task_id : String
    pub approval_ref : Option String
    pub idempotency_key : Option String

  pub record ExecutionResult : Type 0 where
    pub capability_revision : String
    pub operation : String
    pub output : Json
    pub provider : String
    pub portable_tokens : ℕ
    pub audit_id : String

-- `next((item for item in items if item.name == name), None)`
unfoldable pub find_named : {A : Type 0} → (A → String) → String → List A → Option A
find_named name_of name [] = none
find_named name_of name (x ∷ xs) =
    let rest = find_named name_of name xs in ite (text_dec (name_of x) name) (some x) rest

module _ {Json : Type 0} where
  -- `CapabilityManifest.section`
  unfoldable pub find_section : CapabilityManifest Json → String → Option SectionDescriptor
  find_section m name = find_named (λ s. s.name) name m.sections

  -- `CapabilityManifest.operation`
  unfoldable pub find_operation : CapabilityManifest Json → String → Option (OperationSpec Json)
  find_operation m name = find_named (λ o. o.name) name m.operations
