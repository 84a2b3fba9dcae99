-- ===== src/Models/Loads.antt =====
-- src/capabilityhub/models.py: what a load returns, and the reasoning tiers. JSON values are a
-- parameter.
use capabilityhub.Base.{ℕ, String, List}
use capabilityhub.Dict.{Dict}
use capabilityhub.Models.Manifests.{SectionDescriptor, OperationSpec}
use capabilityhub.Models.Handles.{RehydrationHandle}

pub data ReasoningTier : Type 0 where
  low medium high : ReasoningTier

pub record ReasoningDecision : Type 0 where
  pub tier : ReasoningTier
  pub reason_codes : List String
  pub escalations_used : ℕ
  pub policy_revision : String

module _ (Json : Type 0) where
  pub record CapabilityNotice : Type 0 where
    pub kind : String
    pub code : String
    pub attributes : Dict String Json

  pub record LoadedCapability : Type 0 where
    pub revision : String
    pub sections : List SectionDescriptor
    pub operations : List (OperationSpec Json)
    pub permissions : List String
    pub portable_tokens : ℕ
    pub execution_ref : String
    pub omitted_sections : List String
    pub omitted_operations : List String
    pub notices : List CapabilityNotice
    pub rehydration_handles : List RehydrationHandle
    pub omitted_section_count : ℕ
    pub omitted_operation_count : ℕ
    pub omitted_notice_count : ℕ
    pub unhandled_omission_count : ℕ
