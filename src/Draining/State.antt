-- ===== src/Draining/State.antt =====
-- src/capabilityhub/draining.py: the controller's state, its errors and its identifiers.
use capabilityhub.Base.{
  ℕ, String, Bool, true, false, ◌&&◌, ◌||◌, Option, none, some, List, [], ◌∷◌, ltb, leb, ◌==◌,
  if◌then◌else◌, ite, text_dec, length, codes,
}
use capabilityhub.Dict.{Dict, pair_key}
use capabilityhub.Errors.{Exc, hub_error, conflict, value_error}
use capabilityhub.Result.{Result, ok, raise, raise_if, ◌>>=◌, ◌>>◌}

pub data LifecycleState : Type 0 where
  accepting draining retired : LifecycleState

pub data DrainOutcome : Type 0 where
  waiting cancel_requested blocked retired_outcome : DrainOutcome

pub data ForceRetirePolicy : Type 0 where
  deny allow_in_flight : ForceRetirePolicy

pub record AdmissionPin : Type 0 where
  pub pin_id : String
  pub coordinate : String
  pub revision : String
  pub cancellable : Bool
  pub cancel_requested : Bool

pub record LifecycleSnapshot : Type 0 where
  pub coordinate : String
  pub revision : Option String
  pub state : LifecycleState
  pub in_flight : ℕ
  pub cancellable : ℕ
  pub cancellation_requested : ℕ

pub record DrainProgress : Type 0 where
  pub outcome : DrainOutcome
  pub snapshot : LifecycleSnapshot
  pub cancellation_requests : List String

pub record LifecycleEvent : Type 0 where
  pub sequence : ℕ
  pub action : String
  pub target_digest : String
  pub in_flight : ℕ
  pub reason : Option String
  pub count : ℕ

abbrev pub RevisionKey : Type 0
RevisionKey = String × String

-- The maximum of a `deque` is `event_limit`.
pub record Controller : Type 0 where
  pub max_coordinates : ℕ
  pub max_revisions : ℕ
  pub max_in_flight : ℕ
  pub event_limit : ℕ
  pub coordinates : Dict String LifecycleState
  pub revisions : Dict RevisionKey LifecycleState
  pub pins : Dict String AdmissionPin
  pub events : List LifecycleEvent
  pub sequence : ℕ

-- `DrainController.__init__`, of integers.
unfoldable pub create_controller : ℕ → ℕ → ℕ → ℕ → Result Controller
create_controller max_coordinates max_revisions max_in_flight event_limit = do
  raise_if (ltb max_coordinates 1) value_error
  raise_if (ltb max_revisions 1) value_error
  raise_if (ltb max_in_flight 1) value_error
  raise_if (ltb event_limit 1) value_error
  ok (record {
    max_coordinates = max_coordinates;
    max_revisions = max_revisions;
    max_in_flight = max_in_flight;
    event_limit = event_limit;
    coordinates = [];
    revisions = [];
    pins = [];
    events = [];
    sequence = 0;
  })

abbrev pub coordinate_not_accepting : Exc
coordinate_not_accepting = hub_error "lifecycle_coordinate_not_accepting" conflict

abbrev pub coordinate_not_found : Exc
coordinate_not_found = hub_error "lifecycle_coordinate_not_found" conflict

abbrev pub force_retire_denied : Exc
force_retire_denied = hub_error "lifecycle_force_retire_denied" conflict

abbrev pub not_accepting : Exc
not_accepting = hub_error "lifecycle_not_accepting" conflict

abbrev pub not_draining : Exc
not_draining = hub_error "lifecycle_not_draining" conflict

abbrev pub pin_capacity : Exc
pin_capacity = hub_error "lifecycle_pin_capacity" conflict

abbrev pub pin_conflict : Exc
pin_conflict = hub_error "lifecycle_pin_conflict" conflict

abbrev pub revision_not_found : Exc
revision_not_found = hub_error "lifecycle_revision_not_found" conflict

abbrev pub state_capacity : Exc
state_capacity = hub_error "lifecycle_state_capacity" conflict

abbrev pub is_accepting : LifecycleState → Bool
is_accepting accepting = true
is_accepting _ = false

abbrev pub is_draining : LifecycleState → Bool
is_draining draining = true
is_draining _ = false

abbrev pub is_retired : LifecycleState → Bool
is_retired retired = true
is_retired _ = false

abbrev pub allows_in_flight : ForceRetirePolicy → Bool
allows_in_flight deny = false
allows_in_flight allow_in_flight = true

-- What the controller asks of Python's libraries: `unicodedata.normalize` and `strip`, the test for
-- control characters, and the digest of a target's name.
pub record Texts : Type 0 where
  pub normal_form : String → String
  pub has_control : String → Bool
  pub digest : String → Option String → String

module _ (lib : Texts) where
  -- `_identifier`, of a text.
  unfoldable pub identifier : String → Result String
  identifier value =
      let selected = lib.normal_form value in
      if ite (text_dec selected "") true false
        || ltb 512 (length (codes selected))
        || lib.has_control selected
      then raise value_error
      else ok selected

  -- `_identifier(revision, "revision") if revision is not None else None`
  abbrev pub optional_identifier : Option String → Result (Option String)
  optional_identifier none = ok none
  optional_identifier (some value) = do selected ← identifier value; ok (some selected)

abbrev pub reason_start : ℕ → Bool
reason_start c = (leb 97 c && leb c 122) || (leb 48 c && leb c 57)

abbrev pub reason_char : ℕ → Bool
reason_char c = reason_start c || c == 95 || c == 46 || c == 45

abbrev pub all_reason_chars : List ℕ → Bool
all_reason_chars [] = true
all_reason_chars (c ∷ cs) = reason_char c && all_reason_chars cs

-- The pattern `_REASON`, over the code points.
abbrev pub matches_reason : List ℕ → Bool
matches_reason [] = false
matches_reason (c ∷ cs) = reason_start c && all_reason_chars cs && leb (length cs) 63

-- `_reason`, of a text.
unfoldable pub reason_code : String → Result String
reason_code value = if matches_reason (codes value) then ok value else raise value_error
