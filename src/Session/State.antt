-- ===== src/Session/State.antt =====
-- proto/session_state.proto, and the getters and setters of `ApexSession`.
use system_apex.Base.{ℕ, String, Bool, true, false, List, [], ◌∷◌, ◌++◌}

pub data State : Type 0 where
  unknown verified staged activated activation_failed : State
  success revert_in_progress reverted revert_failed : State

-- The message `SessionState`.
pub record SessionState : Type 0 where
  pub id : ℕ
  pub state : State
  pub child_session_ids : List ℕ
  pub expected_build_fingerprint : String
  pub rollback_enabled : Bool
  pub is_rollback : Bool
  pub rollback_id : ℕ
  pub crashing_native_process : String
  pub apex_names : List String
  pub error_message : String

-- The session object: its copy of the message, and the directory that it persists to.
pub record ApexSession : Type 0 where
  pub message : SessionState
  pub open message use *
  pub session_dir : String

-- A message whose fields have their default values, but for the id.
abbrev pub new_state : ℕ → SessionState
new_state n = record {
  id = n;
  state = State.unknown;
  child_session_ids = [];
  expected_build_fingerprint = "";
  rollback_enabled = false;
  is_rollback = false;
  rollback_id = 0;
  crashing_native_process = "";
  apex_names = [];
  error_message = "";
}

-- The states that `IsFinalized` answers true for.
abbrev pub final_state : State → Bool
final_state State.success = true
final_state State.activation_failed = true
final_state State.reverted = true
final_state State.revert_failed = true
final_state State.unknown = false
final_state State.verified = false
final_state State.staged = false
final_state State.activated = false
final_state State.revert_in_progress = false

abbrev pub is_finalized : ApexSession → Bool
is_finalized s = final_state s.state

-- Equality of the enumeration.
abbrev pub same_state : State → State → Bool
same_state State.unknown State.unknown = true
same_state State.verified State.verified = true
same_state State.staged State.staged = true
same_state State.activated State.activated = true
same_state State.activation_failed State.activation_failed = true
same_state State.success State.success = true
same_state State.revert_in_progress State.revert_in_progress = true
same_state State.reverted State.reverted = true
same_state State.revert_failed State.revert_failed = true
same_state _ _ = false

abbrev pub set_state : ApexSession → State → ApexSession
set_state s st = record s { message = record s.message { state = st } }

abbrev pub set_child_session_ids : ApexSession → List ℕ → ApexSession
set_child_session_ids s ids = record s { message = record s.message { child_session_ids = ids } }

abbrev pub set_build_fingerprint : ApexSession → String → ApexSession
set_build_fingerprint s f = record s {
  message = record s.message { expected_build_fingerprint = f };
}

abbrev pub set_has_rollback_enabled : ApexSession → Bool → ApexSession
set_has_rollback_enabled s b = record s { message = record s.message { rollback_enabled = b } }

abbrev pub set_is_rollback : ApexSession → Bool → ApexSession
set_is_rollback s b = record s { message = record s.message { is_rollback = b } }

abbrev pub set_rollback_id : ApexSession → ℕ → ApexSession
set_rollback_id s n = record s { message = record s.message { rollback_id = n } }

abbrev pub set_crashing_native_process : ApexSession → String → ApexSession
set_crashing_native_process s p = record s {
  message = record s.message { crashing_native_process = p };
}

abbrev pub set_error_message : ApexSession → String → ApexSession
set_error_message s e = record s { message = record s.message { error_message = e } }

abbrev pub add_apex_name : ApexSession → String → ApexSession
add_apex_name s n = record s { message = record s.message { apex_names = s.apex_names ++ n ∷ [] } }
