-- ===== src/Tenant.antt =====
-- tenant/tenant.go: the scope of a run and the check of its boundaries. A validator is a function
-- into an optional error.
use memax_go_agent_sdk.Prelude.{
  String, Bool, true, false, ◌&&◌, Option, none, some, [], ◌∷◌, Dict, ◌==◌,
}

pub record Scope : Type 0 where
  pub id : String
  pub subject_id : String
  pub attributes : Dict String

unfoldable pub is_zero : Scope → Bool
is_zero s = s.id == "" && (s.subject_id == "" && (elim s.attributes [ [] ↦ true | _ ∷ _ ↦ false ]))

pub data Boundary : Type 0 where
  session_start model_request tool_use : Boundary
  other_boundary : String → Boundary

pub record Request : Type 0 where
  pub boundary : Boundary
  pub scope : Scope
  pub session_id : String
  pub parent_session_id : String
  pub tool_use_id : String
  pub tool_name : String
  pub tool_read_only : Bool
  pub tool_destructive : Bool
  pub tool_concurrency_safe : Bool

-- An error and the request that it is about.
pub record DeniedError : Type 0 where
  pub request : Request
  pub reason : String

-- Check; a validator may be missing, and then nothing is refused.
unfoldable pub check : Option (Request → Option String) → Request → Option DeniedError
check none req = none
check (some validate) req = elim (validate req) [
  | none ↦ none
  | some e ↦ some (record { request = req; reason = e })
]
