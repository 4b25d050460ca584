-- ===== src/Tasks/Models.antt =====
-- app/domain/task.py, the enums of app/agent/enums.py and `TaskVersion` of app/tasks/models.py. `V`
-- is the type of constraint values; a time is a number of microseconds.
use enterprise_sales_intelli.Prelude.{
  ℕ, String, Bool, true, false, Option, none, some, List, ◌==◌, string_eq, if◌then◌else◌,
}

pub data TaskStage : Type 0 where
  created collecting_requirements business_planning discovery cheap_enrichment deep_research :
      TaskStage
  entity_resolution verification scoring completed failed : TaskStage

pub data TaskStatus : Type 0 where
  running waiting_user completed failed : TaskStatus

pub data Operation : Type 0 where
  add update remove clear : Operation

pub record ConstraintPatch (V : Type 0) : Type 0 where
  pub field : String
  pub operation : Operation
  pub operator : Option String
  pub value : Option V
  pub constraint_type : Option String

pub record TaskPatch (V : Type 0) : Type 0 where
  pub business : Option String
  pub region : Option String
  pub target_count : Option ℕ
  pub constraints : List (ConstraintPatch V)
  pub required_fields : Option (List String)
  pub export_fields : Option (List String)

-- An entry of `LeadTask.constraints`: a dictionary with the key `field`, in which an absent key is
-- none.
pub record Constraint (V : Type 0) : Type 0 where
  pub field : String
  pub operator : Option String
  pub value : Option V
  pub constraint_type : Option String

-- What a patch can change of a task; `LeadTask` and `TaskVersion` both have these fields.
pub record Requirements (V : Type 0) : Type 0 where
  pub business : Option String
  pub region : Option String
  pub target_count : Option ℕ
  pub constraints : List (Constraint V)
  pub required_fields : List String
  pub export_fields : List String

pub record LeadTask (V : Type 0) : Type 0 where
  pub task_id : String
  pub session_id : String
  pub workspace_id : String
  pub requirements : Requirements V
  pub stage : TaskStage
  pub status : TaskStatus
  pub version : ℕ
  pub source_message_id : Option String
  pub created_at : ℕ
  pub updated_at : ℕ

pub record TaskVersion (V : Type 0) : Type 0 where
  pub version_id : String
  pub task_id : String
  pub version : ℕ
  pub parent_version : Option ℕ
  pub requirements : Requirements V
  pub source_message_id : Option String
  pub mutation_id : Option String
  pub created_at : ℕ

-- `REMOVE` and `CLEAR`
unfoldable pub is_removal : Operation → Bool
is_removal remove = true
is_removal clear = true
is_removal _ = false

-- A text that Python takes for true: neither None nor empty.
abbrev pub or_else : Option String → Option String → Option String
or_else none other = other
or_else (some t) other = if t == "" then other else some t
