-- ===== src/Tasks/Store.antt =====
-- app/repositories/mock_task_repository.py: the state of `MockTaskRepository`, what its calls read,
-- and its dictionaries. A `Stamp` is what a call takes from the clock and from `uuid4`.
use Prim.Native.String.{◌++◌ as str_append}
use enterprise_sales_intelli.Prelude.{
  ℕ, String, Option, none, some, List, [], ◌∷◌, ◌++◌, any, eqb, get_or, string_eq, pair_eq,
  if◌then◌else◌,
}
use enterprise_sales_intelli.Prelude.Dict.{Dict, lookup, insert}
use enterprise_sales_intelli.Tasks.Models.{
  collecting_requirements, running, LeadTask, TaskVersion, or_else,
}

pub record Repository (V : Type 0) : Type 0 where
  pub tasks : Dict String (LeadTask V)
  pub versions : Dict String (List (TaskVersion V))
  pub active_by_session : Dict String String
  pub create_requests : Dict (String × String) String
  pub mutation_requests : Dict (String × String) ℕ

pub record Stamp : Type 0 where
  pub now : ℕ
  pub new_task_id : String
  pub new_version_id : String

-- `KeyError("TASK_NOT_FOUND")`, `TaskVersionConflictError`, and the `AttributeError` of a replay
-- whose version is missing.
pub data TaskError : Type 0 where
  task_not_found : String → TaskError
  version_conflict : String → ℕ → ℕ → TaskError
  version_missing : TaskError

pub data Result (A : Type 0) : Type 0 where
  ok : A → Result A
  err : TaskError → Result A

-- f"{workspace_id}:{session_id}"
abbrev pub session_key : String → String → String
session_key workspace session = str_append workspace (str_append ":" session)

-- A text that is neither None nor empty.
abbrev pub given : Option String → Option String
given message = or_else message none

-- The options of `update_task` and of `TaskVersion.from_task`.
pub record Provenance : Type 0 where
  pub parent_version : Option ℕ
  pub mutation_id : Option String
  pub source_message_id : Option String

abbrev pub no_provenance : Provenance
no_provenance = record { parent_version = none; mutation_id = none; source_message_id = none }

-- `if source_message_id: requests[key, source_message_id] = value`
abbrev pub remember :
    {A : Type 0} → String → Option String → A → Dict (String × String) A → Dict (String × String) A
remember key message value d = elim (given message) [ none ↦ d | some m ↦ insert (key, m) value d ]

-- `requests.get((key, source_message_id)) if source_message_id else None`
abbrev pub recall : {A : Type 0} → String → Option String → Dict (String × String) A → Option A
recall key message d = elim (given message) [ none ↦ none | some m ↦ lookup (key, m) d ]

module _ {V : Type 0} where
  abbrev pub empty : Repository V
  empty = record {
    tasks = [];
    versions = [];
    active_by_session = [];
    create_requests = [];
    mutation_requests = [];
  }

  -- `TaskVersion.from_task`
  abbrev pub from_task : LeadTask V → Provenance → Stamp → TaskVersion V
  from_task task p stamp = record {
    version_id = stamp.new_version_id;
    task_id = task.task_id;
    version = task.version;
    parent_version = p.parent_version;
    requirements = task.requirements;
    source_message_id = or_else p.source_message_id task.source_message_id;
    mutation_id = p.mutation_id;
    created_at = stamp.now;
  }

  abbrev pub versions_of : String → Repository V → List (TaskVersion V)
  versions_of id s = get_or (lookup id s.versions) []

  -- `versions.append(…)`, unless the version is there already.
  unfoldable pub record_version :
      LeadTask V → Provenance → Stamp → List (TaskVersion V) → List (TaskVersion V)
  record_version task p stamp vs =
      if any (λ (v : TaskVersion V). eqb v.version task.version) vs
      then vs
      else vs ++ (from_task task p stamp ∷ [])

  -- `next((item for item in versions if item.version == version), None)`
  unfoldable pub find_version : ℕ → List (TaskVersion V) → Option (TaskVersion V)
  find_version n [] = none
  find_version n (v ∷ vs) = if eqb v.version n then some v else find_version n vs

  unfoldable pub new_task : String → String → Option String → Stamp → LeadTask V
  new_task workspace session message stamp = record {
    task_id = stamp.new_task_id;
    session_id = session;
    workspace_id = workspace;
    requirements = record {
      business = none;
      region = none;
      target_count = none;
      constraints = [];
      required_fields = [];
      export_fields = [];
    };
    stage = collecting_requirements;
    status = running;
    version = 1;
    source_message_id = message;
    created_at = stamp.now;
    updated_at = stamp.now;
  }

  -- The task is stored as the active one of its session.
  abbrev pub put_active : LeadTask V → Repository V → Repository V
  put_active task s = record s {
    tasks = insert task.task_id task s.tasks;
    active_by_session =
        insert (session_key task.workspace_id task.session_id) task.task_id s.active_by_session;
  }
