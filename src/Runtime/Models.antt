-- ===== src/Runtime/Models.antt =====
-- app/runtime/models.py: the record of one execution run. A time is a number of microseconds, and
-- `P` is the type of response payloads, which the coordinator stores and never reads.
use enterprise_sales_intelli.Prelude.{ℕ, String, Bool, true, false, Option}

pub data ExecutionRunStatus : Type 0 where
  created claimed running waiting_interrupt completed failed superseded recoverable :
      ExecutionRunStatus

pub record ExecutionRun (P : Type 0) : Type 0 where
  pub run_id : String
  pub request_id : String
  pub thread_id : String
  pub workspace_id : String
  pub user_id : String
  pub task_id : Option String
  pub task_version : Option ℕ
  pub status : ExecutionRunStatus
  pub lease_owner : Option String
  pub lease_expires_at : Option ℕ
  pub fence_token : ℕ
  pub trace_id : Option String
  pub response_data : Option P
  pub error_code : Option String
  pub started_at : ℕ
  pub heartbeat_at : Option ℕ
  pub finished_at : Option ℕ

-- `RunAlreadyClaimedError`, with the thread that it carries.
pub data ClaimError : Type 0 where
  run_already_claimed : String → ClaimError

-- `ACTIVE_STATUSES` of leases.py
unfoldable pub is_active : ExecutionRunStatus → Bool
is_active claimed = true
is_active running = true
is_active _ = false

-- `RECLAIMABLE_STATUSES` of leases.py
unfoldable pub is_reclaimable : ExecutionRunStatus → Bool
is_reclaimable failed = true
is_reclaimable recoverable = true
is_reclaimable s = is_active s

-- The statuses that leave `finished_at` empty.
unfoldable pub is_paused : ExecutionRunStatus → Bool
is_paused waiting_interrupt = true
is_paused recoverable = true
is_paused _ = false
