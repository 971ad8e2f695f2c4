-- ===== src/Models/Kinds.antt =====
-- The string enumerations of models.py, their wire values, and the exceptions of the agent.
use i_promise.Base.{Bool, true, false, String}

pub data Mode : Type 0 where
  cloud local demonstration : Mode

pub data RunStatus : Type 0 where
  received capturing compiling binding probing evaluating remediating verifying : RunStatus
  routing_action complete failed_retryable failed_safe : RunStatus

pub data Verdict : Type 0 where
  pending supported contradicted inconclusive not_tested : Verdict

pub data Testability : Type 0 where
  executable partial not_testable : Testability

pub data EvidenceResult : Type 0 where
  pass fail unknown : EvidenceResult

pub data EventState : Type 0 where
  pending running succeeded failed skipped : EventState

pub data ActionKind : Type 0 where
  pull_request issue email : ActionKind

pub data ActionState : Type 0 where
  planned blocked ready opened sent skipped : ActionState

pub data VerificationResult : Type 0 where
  pass fail not_run : VerificationResult

-- `status.value`
abbrev pub status_value : RunStatus → String
status_value received = "RECEIVED"
status_value capturing = "CAPTURING"
status_value compiling = "COMPILING"
status_value binding = "BINDING"
status_value probing = "PROBING"
status_value evaluating = "EVALUATING"
status_value remediating = "REMEDIATING"
status_value verifying = "VERIFYING"
status_value routing_action = "ROUTING_ACTION"
status_value complete = "COMPLETE"
status_value failed_retryable = "FAILED_RETRYABLE"
status_value failed_safe = "FAILED_SAFE"

-- `kind.value`
abbrev pub kind_value : ActionKind → String
kind_value pull_request = "pull_request"
kind_value issue = "issue"
kind_value email = "email"

-- `kind.value.replace('_', ' ')`
abbrev pub kind_words : ActionKind → String
kind_words pull_request = "pull request"
kind_words issue = "issue"
kind_words email = "email"

abbrev pub is_running : EventState → Bool
is_running running = true
is_running _ = false

abbrev pub is_succeeded : EventState → Bool
is_succeeded succeeded = true
is_succeeded _ = false

abbrev pub is_opened : ActionState → Bool
is_opened opened = true
is_opened _ = false

abbrev pub is_ready : ActionState → Bool
is_ready ready = true
is_ready _ = false

abbrev pub is_planned : ActionState → Bool
is_planned planned = true
is_planned _ = false

abbrev pub is_pull_request : ActionKind → Bool
is_pull_request pull_request = true
is_pull_request _ = false

abbrev pub is_issue : ActionKind → Bool
is_issue issue = true
is_issue _ = false

abbrev pub is_pass : VerificationResult → Bool
is_pass pass = true
is_pass _ = false

abbrev pub is_fail : VerificationResult → Bool
is_fail fail = true
is_fail _ = false
