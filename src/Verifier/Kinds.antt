-- ===== src/Verifier/Kinds.antt =====
-- The enumerations of services/agent/src/ipromise_agent/cloudbuild_verifier.py.
use i_promise.Base.{Bool, true, false}

pub data VerificationDecision : Type 0 where
  verified rejected unavailable : VerificationDecision

pub data VerificationFailureCode : Type 0 where
  none invalid_artifact submission_failed poll_failed deadline_exceeded : VerificationFailureCode
  source_mismatch baseline_mismatch candidate_mismatch : VerificationFailureCode
  candidate_control_failed regression_failed build_failed : VerificationFailureCode
  build_internal_error build_cancelled build_expired : VerificationFailureCode
  evidence_incomplete : VerificationFailureCode

pub data CheckResult : Type 0 where
  expected_failure pass fail not_run : CheckResult

abbrev pub is_verified : VerificationDecision → Bool
is_verified decision = elim decision [ verified ↦ true | _ ↦ false ]

abbrev pub is_no_failure : VerificationFailureCode → Bool
is_no_failure code = elim code [ none ↦ true | _ ↦ false ]

abbrev pub is_expected_failure : CheckResult → Bool
is_expected_failure result = elim result [ expected_failure ↦ true | _ ↦ false ]

abbrev pub is_check_pass : CheckResult → Bool
is_check_pass result = elim result [ pass ↦ true | _ ↦ false ]
