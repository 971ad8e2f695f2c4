-- ===== src/Remediation/Template.antt =====
-- The constants of remediation.py: the paths, the locked digests, the bounds and the anchors of the
-- approved edits.
use i_promise.Base.{ℕ, ◌*◌, String, List, [], ◌∷◌}
use i_promise.Bytes.{Bytes, encode}

-- `ALLOWED_REMEDIATION_PATHS`, sorted
abbrev pub store_path : String
store_path = "apps/demo_saas/src/ipromise_demo/store.py"

abbrev pub test_path : String
test_path = "apps/demo_saas/tests/test_app.py"

abbrev pub allowed_remediation_paths : List String
allowed_remediation_paths = store_path ∷ test_path ∷ []

-- `EXPECTED_PREIMAGE_SHA256`
abbrev pub expected_store_preimage : String
expected_store_preimage = "51c5fd65084d6cc8a69c1d21e12a6d7d560343b0e12575caa6f9fc3ebd712171"

abbrev pub expected_test_preimage : String
expected_test_preimage = "9b1d2adf2621edc335dcf619ec67b90774673e8722edf08c341b454f2208d93d"

-- `EXPECTED_CANDIDATE_SHA256`
abbrev pub expected_store_candidate : String
expected_store_candidate = "97a2fa9c336088fab7add92e960c0634f74466d43ba1ebacb9077187f1ab2deb"

abbrev pub expected_test_candidate : String
expected_test_candidate = "a0abfa9b1eee37069e6265881d8231a7908146d1e2ff32c59046d045c2b57e24"

abbrev pub expected_unified_diff_sha256 : String
expected_unified_diff_sha256 = "9891f6e42df7b14adfff9ccd7da2d788015ee2368747cc4ae36d3c4db029648a"

abbrev pub max_preimage_file_bytes : ℕ
max_preimage_file_bytes = 32 * 1024

abbrev pub max_total_preimage_bytes : ℕ
max_total_preimage_bytes = 64 * 1024

abbrev pub max_candidate_growth_bytes : ℕ
max_candidate_growth_bytes = 1024

abbrev pub max_unified_diff_bytes : ℕ
max_unified_diff_bytes = 8 * 1024

abbrev pub max_changed_diff_lines : ℕ
max_changed_diff_lines = 16

unfoldable pub store_docstring_before : Bytes
store_docstring_before =
    encode "\"\"\"Thread-safe, ephemeral stores with one intentional deletion defect.\"\"\""

unfoldable pub store_docstring_after : Bytes
store_docstring_after =
    encode "\"\"\"Thread-safe, ephemeral stores for the synthetic deletion control.\"\"\""

unfoldable pub store_defect_before : Bytes
store_defect_before =
    encode
      "            # INTENTIONAL DEMO DEFECT:\n            # `self._analytics_profiles.pop(account_id, None)` is omitted so that\n            # iPromise can detect a real contradiction and propose a bounded fix.\n"

unfoldable pub store_defect_after : Bytes
store_defect_after =
    encode
      "            # Complete deletion across both owned synthetic stores.\n            self._analytics_profiles.pop(account_id, None)\n"

unfoldable pub test_name_before : Bytes
test_name_before =
    encode "async def test_overdue_deletion_intentionally_leaves_analytics_record() -> None:"

unfoldable pub test_name_after : Bytes
test_name_after =
    encode "async def test_overdue_deletion_removes_application_and_analytics_records() -> None:"

unfoldable pub test_assertion_before : Bytes
test_assertion_before = encode "    assert after[\"analytics_profile_exists\"] is True\n"

unfoldable pub test_assertion_after : Bytes
test_assertion_after = encode "    assert after[\"analytics_profile_exists\"] is False\n"
