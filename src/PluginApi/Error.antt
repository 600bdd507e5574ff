-- ===== src/PluginApi/Error.antt =====
-- crates/audiodown-plugin-api/src/error.rs, and the error type of src/content.rs that it shares.
use audio_down_core.Base.{ℕ, String, Bool, true, false, Option, none, some, ltb, ◌||◌, ◌*◌}
use audio_down_core.Base.Text.{Text, byte_len, trims_to_empty}
use audio_down_core.Base.{Result, ◌>>◌, fail_if}

-- The labels are those of the source's `&'static str`.
pub data ContentContractError : Type 0 where
  invalid_text invalid_opaque_value : String → ContentContractError
  invalid_limit too_many_items too_many_sections : ContentContractError

pub data PluginErrorCode : Type 0 where
  invalid_request plugin_not_found plugin_disabled plugin_capability_missing : PluginErrorCode
  plugin_unavailable plugin_timeout plugin_response_invalid resource_not_found : PluginErrorCode
  resource_access_denied resource_temporarily_unavailable credential_not_found : PluginErrorCode
  credential_expired credential_scope_not_allowed login_flow_not_found : PluginErrorCode
  login_flow_expired login_pending login_denied rate_limited : PluginErrorCode
  platform_response_changed plugin_internal_error : PluginErrorCode

unfoldable pub is_retryable : PluginErrorCode → Bool
is_retryable plugin_unavailable = true
is_retryable plugin_timeout = true
is_retryable resource_temporarily_unavailable = true
is_retryable login_pending = true
is_retryable rate_limited = true
is_retryable _ = false

abbrev pub max_error_summary_bytes : ℕ
max_error_summary_bytes = 512

abbrev pub max_retry_after_seconds : ℕ
max_retry_after_seconds = 24 * 60 * 60

pub record PluginErrorData : Type 0 where
  pub code : PluginErrorCode
  pub summary : Text
  pub retry_after_seconds : Option ℕ

-- `option.is_some_and(|seconds| seconds > MAX_RETRY_AFTER_SECONDS)`.
abbrev too_late : Option ℕ → Bool
too_late none = false
too_late (some seconds) = ltb max_retry_after_seconds seconds

-- `PluginErrorData::validate`.
unfoldable pub validate_error_data : PluginErrorData → Result Unit ContentContractError
validate_error_data d =
    fail_if (trims_to_empty d.summary || ltb max_error_summary_bytes (byte_len d.summary))
      (invalid_text "errorSummary")
    >> fail_if (too_late d.retry_after_seconds) (invalid_text "retryAfterSeconds")
