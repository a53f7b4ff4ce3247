-- ===== src/Config.antt =====
-- The settings that the modelled code reads: `class Settings` of src/asterixdb_mcp/config.py, each
-- a field of the same name. Durations are whole numbers of one clock's ticks.
use asterixdb_mcp_server.Prelude.{ℕ, Bool, String, Option, List}
use asterixdb_mcp_server.Prelude.Dict.{Dict}

pub record Settings : Type 0 where
  pub cc_shared_secret : Option String
  pub agent_session_id : String
  pub memory_enabled : Bool
  pub memory_write_enabled : Bool
  pub max_time_ms : ℕ
  pub max_bytes_per_query : ℕ
  pub sync_permits : ℕ
  pub async_permits : ℕ
  pub max_concurrent_waits : ℕ
  pub permits_per_principal : ℕ
  pub dataverse_allowlist : Option (Dict (List String))
  pub max_wait_ms : ℕ
  pub wait_poll_interval_ms : ℕ
  pub audit_log_ttl_s : ℕ
  pub max_rows_to_llm : ℕ
  pub max_bytes_to_llm : ℕ
  pub max_field_chars : ℕ
  pub artifacts_enabled : Bool
  pub auth_mode : String
