-- ===== src/PluginApi/Rpc.antt =====
-- crates/audiodown-plugin-api/src/rpc.rs: the answers of a plugin. A JSON value is a parameter.
use audio_down_core.Base.{ℕ, Option}
use audio_down_core.Base.Text.{Text}

-- `code` is an `i64` that the content service does not read; its bit pattern stands for it.
pub record JsonRpcError (Value : Type 0) : Type 0 where
  pub code : ℕ
  pub message : Text
  pub data_value : Option Value

pub record JsonRpcResponse (Value : Type 0) : Type 0 where
  pub jsonrpc : Text
  pub id : Text
  pub result : Option Value
  pub error : Option (JsonRpcError Value)
