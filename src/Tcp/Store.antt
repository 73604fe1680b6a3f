-- ===== src/Tcp/Store.antt =====
-- The trait `Store` of src/storage_engine.rs: what a connection asks of the storage engine.
use rkvs.Base.{Option, Text}
use rkvs.Tcp.Protocol.Response.{StorageEngineError}

-- Result<Option<String>, StorageEngineError>
pub data EngineResult : Type 0 where
  value : Option Text → EngineResult
  failure : StorageEngineError → EngineResult

-- `S` is the state behind the trait's `&self`.
pub record Store (S : Type 0) : Type 0 where
  pub get : S → Text → EngineResult × S
  pub put : S → Text → Text → EngineResult × S
  pub delete : S → Text → EngineResult × S
