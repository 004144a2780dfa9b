-- ===== src/Tunnel/Hub/Messages.antt =====
-- The messages of app/idl/tunnel/tunnel.proto that the hub sends. Their bytes are protobuf's.
use grace_server.Base.{ℕ, Bool, Bytes}

-- `grpctunnel::Session`, in a `RegisterOp`.
pub record Session : Type 0 where
  pub tag : ℕ
  pub target : Bytes
  pub target_type : Bytes

-- `grpctunnel::Data`.
pub record Data : Type 0 where
  pub tag : ℕ
  pub bytes : Bytes
  pub close : Bool

-- `SerializeToString`, of the generated classes.
pub record Encoding : Type 0 where
  pub session_pb : Session → Bytes
  pub data_pb : Data → Bytes
