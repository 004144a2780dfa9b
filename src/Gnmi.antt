-- ===== src/Gnmi.antt =====
-- The parts of gNMI's messages (app/idl/gnmi/gnmi.proto) that app/inc/gnmi_util.hpp and
-- app/inc/sub_hub.hpp read and write.
pub mod Paths
pub mod Json
pub mod SubHub
pub mod Command
pub mod Client
use grace_server.Base.{ℕ, Bool, Option, List, Bytes}
use grace_server.Base.Dict.{Dict}

-- `gnmi::PathElem`; its map of keys.
pub record PathElem : Type 0 where
  pub name : Bytes
  pub keys : Dict Bytes Bytes

abbrev pub GnmiPath : Type 0
GnmiPath = List PathElem

-- A signed number: `negsuc n` is -(n + 1).
pub data ℤ : Type 0 where
  pos negsuc : ℕ → ℤ

-- The oneof of `gnmi::TypedValue`; a double is named by its bits. `other_val` is a case that the
-- code does not name, or none.
pub data TypedValue : Type 0 where
  string_val : Bytes → TypedValue
  int_val : ℤ → TypedValue
  uint_val : ℕ → TypedValue
  bool_val : Bool → TypedValue
  double_val : ℕ → TypedValue
  json_val json_ietf_val ascii_val : Bytes → TypedValue
  other_val : TypedValue

pub record Update : Type 0 where
  pub path : GnmiPath
  pub val : TypedValue

pub record Notification : Type 0 where
  pub timestamp : ℤ
  pub prefix : GnmiPath
  pub updates : List Update
  pub deletes : List GnmiPath

-- The oneof of `gnmi::SubscribeResponse`.
pub data SubscribeResponse : Type 0 where
  update : Notification → SubscribeResponse
  sync_response : Bool → SubscribeResponse
  error : Bytes → SubscribeResponse
  not_set : SubscribeResponse

pub record SetRequest : Type 0 where
  pub updates : List Update
  pub replaces : List Update
  pub deletes : List GnmiPath

-- `gnmi::UpdateResult::Operation`.
pub data Operation : Type 0 where
  op_update op_replace op_delete op_invalid : Operation

-- `gnmi::UpdateResult`.
pub record UpdateResult : Type 0 where
  pub path : GnmiPath
  pub op : Operation

-- `gnmi_client::response`.
pub record Response : Type 0 where
  pub grpc_status : ℤ
  pub grpc_message : Bytes
  pub body_pb : Bytes
