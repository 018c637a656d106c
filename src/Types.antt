-- ===== src/Types.antt =====
-- The contract types of src/types.py.
use lite_store.Base.{ℕ, Option, none, List, [], ℤ}
use lite_store.Base.Text.{Text, text}
use lite_store.Base.Dict.{Dict}

pub data CommandName : Type 0 where
  ping set get del expire ttl mget keys flushall : CommandName

-- CommandName.value
abbrev pub command_value : CommandName → Text
command_value ping = text "PING"
command_value set = text "SET"
command_value get = text "GET"
command_value del = text "DEL"
command_value expire = text "EXPIRE"
command_value ttl = text "TTL"
command_value mget = text "MGET"
command_value keys = text "KEYS"
command_value flushall = text "FLUSHALL"

pub data ResponseKind : Type 0 where
  simple_string bulk_string integer null error array : ResponseKind

pub data FsyncPolicy : Type 0 where
  never always every_n : FsyncPolicy

pub data ErrorCode : Type 0 where
  invalid_request unknown_command wrong_arity key_not_found expired_key : ErrorCode
  storage_error persistence_error routing_error worker_error internal_error : ErrorCode

-- ErrorCode.value
abbrev pub error_value : ErrorCode → Text
error_value invalid_request = text "INVALID_REQUEST"
error_value unknown_command = text "UNKNOWN_COMMAND"
error_value wrong_arity = text "WRONG_ARITY"
error_value key_not_found = text "KEY_NOT_FOUND"
error_value expired_key = text "EXPIRED_KEY"
error_value storage_error = text "STORAGE_ERROR"
error_value persistence_error = text "PERSISTENCE_ERROR"
error_value routing_error = text "ROUTING_ERROR"
error_value worker_error = text "WORKER_ERROR"
error_value internal_error = text "INTERNAL_ERROR"

pub record CommandRequest : Type 0 where
  pub command : CommandName
  pub args : List Text
  pub request_id : Option Text
  pub client_id : Option Text

pub record CommandResponse : Type 0 where
  pub kind : ResponseKind
  pub message : Option Text
  pub value : Option Text
  pub integer : Option ℤ
  pub error_code : Option ErrorCode
  pub request_id : Option Text
  pub values : List (Option Text)

-- CommandResponse(kind=kind, request_id=request_id), with the defaults of the other fields
abbrev pub response : ResponseKind → Option Text → CommandResponse
response kind request_id = record {
  kind = kind;
  message = none;
  value = none;
  integer = none;
  error_code = none;
  request_id = request_id;
  values = [];
}

pub record PersistRecord : Type 0 where
  pub sequence : ℤ
  pub request : CommandRequest

pub record KeyRoute : Type 0 where
  pub partition_id : ℕ
  pub worker_id : Text

pub record WorkerStats : Type 0 where
  pub worker_id : Text
  pub partition_id : ℕ
  pub in_flight : ℤ
  pub queued : ℕ

pub record ErrorDetails : Type 0 where
  pub code : ErrorCode
  pub message : Text
  pub context : Dict Text Text

pub record WorkerRequest : Type 0 where
  pub request_id : Text
  pub command : CommandName
  pub args : List Text
  pub client_id : Option Text

pub record WorkerResponse : Type 0 where
  pub request_id : Text
  pub kind : ResponseKind
  pub message : Option Text
  pub value : Option Text
  pub integer : Option ℤ
  pub error_code : Option ErrorCode

pub record WorkerControl : Type 0 where
  pub action : Text
  pub request_id : Option Text
