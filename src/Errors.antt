-- ===== src/Errors.antt =====
-- The exceptions of src/errors.py: a LiteStoreError carries a code, a message and a context.
use lite_store.Base.Text.{Text}
use lite_store.Base.Dict.{Dict}
use lite_store.Types.{
  ErrorCode, ErrorDetails, invalid_request, unknown_command, wrong_arity, storage_error,
  persistence_error, routing_error, worker_error,
}

pub record LiteStoreError : Type 0 where
  pub code : ErrorCode
  pub message : Text
  pub context : Dict Text Text

unfoldable pub to_details : LiteStoreError → ErrorDetails
to_details e = record { code = e.code; message = e.message; context = e.context }

-- The subclasses differ in the code that their constructor passes on.
unfoldable pub invalid_request_error : Text → Dict Text Text → LiteStoreError
invalid_request_error message context = record {
  code = invalid_request;
  message = message;
  context = context;
}

unfoldable pub unknown_command_error : Text → Dict Text Text → LiteStoreError
unknown_command_error message context = record {
  code = unknown_command;
  message = message;
  context = context;
}

unfoldable pub wrong_arity_error : Text → Dict Text Text → LiteStoreError
wrong_arity_error message context = record {
  code = wrong_arity;
  message = message;
  context = context;
}

unfoldable pub storage_failure : Text → Dict Text Text → LiteStoreError
storage_failure message context = record {
  code = storage_error;
  message = message;
  context = context;
}

unfoldable pub persistence_failure : Text → Dict Text Text → LiteStoreError
persistence_failure message context = record {
  code = persistence_error;
  message = message;
  context = context;
}

unfoldable pub routing_failure : Text → Dict Text Text → LiteStoreError
routing_failure message context = record {
  code = routing_error;
  message = message;
  context = context;
}

unfoldable pub worker_failure : Text → Dict Text Text → LiteStoreError
worker_failure message context = record {
  code = worker_error;
  message = message;
  context = context;
}
