-- ===== src/Types/Errors.antt =====
-- types/errors.go: the table of API errors, the errors of the client, and `WrapErr`.
pub mod Table
use mesh_geth_sdk.Base.{
  ℕ, zero, suc, ◌+◌, ◌<◌, String, ◌≡◌, refl, Bool, true, false, Option, none, some, List, [], ◌∷◌,
  arith, length, get_elem?,
}
use mesh_geth_sdk.Rosetta.{Error}
use Prim.Native.String.{◌++◌}

-- Go's `error` values: the sentinels that the program compares with, other messages (a format
-- string stands for the text that it prints), and `%w` wrappings.
pub data GoError : Type 0 where
  client_block_orphaned : GoError
  client_call_parameters_invalid : GoError
  client_call_output_marshal : GoError
  client_call_method_invalid : GoError
  not_found : GoError
  message : String → GoError
  wrapped : String → GoError → GoError

-- `err.Error()`
unfoldable pub error_text : GoError → String
error_text client_block_orphaned = "block orphaned"
error_text client_call_parameters_invalid = "call parameters invalid"
error_text client_call_output_marshal = "call output marshal"
error_text client_call_method_invalid = "call method invalid"
error_text not_found = "not found"
error_text (message s) = s
error_text (wrapped s e) = s ++ error_text e

-- `errors.Is(err, ErrClientBlockOrphaned)`
unfoldable pub is_block_orphaned : GoError → Bool
is_block_orphaned client_block_orphaned = true
is_block_orphaned (wrapped s e) = is_block_orphaned e
is_block_orphaned _ = false

abbrev pub err_unimplemented : Error
err_unimplemented = record {
  code = 0;
  message = "Endpoint not implemented";
  retriable = false;
  details = none;
}

abbrev pub err_unavailable_offline : Error
err_unavailable_offline = record {
  code = 1;
  message = "Endpoint unavailable offline";
  retriable = false;
  details = none;
}

abbrev pub err_geth : Error
err_geth = record { code = 2; message = "geth error"; retriable = false; details = none }

abbrev pub err_unable_to_decompress_pubkey : Error
err_unable_to_decompress_pubkey = record {
  code = 3;
  message = "unable to decompress public key";
  retriable = false;
  details = none;
}

abbrev pub err_unclear_intent : Error
err_unclear_intent = record {
  code = 4;
  message = "Unable to parse intent";
  retriable = false;
  details = none;
}

abbrev pub err_unable_to_parse_intermediate_result : Error
err_unable_to_parse_intermediate_result = record {
  code = 5;
  message = "Unable to parse intermediate result";
  retriable = false;
  details = none;
}

abbrev pub err_signature_invalid : Error
err_signature_invalid = record {
  code = 6;
  message = "Signature invalid";
  retriable = false;
  details = none;
}

abbrev pub err_broadcast_failed : Error
err_broadcast_failed = record {
  code = 7;
  message = "Unable to broadcast transaction";
  retriable = false;
  details = none;
}

abbrev pub err_call_parameters_invalid : Error
err_call_parameters_invalid = record {
  code = 8;
  message = "Call parameters invalid";
  retriable = false;
  details = none;
}

abbrev pub err_call_output_marshal : Error
err_call_output_marshal = record {
  code = 9;
  message = "Call output marshal failed";
  retriable = false;
  details = none;
}

abbrev pub err_call_method_invalid : Error
err_call_method_invalid = record {
  code = 10;
  message = "Call method invalid";
  retriable = false;
  details = none;
}

abbrev pub err_block_orphaned : Error
err_block_orphaned = record {
  code = 11;
  message = "Block orphaned";
  retriable = true;
  details = none;
}

abbrev pub err_invalid_address : Error
err_invalid_address = record {
  code = 12;
  message = "Invalid address";
  retriable = false;
  details = none;
}

abbrev pub err_geth_not_ready : Error
err_geth_not_ready = record {
  code = 13;
  message = "geth not ready";
  retriable = true;
  details = none;
}

abbrev pub err_invalid_input : Error
err_invalid_input = record {
  code = 14;
  message = "invalid input";
  retriable = false;
  details = none;
}

abbrev pub err_internal_error : Error
err_internal_error = record {
  code = 15;
  message = "internal error";
  retriable = false;
  details = none;
}

abbrev pub err_nonce_error : Error
err_nonce_error = record {
  code = 16;
  message = "error getting nonce";
  retriable = false;
  details = none;
}

abbrev pub err_gas_price_error : Error
err_gas_price_error = record {
  code = 17;
  message = "error getting gas price";
  retriable = false;
  details = none;
}

abbrev pub err_native_gas_limit_error : Error
err_native_gas_limit_error = record {
  code = 18;
  message = "error getting gas limit for native transfer";
  retriable = false;
  details = none;
}

abbrev pub err_erc20_gas_limit_error : Error
err_erc20_gas_limit_error = record {
  code = 19;
  message = "error getting gas limit for erc20 transfer";
  retriable = false;
  details = none;
}

abbrev pub err_gas_tip_cap_error : Error
err_gas_tip_cap_error = record {
  code = 20;
  message = "error getting gas tip cap";
  retriable = false;
  details = none;
}

abbrev pub err_gas_fee_cap_error : Error
err_gas_fee_cap_error = record {
  code = 21;
  message = "error getting gas fee cap";
  retriable = false;
  details = none;
}

abbrev pub err_l1_data_fee_error : Error
err_l1_data_fee_error = record {
  code = 22;
  message = "error getting l1 data fee";
  retriable = false;
  details = none;
}

abbrev pub errors : List Error
errors =
    err_unimplemented ∷ err_unavailable_offline ∷ err_geth ∷ err_unable_to_decompress_pubkey
    ∷ err_unclear_intent ∷ err_unable_to_parse_intermediate_result ∷ err_signature_invalid
    ∷ err_broadcast_failed ∷ err_call_parameters_invalid ∷ err_call_output_marshal
    ∷ err_call_method_invalid ∷ err_block_orphaned ∷ err_invalid_address ∷ err_geth_not_ready
    ∷ err_invalid_input ∷ err_internal_error ∷ err_nonce_error ∷ err_gas_price_error
    ∷ err_native_gas_limit_error ∷ err_erc20_gas_limit_error ∷ err_gas_tip_cap_error
    ∷ err_gas_fee_cap_error ∷ err_l1_data_fee_error ∷ []

-- The details hold the text of the error, if there is one.
unfoldable pub wrap_err : Error → Option GoError → Error
unfolding error_text
wrap_err e none = record {
  code = e.code;
  message = e.message;
  retriable = e.retriable;
  details = none;
}
wrap_err e (some err) = record {
  code = e.code;
  message = e.message;
  retriable = e.retriable;
  details = some (error_text err);
}
