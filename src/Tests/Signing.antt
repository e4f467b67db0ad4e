-- ===== src/Tests/Signing.antt =====
-- The theorems on the way of a transaction from one endpoint of construction to the next.
use mesh_geth_sdk.Base.{
  ℕ, ◌^◌, ◌*◌, ◌<◌, pos, negsuc, ◌≡◌, refl, false, ◌↔◌, none, some, List, [], ◌∷◌, Result, ok,
  arith,
}
use mesh_geth_sdk.Base.Decimal.{show_ℤ}
use mesh_geth_sdk.Base.Dict.{Dict, lookup}
use mesh_geth_sdk.Rosetta.{Value, text, strings, list, cons, nil, Error}
use mesh_geth_sdk.Types.{native_currency}
use mesh_geth_sdk.Types.Errors.{GoError}
use mesh_geth_sdk.Client.Utils.{transfer_fn_signature, checksum_address}
use mesh_geth_sdk.Construction.Data.{Transaction, Options, TxMetadata, eth_transaction}
use mesh_geth_sdk.Construction.Describe.{
  create_operation_description, describe_amounts, describe_transfer, OperationDescription, text_of,
}
use mesh_geth_sdk.Construction.TransferData.{generate_erc20_transfer_data}
use mesh_geth_sdk.Construction.CallData.{
  construct_contract_call_data_generic, preprocess_args, append_args, contract_call_method_id,
}
use mesh_geth_sdk.Construction.CallData.Transfer.{construct-generate_erc20_transfer_data}
use mesh_geth_sdk.Construction.Library.{RequestedOperation, Match, Parser, unmarshal_json_map}
use mesh_geth_sdk.Construction.Payloads.{
  PayloadsRequest, PayloadsResponse, Sending, descriptions_of, unsigned_transaction, sending_of,
  native_sending, payloads_response, construction_payloads, call_sending,
}
use mesh_geth_sdk.Construction.Preprocess.{
  load_metadata, load_call, load_method, load_numeric_metadata,
}
use mesh_geth_sdk.Construction.Preprocess.Calls.{calling, load_metadata-call_sending}
use mesh_geth_sdk.Construction.Metadata.{suggested_fee}
use mesh_geth_sdk.Construction.Metadata.Fee.{suggested_fee_exact}
use mesh_geth_sdk.Construction.Endpoints.{parsed_transaction, construction_combine}
use mesh_geth_sdk.Construction.Flow.{ParsedAs}
use mesh_geth_sdk.Construction.Flow.Unsigned.{construction_payloads-ParsedAs}
use mesh_geth_sdk.Tests.Setting.{alice, bob}
use mesh_geth_sdk.Tests.Json.{
  Blob, long_geth, long_geth-KeepsAddress, long_geth-ReadsHex, keccak, toy_json,
  toy_json-KeepsTransactions, toy_signing, toy_abi, toy_abi-Decodes, toy_abi-ReadsNumbers,
  toy_abi-PacksTransfers, toy_match, plain_options, plain_metadata, transaction_blob,
}

construct-generate_erc20_transfer_data_example :
    (construct_contract_call_data_generic long_geth toy_abi keccak transfer_fn_signature
        (strings ("0xb" ∷ "5" ∷ []))
      ≡ ok (generate_erc20_transfer_data long_geth keccak "0xb" (pos 5)))
    × (construct_contract_call_data_generic long_geth toy_abi keccak transfer_fn_signature
          (list (cons (text "0xb") (cons (text "5") nil)))
        ≡ ok (generate_erc20_transfer_data long_geth keccak "0xb" (pos 5)))
unfolding show_ℤ
construct-generate_erc20_transfer_data_example =
    construct-generate_erc20_transfer_data long_geth toy_abi keccak toy_abi-ReadsNumbers
      toy_abi-PacksTransfers "0xb" 5 (omega arith)

suggested_fee_exact_example :
    ((suggested_fee (pos 3) none 21000 ≡ pos (3 * 21000)) ↔ (3 * 21000 < 2 ^ 63))
    × ((suggested_fee (pos 9) (some (pos 3)) 21000 ≡ pos (3 * 21000)) ↔ (3 * 21000 < 2 ^ 63))
suggested_fee_exact_example = suggested_fee_exact (pos 9) 3 21000 (omega arith) (omega arith)

abbrev send_op : RequestedOperation
send_op = record {
  type = "CALL";
  account = some "0xa";
  amount = some (record { value = "-5"; currency = some native_currency });
}

abbrev receive_op : RequestedOperation
receive_op = record {
  type = "CALL";
  account = some "0xb";
  amount = some (record { value = "5"; currency = some native_currency });
}

abbrev from_match : Match
from_match = toy_match native_currency "0xa" (negsuc 4)

abbrev to_match : Match
to_match = toy_match native_currency "0xb" (pos 5)

abbrev toy_parser : Parser
toy_parser = record {
  hash = λ c. c.symbol;
  match_operations = λ ds ops. ok (from_match ∷ to_match ∷ []);
}

abbrev request : PayloadsRequest
request = record { operations = send_op ∷ receive_op ∷ []; metadata = [] }

abbrev no_transaction : Transaction
no_transaction = record {
  from = "";
  to = "";
  value = none;
  call_data = [];
  nonce = 0;
  gas_price = none;
  gas_limit = 0;
  gas_tip_cap = none;
  gas_fee_cap = none;
  chain_id = none;
  currency = native_currency;
}

abbrev response_or_empty : Result Error (PayloadsResponse Blob) → PayloadsResponse Blob
response_or_empty (ok r) = r
response_or_empty _ = record {
  unsigned_transaction = transaction_blob no_transaction;
  payloads = [];
}

abbrev descriptions_or_nil : Result GoError (List OperationDescription) → List OperationDescription
descriptions_or_nil (ok ds) = ds
descriptions_or_nil _ = []

abbrev described : List OperationDescription
described =
    descriptions_or_nil
      (descriptions_of long_geth keccak toy_abi toy_parser native_currency request.operations false)

described-eq :
    descriptions_of long_geth keccak toy_abi toy_parser native_currency request.operations false
    ≡ ok described
unfolding descriptions_of create_operation_description describe_amounts describe_transfer
described-eq = refl

abbrev response : PayloadsResponse Blob
response = response_or_empty (
    construction_payloads long_geth keccak toy_abi toy_parser native_currency toy_json toy_signing
      (some (pos 1)) request)

response-eq :
    construction_payloads long_geth keccak toy_abi toy_parser native_currency toy_json toy_signing
      (some (pos 1))
      request
    ≡ ok response
unfolding construction_payloads descriptions_of create_operation_description describe_amounts
    describe_transfer lookup unmarshal_json_map unsigned_transaction checksum_address sending_of
    native_sending payloads_response eth_transaction
response-eq = refl

construction_payloads-ParsedAs_example :
    (tx : Transaction) × (parsed_transaction toy_json toy_signing
        (record { signed = false; transaction = response.unsigned_transaction })
      ≡ ok tx)
    × ParsedAs long_geth keccak toy_parser native_currency from_match alice bob 5 tx
construction_payloads-ParsedAs_example =
    construction_payloads-ParsedAs toy_json toy_signing toy_json-KeepsTransactions long_geth keccak
      toy_abi toy_parser native_currency long_geth-ReadsHex long_geth-KeepsAddress refl
      (some (pos 1)) request from_match to_match [] alice bob 5 (unfold lookup in refl) described-eq
      refl refl (refl, refl) (refl, refl) refl (omega arith) response-eq

abbrev unsigned_tx : Transaction
unsigned_tx = record no_transaction {
  from = "0xa";
  to = "0xb";
  value = some (pos 5);
  gas_price = some (pos 3);
  gas_limit = 21000;
  chain_id = some (pos 1);
}

abbrev blob_or_empty : Result Error Blob → Blob
blob_or_empty (ok b) = b
blob_or_empty _ = transaction_blob no_transaction

abbrev combined : Blob
combined = blob_or_empty (
    construction_combine toy_json toy_signing long_geth (transaction_blob unsigned_tx)
      ((1 ∷ []) ∷ []))

-- A contract call with one number as its argument.
abbrev call_request : Dict Value
call_request = ("method_signature", text "NO-METHOD-SIG") ∷ ("method_args", text "aaa.a.") ∷ []

abbrev options_or_plain : Result GoError Options → Options
options_or_plain (ok o) = o
options_or_plain _ = plain_options

abbrev loaded : Options
loaded = options_or_plain (load_metadata long_geth keccak toy_abi call_request plain_options)

loaded-eq : load_metadata long_geth keccak toy_abi call_request plain_options ≡ ok loaded
unfolding load_metadata load_numeric_metadata load_call load_method lookup
    construct_contract_call_data_generic preprocess_args append_args contract_call_method_id text_of
loaded-eq = refl

abbrev call_metadata : TxMetadata
call_metadata = record plain_metadata {
  contract_data = "aaa.a.";
  method_signature = loaded.method_signature;
  method_args = loaded.method_args;
}

load_metadata-call_sending_example :
    (bs : List ℕ) × (toy_abi.decode loaded.contract_data ≡ ok bs)
    × ((s : Sending)
        → (call_sending long_geth keccak toy_abi toy_parser native_currency call_metadata "0xb"
              (pos 0)
            ≡ ok s)
          ↔ ((toy_abi.decode call_metadata.contract_data ≡ ok bs)
              × (s ≡ calling long_geth keccak toy_abi toy_parser native_currency bs "0xb" (pos 0))))
load_metadata-call_sending_example =
    load_metadata-call_sending long_geth keccak toy_abi toy_parser native_currency call_request
      (text "NO-METHOD-SIG") plain_options call_metadata "0xb" (pos 0) toy_abi-Decodes
      (unfold lookup in refl) loaded-eq refl refl
