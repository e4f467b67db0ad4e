-- ===== src/Construction/Payloads.antt =====
-- services/construction/payloads.go: `ConstructionPayloads` makes the unsigned transaction and what is
-- to be signed.
use mesh_geth_sdk.Base.{
  ℕ, ℤ, pos, String, ◌=ₛ◌, Bool, Option, some, is_some, List, [], ◌∷◌, map, get_elem?, Result, ok,
  err, ◌>>=◌, map_err, or_crash, or_err, if◌then◌else◌,
}
use mesh_geth_sdk.Base.Dict.{Dict, lookup}
use mesh_geth_sdk.Rosetta.{Currency, Value, Error}
use mesh_geth_sdk.Geth.{Geth, Address}
use mesh_geth_sdk.Types.Errors.{
  GoError, message, wrapped, wrap_err, err_invalid_input, err_internal_error,
}
use mesh_geth_sdk.Client.Utils.{checksum_address}
use mesh_geth_sdk.Construction.Data.{TxMetadata, Transaction, eth_transaction}
use mesh_geth_sdk.Construction.Describe.{
  OperationDescription, create_operation_description, contract_address_of,
}
use mesh_geth_sdk.Construction.TransferData.{bytes_equal, generate_erc20_transfer_data}
use mesh_geth_sdk.Construction.CallData.{construct_contract_call_data_generic}
use mesh_geth_sdk.Construction.CallData.Args.{Abi}
use mesh_geth_sdk.Construction.Library.{
  RequestedOperation, Match, Json, Signing, Parser, unmarshal_json_map,
}

pub record PayloadsRequest : Type 0 where
  pub operations : List RequestedOperation
  pub metadata : Dict Value

-- The payload is the address of its account and its bytes; its signature type is `EcdsaRecovery`.
pub record SigningPayload : Type 0 where
  pub address : String
  pub bytes : List ℕ

pub record PayloadsResponse (Blob : Type 0) : Type 0 where
  pub unsigned_transaction : Blob
  pub payloads : List SigningPayload

-- The variables `transferData`, `sendToAddress` and `amount`.
pub record Sending : Type 0 where
  pub transfer_data : List ℕ
  pub send_to_address : Address
  pub amount : ℤ

abbrev pub invalid_input : GoError → Error
invalid_input e = wrap_err err_invalid_input (some e)

abbrev pub internal_error : GoError → Error
internal_error e = wrap_err err_internal_error (some e)

abbrev pub not_an_address : GoError → GoError
not_an_address e = wrapped "%s is not a valid address: " e

-- `_, ok := req.Metadata["method_signature"]`
abbrev pub is_contract_call : Dict Value → Bool
is_contract_call metadata = is_some (lookup "method_signature" metadata)

module _ (g : Geth) (keccak : String → List ℕ) (abi : Abi) (parser : Parser)
    (native : Currency) where
  -- The generic contract call
  unfoldable pub call_sending : TxMetadata → String → ℤ → Result Error Sending
  call_sending metadata to amount = do
    contract_data ← map_err (abi.decode metadata.contract_data) invalid_input
    call_data ←
        map_err
          (construct_contract_call_data_generic g abi keccak metadata.method_signature
            metadata.method_args)
          invalid_input
    if bytes_equal call_data contract_data
        then ok (record {
          transfer_data = contract_data;
          send_to_address = g.hex_to_address to;
          amount = amount;
        })
        else err (invalid_input (message "invalid conctract data"))

  unfoldable pub native_sending : String → ℤ → Sending
  native_sending to amount = record {
    transfer_data = [];
    send_to_address = g.hex_to_address to;
    amount = amount;
  }

  -- The transfer of a token, for the address as it stands in the operation
  unfoldable pub token_sending : Currency → String → ℤ → Result Error Sending
  token_sending currency to_address amount = do
    contract ←
        or_err (contract_address_of currency)
          (invalid_input (message "%s currency doesn't have a contract address in Metadata"))
    ok (record {
      transfer_data = generate_erc20_transfer_data g keccak to_address amount;
      send_to_address = g.hex_to_address contract;
      amount = pos 0;
    })

  -- The switch on what is sent
  unfoldable pub sending_of :
      Bool → Currency → TxMetadata → String → String → ℤ → Result Error Sending
  sending_of is_call currency metadata to_address to amount =
      if is_call
      then call_sending metadata to amount
      else if parser.hash currency =ₛ parser.hash native
      then ok (native_sending to amount)
      else token_sending currency to_address amount

  -- `CreateOperationDescription` of the operations of a request
  unfoldable pub descriptions_of :
      List RequestedOperation → Bool → Result GoError (List OperationDescription)
  descriptions_of operations is_call =
      create_operation_description parser.hash abi.set_string native
        (map (λ (o : RequestedOperation). o.amount) operations) is_call

  abbrev pub unsigned : Option ℤ → TxMetadata → String → Currency → Sending → Transaction
  unsigned chain_id metadata from currency sending = record {
    from = from;
    to = sending.send_to_address.hex;
    value = some sending.amount;
    call_data = sending.transfer_data;
    nonce = metadata.nonce;
    gas_price = metadata.gas_price;
    gas_limit = metadata.gas_limit;
    gas_tip_cap = metadata.gas_tip_cap;
    gas_fee_cap = metadata.gas_fee_cap;
    chain_id = chain_id;
    currency = currency;
  }

  -- From the matches and the metadata on
  unfoldable pub unsigned_transaction :
      Bool → Option ℤ → TxMetadata → Match → Match → Result Error Transaction
  unsigned_transaction is_call chain_id metadata from_op to_op = do
    from ← map_err (checksum_address g from_op.address) (λ e. invalid_input (not_an_address e))
    to ← map_err (checksum_address g to_op.address) (λ e. invalid_input (not_an_address e))
    sending ← sending_of is_call from_op.currency metadata to_op.address to to_op.amount
    ok (unsigned chain_id metadata from from_op.currency sending)

  module _ {Blob Signed : Type 0} (json : Json Blob) (signing : Signing Blob Signed) where
    unfoldable pub payloads_response : Transaction → Result Error (PayloadsResponse Blob)
    payloads_response tx = do
      blob ← map_err (json.marshal_transaction tx) invalid_input
      ok (record {
        unsigned_transaction = blob;
        payloads =
            record {
              address = tx.from;
              bytes = signing.signing_hash tx.chain_id (eth_transaction g tx);
            }
            ∷ [];
      })

    -- `ConstructionPayloads`
    unfoldable pub construction_payloads :
        Option ℤ → PayloadsRequest → Result Error (PayloadsResponse Blob)
    construction_payloads chain_id request = do
      let is_call = is_contract_call request.metadata
      descriptions ← map_err (descriptions_of request.operations is_call) invalid_input
      matches ← map_err (parser.match_operations descriptions request.operations) internal_error
      metadata ←
          map_err (unmarshal_json_map json json.unmarshal_metadata request.metadata) internal_error
      to_op ← or_crash (get_elem? matches 1)
      from_op ← or_crash (get_elem? matches 0)
      tx ← unsigned_transaction is_call chain_id metadata from_op to_op
      payloads_response tx
