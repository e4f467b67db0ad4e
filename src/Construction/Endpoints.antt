-- ===== src/Construction/Endpoints.antt =====
-- services/construction/: the endpoints that take a transaction as it is handed from one to the next:
-- `ConstructionParse`, `ConstructionCombine`, `ConstructionHash`, `ConstructionSubmit`, and
-- `ConstructionDerive`.
use mesh_geth_sdk.Base.{
  ℕ, String, ◌=ₛ◌, Bool, Option, none, some, List, [], ◌∷◌, Result, ok, err, ◌>>=◌, map_err,
  or_crash, if◌then◌else◌,
}
use mesh_geth_sdk.Base.Dict.{Dict}
use mesh_geth_sdk.Rosetta.{Operation, Value, Error}
use mesh_geth_sdk.Geth.{Geth}
use mesh_geth_sdk.Types.{online}
use mesh_geth_sdk.Types.Errors.{
  GoError, message, wrap_err, err_invalid_input, err_unavailable_offline,
  err_unable_to_parse_intermediate_result,
}
use mesh_geth_sdk.Construction.Data.{
  Transaction, ParseMetadata, SignedTransactionWrapper, fields_of, eth_transaction,
}
use mesh_geth_sdk.Construction.Parse.{parse_operations}
use mesh_geth_sdk.Construction.Library.{Json, Signing, marshal_json_map}
use mesh_geth_sdk.Construction.Payloads.{invalid_input, internal_error}

pub record ParseRequest (Blob : Type 0) : Type 0 where
  pub signed : Bool
  pub transaction : Blob

-- `signers` are the addresses of the account identifiers.
pub record ParseResponse : Type 0 where
  pub operations : List Operation
  pub signers : List String
  pub metadata : Dict Value

abbrev pub unable_to_parse : GoError → Error
unable_to_parse e = wrap_err err_unable_to_parse_intermediate_result (some e)

module _ {Blob Signed : Type 0} (json : Json Blob) (signing : Signing Blob Signed) where
  -- The fields of `tx` that are taken from the signed transaction; a nil receiver is dereferenced.
  unfoldable pub transaction_of : SignedTransactionWrapper Blob → Signed → Result Error Transaction
  transaction_of wrapped t = do
    to ← or_crash (fields_of (signing.contents t)).to
    from ← map_err (signing.sender t) unable_to_parse
    ok (record {
      from = from.hex;
      to = to.hex;
      value = (fields_of (signing.contents t)).value;
      call_data = (fields_of (signing.contents t)).call_data;
      nonce = (fields_of (signing.contents t)).nonce;
      gas_price = some (signing.gas_price t);
      gas_limit = (fields_of (signing.contents t)).gas;
      gas_tip_cap = some (signing.gas_tip_cap t);
      gas_fee_cap = some (signing.gas_fee_cap t);
      chain_id = some (signing.chain_id t);
      currency = wrapped.currency;
    })

  -- The variable `tx`
  unfoldable pub parsed_transaction : ParseRequest Blob → Result Error Transaction
  unfolding transaction_of
  parsed_transaction request =
      if request.signed
      then (do
        wrapped ← map_err (json.unmarshal_wrapper request.transaction) unable_to_parse
        t ← map_err (signing.unmarshal_signed wrapped.signed_transaction) invalid_input
        transaction_of wrapped t)
      else map_err (json.unmarshal_transaction request.transaction) unable_to_parse

  abbrev pub parse_metadata : Transaction → ParseMetadata
  parse_metadata tx = record {
    nonce = tx.nonce;
    gas_price = tx.gas_price;
    gas_limit = tx.gas_limit;
    gas_tip_cap = tx.gas_tip_cap;
    gas_fee_cap = tx.gas_fee_cap;
    chain_id = tx.chain_id;
  }

  -- `ConstructionParse`
  unfoldable pub construction_parse :
      Geth → (String → List ℕ) → ParseRequest Blob → Result Error ParseResponse
  construction_parse g keccak request = do
    tx ← parsed_transaction request
    operations ← parse_operations g keccak tx
    metadata ←
        map_err (marshal_json_map json json.marshal_parse_metadata (parse_metadata tx))
          unable_to_parse
    ok (record {
      operations = operations;
      signers = if request.signed then tx.from ∷ [] else [];
      metadata = metadata;
    })

  -- `ConstructionCombine`, of the unsigned transaction and the bytes of the signatures
  unfoldable pub construction_combine : Geth → Blob → List (List ℕ) → Result Error Blob
  construction_combine g unsigned [] =
      if json.is_blank unsigned
      then err (invalid_input (message "transaction data is not provided"))
      else err (invalid_input (message "signature is not provided"))
  construction_combine g unsigned (signature ∷ signatures) =
      if json.is_blank unsigned
      then err (invalid_input (message "transaction data is not provided"))
      else (do
        tx ← map_err (json.unmarshal_transaction unsigned) invalid_input
        signed ←
            map_err (signing.with_signature tx.chain_id (eth_transaction g tx) signature)
              invalid_input
        blob ← map_err (signing.marshal_signed signed) internal_error
        map_err
            (json.marshal_wrapper (record { signed_transaction = blob; currency = tx.currency }))
            internal_error)

  -- The signed transaction of a request to hash or to submit
  unfoldable pub signed_of : Blob → Result Error Signed
  signed_of blob =
      if json.is_blank blob
      then err (invalid_input (message "signed Transaction value is not provided"))
      else (do
        wrapped ← map_err (json.unmarshal_wrapper blob) invalid_input
        map_err (signing.unmarshal_signed wrapped.signed_transaction) invalid_input)

  -- `ConstructionHash`
  unfoldable pub construction_hash : Blob → Result Error String
  construction_hash blob = do t ← signed_of blob; ok (signing.tx_hash t).hex

  -- `ConstructionSubmit`: `submit` is that of the chain's client.
  unfoldable pub construction_submit :
      String → (Signed → Result GoError Unit) → Blob → Result Error String
  construction_submit mode submit blob =
      if mode =ₛ online
      then (do
        t ← signed_of blob
        done ← map_err (submit t) internal_error
        ok (signing.tx_hash t).hex)
      else err err_unavailable_offline

  -- `ConstructionDerive`: `public_key_address` decompresses the key and takes its address.
  unfoldable pub construction_derive : Option (List ℕ) → Result Error String
  construction_derive none = err err_invalid_input
  construction_derive (some key) = do
    address ← map_err (signing.public_key_address key) (λ e. err_invalid_input)
    ok address.hex
