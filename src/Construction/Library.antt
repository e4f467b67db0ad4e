-- ===== src/Construction/Library.antt =====
-- What construction takes from other packages, as parameters: JSON, the parser of operations and the
-- signer of transactions; and the two functions of client/utils.go that turn maps into structs.
use mesh_geth_sdk.Base.{ℕ, ℤ, String, Bool, Option, List, Result, ◌>>=◌}
use mesh_geth_sdk.Base.Dict.{Dict}
use mesh_geth_sdk.Rosetta.{Currency, Value}
use mesh_geth_sdk.Geth.{Address, Hash}
use mesh_geth_sdk.Types.Errors.{GoError}
use mesh_geth_sdk.Construction.Describe.{RequestedAmount, OperationDescription}
use mesh_geth_sdk.Construction.Data.{
  Options, TxMetadata, ParseMetadata, Transaction, TxData, SignedTransactionWrapper,
}

-- An operation of a request, as far as it is read.
pub record RequestedOperation : Type 0 where
  pub type : String
  pub account : Option String
  pub amount : Option RequestedAmount

-- What is read of `First()` of a match. All descriptions ask for an account and an amount, so that
-- `MatchOperations` refuses operations without them.
pub record Match : Type 0 where
  pub address : String
  pub currency : Currency
  pub amount : ℤ

-- encoding/json on the types that are written and read; `Blob` is the type of the JSON texts.
pub record Json (Blob : Type 0) : Type 0 where
  pub is_blank : Blob → Bool
  pub marshal_map : Dict Value → Result GoError Blob
  pub unmarshal_map : Blob → Result GoError (Dict Value)
  pub marshal_options : Options → Result GoError Blob
  pub unmarshal_options : Blob → Result GoError Options
  pub marshal_metadata : TxMetadata → Result GoError Blob
  pub unmarshal_metadata : Blob → Result GoError TxMetadata
  pub marshal_parse_metadata : ParseMetadata → Result GoError Blob
  pub marshal_transaction : Transaction → Result GoError Blob
  pub unmarshal_transaction : Blob → Result GoError Transaction
  pub marshal_wrapper : SignedTransactionWrapper Blob → Result GoError Blob
  pub unmarshal_wrapper : Blob → Result GoError (SignedTransactionWrapper Blob)

-- go-ethereum's signed transactions, and `LatestSignerForChainID` of a chain. `contents` is what the
-- getters of a signed transaction give, `gas_price` to `gas_fee_cap` are those that depend on its kind;
-- `sender` is the sender that `TransactionToMessage` recovers, and `chain_id` what `ChainId` derives.
pub record Signing (Blob Signed : Type 0) : Type 0 where
  pub signing_hash : Option ℤ → TxData → List ℕ
  pub with_signature : Option ℤ → TxData → List ℕ → Result GoError Signed
  pub marshal_signed : Signed → Result GoError Blob
  pub unmarshal_signed : Blob → Result GoError Signed
  pub marshal_binary : TxData → Result GoError (List ℕ)
  pub contents : Signed → TxData
  pub gas_price : Signed → ℤ
  pub gas_tip_cap : Signed → ℤ
  pub gas_fee_cap : Signed → ℤ
  pub chain_id : Signed → ℤ
  pub sender : Signed → Result GoError Address
  pub tx_hash : Signed → Hash
  pub public_key_address : List ℕ → Result GoError Address

-- `Hash` of rosetta-sdk-go's types, and `MatchOperations` of its parser.
pub record Parser : Type 0 where
  pub hash : Currency → String
  pub match_operations :
      List OperationDescription → List RequestedOperation → Result GoError (List Match)

module _ {Blob : Type 0} (json : Json Blob) where
  -- `UnmarshalJSONMap` into a type whose decoder is given
  unfoldable pub unmarshal_json_map :
      {A : Type 0} → (Blob → Result GoError A) → Dict Value → Result GoError A
  unmarshal_json_map unmarshal m = do b ← json.marshal_map m; unmarshal b

  -- `MarshalJSONMap` of a type whose encoder is given
  unfoldable pub marshal_json_map :
      {A : Type 0} → (A → Result GoError Blob) → A → Result GoError (Dict Value)
  marshal_json_map marshal i = do b ← marshal i; json.unmarshal_map b
