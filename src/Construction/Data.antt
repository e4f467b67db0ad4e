-- ===== src/Construction/Data.antt =====
-- The data of construction: of client/types.go the options, the metadata and the transaction that is
-- handed from endpoint to endpoint, and `EthTransaction` of services/construction/utils.go.
use mesh_geth_sdk.Base.{ℕ, ℤ, String, Option, none, some, List, if◌then◌else◌, ◌≡◌, refl}
use mesh_geth_sdk.Base.Text.{is_empty}
use mesh_geth_sdk.Rosetta.{Currency, Value}
use mesh_geth_sdk.Geth.{Geth, Address}

-- `Options`; a float is known by its text.
pub record Options : Type 0 where
  pub from : String
  pub to : String
  pub token_address : String
  pub contract_address : String
  pub value : String
  pub suggested_fee_multiplier : Option String
  pub gas_price : Option ℤ
  pub gas_limit : Option ℤ
  pub gas_tip_cap : Option ℤ
  pub gas_fee_cap : Option ℤ
  pub nonce : Option ℤ
  pub currency : Option Currency
  pub method_signature : String
  pub method_args : Value
  pub contract_data : String

-- `Metadata`
pub record TxMetadata : Type 0 where
  pub nonce : ℕ
  pub gas_price : Option ℤ
  pub gas_limit : ℕ
  pub gas_tip_cap : Option ℤ
  pub gas_fee_cap : Option ℤ
  pub contract_data : String
  pub method_signature : String
  pub method_args : Value
  pub l1_data_fee : Option ℤ

-- `ParseMetadata`
pub record ParseMetadata : Type 0 where
  pub nonce : ℕ
  pub gas_price : Option ℤ
  pub gas_limit : ℕ
  pub gas_tip_cap : Option ℤ
  pub gas_fee_cap : Option ℤ
  pub chain_id : Option ℤ

-- `Transaction`; `call_data` is its `Data`.
pub record Transaction : Type 0 where
  pub from : String
  pub to : String
  pub value : Option ℤ
  pub call_data : List ℕ
  pub nonce : ℕ
  pub gas_price : Option ℤ
  pub gas_limit : ℕ
  pub gas_tip_cap : Option ℤ
  pub gas_fee_cap : Option ℤ
  pub chain_id : Option ℤ
  pub currency : Currency

-- `SignedTransactionWrapper`; the signed transaction is its JSON text.
pub record SignedTransactionWrapper (Blob : Type 0) : Type 0 where
  pub signed_transaction : Blob
  pub currency : Currency

-- The fields of go-ethereum's `LegacyTx` and `DynamicFeeTx` that are filled in for both.
pub record TxFields : Type 0 where
  pub nonce : ℕ
  pub gas : ℕ
  pub to : Option Address
  pub value : Option ℤ
  pub call_data : List ℕ

-- What `NewTx` is given.
pub data TxData : Type 0 where
  legacy_tx : Option ℤ → TxFields → TxData
  dynamic_fee_tx : ℤ → ℤ → TxFields → TxData

abbrev pub fields_of : TxData → TxFields
fields_of (legacy_tx gas_price fields) = fields
fields_of (dynamic_fee_tx gas_tip_cap gas_fee_cap fields) = fields

unfoldable pub receiver : Geth → String → Option Address
receiver g to = if is_empty to then none else some (g.hex_to_address to)

unfoldable pub priced : Option ℤ → Option ℤ → Option ℤ → TxFields → TxData
priced (some gas_tip_cap) (some gas_fee_cap) gas_price fields =
    dynamic_fee_tx gas_tip_cap gas_fee_cap fields
priced (some gas_tip_cap) none gas_price fields = legacy_tx gas_price fields
priced none gas_fee_cap gas_price fields = legacy_tx gas_price fields

-- `EthTransaction`
unfoldable pub eth_transaction : Geth → Transaction → TxData
unfolding receiver priced
eth_transaction g tx = priced tx.gas_tip_cap tx.gas_fee_cap tx.gas_price (record {
  nonce = tx.nonce;
  gas = tx.gas_limit;
  to = receiver g tx.to;
  value = tx.value;
  call_data = tx.call_data;
})

fields_of-priced :
    (tip cap price : Option ℤ) (fields : TxFields)
    → fields_of (priced tip cap price fields) ≡ fields
unfolding priced
fields_of-priced (some t) (some c) price fields = refl
fields_of-priced (some t) none price fields = refl
fields_of-priced none cap price fields = refl

-- Whatever the fees, the transaction has the fields that it was made from.
pub fields_of-eth_transaction :
    (g : Geth) (tx : Transaction)
    → fields_of (eth_transaction g tx) ≡ record {
      nonce = tx.nonce;
      gas = tx.gas_limit;
      to = receiver g tx.to;
      value = tx.value;
      call_data = tx.call_data;
    }
unfolding eth_transaction
fields_of-eth_transaction g tx = fields_of-priced tx.gas_tip_cap tx.gas_fee_cap tx.gas_price _
