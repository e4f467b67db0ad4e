-- ===== src/Client/Data.antt =====
-- client/types.go and the trace types of client/tracer.go: the data that the client loads.
use mesh_geth_sdk.Base.{ℕ, ℤ, String, Bool, Option, List}
use mesh_geth_sdk.Geth.{Address, Hash}

-- `big.Int` pointers that the decoders always set are integers; those that may be nil are options.
pub record EvmTransfer : Type 0 where
  pub purpose : String
  pub from : Option Address
  pub to : Option Address
  pub value : ℤ

pub record FlatCall : Type 0 where
  pub before_evm_transfers : List EvmTransfer
  pub after_evm_transfers : List EvmTransfer
  pub type : String
  pub from : Address
  pub to : Address
  pub value : ℤ
  pub gas_used : ℤ
  pub revert : Bool
  pub error_message : String

-- `Call` holds a list of calls, which the block declares.
mutual
  pub data Call : Type 0 where
    call : FlatCall → Calls → Call

  pub data Calls : Type 0 where
    none_left : Calls
    more : Call → Calls → Calls

pub record ContractCurrency : Type 0 where
  pub symbol : String
  pub decimals : ℕ

-- go-ethereum's `Log`
pub record Log : Type 0 where
  pub address : Address
  pub topics : List Hash
  pub bytes : List ℕ

pub record RosettaTxReceipt : Type 0 where
  pub type : ℕ
  pub gas_price : Option ℤ
  pub gas_used : Option ℤ
  pub transaction_fee : Option ℤ
  pub logs : List Log
  pub raw_message : Option String
  pub status : ℕ

-- What the getters of go-ethereum's `Transaction` give that the program reads.
pub record EthTransaction : Type 0 where
  pub type : ℕ
  pub gas : ℕ
  pub gas_price : ℤ

pub record LoadedTransaction : Type 0 where
  pub transaction : EthTransaction
  pub from : Option Address
  pub block_number : Option String
  pub block_hash : Option Hash
  pub tx_hash : Option Hash
  pub fee_amount : Option ℤ
  pub fee_burned : Option ℤ
  pub miner : String
  pub author : String
  pub status : Bool
  pub trace : List FlatCall
  pub raw_trace : Option String
  pub receipt : Option RosettaTxReceipt
  pub base_fee : Option ℤ
  pub is_bridged_txn : Bool
  pub mint : String

pub record TxExtraInfo : Type 0 where
  pub block_number : Option String
  pub block_hash : Option Hash
  pub from : Option Address
  pub tx_hash : Option Hash
  pub mint : String

pub record RpcTransaction : Type 0 where
  pub tx : EthTransaction
  pub info : TxExtraInfo

pub record RpcBlock : Type 0 where
  pub hash : Hash
  pub transactions : List RpcTransaction
  pub uncle_hashes : List Hash

-- configuration/configuration.go
pub record Token : Type 0 where
  pub chain_id : ℕ
  pub address : String
  pub name : String
  pub symbol : String
  pub decimals : ℕ

-- The trace types of the open ethereum API.
pub record OpenEthAction : Type 0 where
  pub type : String
  pub from : Address
  pub to : Address
  pub value : ℤ
  pub gas_used : ℤ

pub record OpenEthTrace : Type 0 where
  pub subtraces : ℕ
  pub action : OpenEthAction
  pub type : String
  pub transaction_hash : String

pub record OpenEthTraceCall : Type 0 where
  pub output : String
  pub trace : List OpenEthTrace
