-- ===== src/Services/Client.antt =====
-- The interface `Client` of services/construction/types.go, which the services are given and a chain
-- implements. `Submit` and the calls of raw requests are arguments of what makes them.
use mesh_geth_sdk.Base.{ℕ, ℤ, String, Bool, Option, List, Result}
use mesh_geth_sdk.Base.Dict.{Dict}
use mesh_geth_sdk.Rosetta.{
  Currency, Amount, Operation, Value, BlockIdentifier, PartialBlockIdentifier,
}
use mesh_geth_sdk.Geth.{Address, Hash}
use mesh_geth_sdk.Types.Errors.{GoError}
use mesh_geth_sdk.Configuration.{RosettaConfig}
use mesh_geth_sdk.Construction.Data.{Options}
use mesh_geth_sdk.Client.Data.{
  FlatCall, ContractCurrency, RosettaTxReceipt, LoadedTransaction, RpcTransaction, RpcBlock,
}

-- go-ethereum's block header; the number is below 2^63.
pub record Header : Type 0 where
  pub number : ℕ
  pub base_fee : Option ℤ
  pub coinbase : Address
  pub parent_hash : Hash
  pub uncle_hash : Hash
  pub tx_hash : Hash
  pub time : ℕ

-- go-ethereum's `Block`, made by `NewBlockWithHeader(header).WithBody(txs, uncles)`.
pub record EthBlock : Type 0 where
  pub header : Header
  pub uncles : List Header

pub record Transaction : Type 0 where
  pub hash : String
  pub operations : List Operation
  pub metadata : Dict Value

pub record SyncStatus : Type 0 where
  pub current_index : Option ℤ
  pub target_index : Option ℤ
  pub stage : Option String
  pub synced : Option Bool

pub record Peer : Type 0 where
  pub peer_id : String
  pub metadata : Dict Value

pub record Status : Type 0 where
  pub current_block : BlockIdentifier
  pub current_time : ℤ
  pub sync_status : Option SyncStatus
  pub peers : List Peer

pub record AccountBalance : Type 0 where
  pub balances : List Amount
  pub block_identifier : BlockIdentifier
  pub nonce : ℤ

-- A raw message is its text. `call_context` takes the method and its first argument.
-- `GetLoadedTransaction` may return nil with no error; `GetBlockReceipts` may return nil, and nil
-- entries. `PopulateCrossChainTransactions` is handed pointers: the transactions that it leaves come
-- back beside its own. `BlockRewardTransaction` returns no error, but ends the process for
-- an address that is not valid.
pub record Client : Type 0 where
  pub status : Result GoError Status
  pub balance :
      String → Option PartialBlockIdentifier → List Currency → Result GoError AccountBalance
  pub rosetta_config : RosettaConfig
  pub get_block_hash : BlockIdentifier → Result GoError String
  pub skip_tx_receipt_parsing : String → Bool
  pub get_customized_block_body : String → Result GoError RpcBlock
  pub trace_block_by_hash : Hash → List RpcTransaction → Result GoError (Dict (List FlatCall))
  pub trace_transaction : Hash → Result GoError (String × List FlatCall)
  pub block_reward_transaction : BlockIdentifier → String → List Header → Result GoError Transaction
  pub get_loaded_transaction : BlockIdentifier → String → Result GoError (Option LoadedTransaction)
  pub block_author : ℕ → Result GoError String
  pub get_uncles : Header → RpcBlock → Result GoError (List Header)
  pub trace_replay_block_transactions : String → Result GoError (Dict (List FlatCall))
  pub trace_replay_transaction : String → Result GoError (String × List FlatCall)
  pub populate_cross_chain_transactions :
      EthBlock → List LoadedTransaction → Result GoError (List Transaction × List LoadedTransaction)
  pub get_contract_currency : Address → Bool → Result GoError ContractCurrency
  pub call_context : String → String → Result GoError String
  pub get_block_receipts :
      Hash
      → List RpcTransaction
      → Option ℤ
      → Result GoError (Option (List (Option RosettaTxReceipt)))
  pub get_transaction_receipt : LoadedTransaction → Result GoError RosettaTxReceipt
  pub get_nonce : Options → Result GoError ℕ
  pub get_gas_price : Options → Result GoError ℤ
  pub get_gas_tip_cap : Options → Result GoError ℤ
  pub get_gas_fee_cap : Options → ℤ → Result GoError (Option ℤ)
  pub get_l1_data_fee : List ℕ → Result GoError (Option ℤ)
  pub get_native_transfer_gas_limit : String → String → ℤ → Result GoError ℕ
  pub get_erc20_transfer_gas_limit : String → String → ℤ → Currency → Result GoError ℕ
  pub get_contract_call_gas_limit : String → String → ℤ → List ℕ → Result GoError ℕ
  pub parse_ops : LoadedTransaction → Result GoError (List Operation)
