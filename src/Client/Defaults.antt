-- ===== src/Client/Defaults.antt =====
-- client/client.go: the methods of the SDK client that a chain may override. A method of the SDK client
-- that calls one of them gets the one below, whatever the chain has: Go does not dispatch from an
-- embedded struct to the one that embeds it.
use mesh_geth_sdk.Base.{ℕ, ℤ, String, Bool, false, Option, List, [], Result, ok, err}
use mesh_geth_sdk.Rosetta.{Operation, BlockIdentifier}
use mesh_geth_sdk.Geth.{Hash}
use mesh_geth_sdk.Types.Errors.{GoError, message}
use mesh_geth_sdk.Client.Data.{RosettaTxReceipt, LoadedTransaction, RpcTransaction, RpcBlock}
use mesh_geth_sdk.Services.Client.{Transaction, EthBlock}

unfoldable pub populate_cross_chain_transactions :
    EthBlock → List LoadedTransaction → Result GoError (List Transaction × List LoadedTransaction)
populate_cross_chain_transactions block loaded = ok ([], loaded)

unfoldable pub get_block_hash : BlockIdentifier → Result GoError String
get_block_hash identifier = ok identifier.hash

unfoldable pub skip_tx_receipt_parsing : String → Bool
skip_tx_receipt_parsing contract_address = false

unfoldable pub parse_ops : LoadedTransaction → Result GoError (List Operation)
parse_ops tx = err (message "ParseOps not implemented")

unfoldable pub block_author : ℕ → Result GoError String
block_author block_index = err (message "BlockAuthor not implemented")

unfoldable pub get_transaction_receipt : LoadedTransaction → Result GoError RosettaTxReceipt
get_transaction_receipt tx = err (message "GetTransactionReceipt not implemented")

unfoldable pub get_block_receipts :
    Hash → List RpcTransaction → Option ℤ → Result GoError (Option (List (Option RosettaTxReceipt)))
get_block_receipts block_hash txs base_fee = err (message "GetBlockReceipts not implemented")

unfoldable pub get_native_transfer_gas_limit : String → String → ℤ → Result GoError ℕ
get_native_transfer_gas_limit to_address from_address value =
    err (message "GetNativeTransferGasLimit not implemented")

unfoldable pub get_l1_data_fee : List ℕ → Result GoError (Option ℤ)
get_l1_data_fee eth_tx_bytes = err (message "GetL1DataFee not implemented")

unfoldable pub get_customized_block_body : String → Result GoError RpcBlock
get_customized_block_body raw = err (message "GetCustomizedBlockBody not implemented")
