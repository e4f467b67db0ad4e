-- ===== src/Ethereum.antt =====
-- examples/ethereum/client/client.go: the client of Ethereum, which parses the operations of a
-- transaction and reads receipts.
pub mod Mined
pub mod Parsed
pub mod Config
pub mod Client
pub mod Served
use mesh_geth_sdk.Base.{
  ℕ, ◌==◌, ℤ, pos, ◌+ℤ◌, ◌*ℤ◌, String, Bool, not, ◌=ₛ◌, Option, none, some, List, [], ◌∷◌, ◌++◌,
  if◌then◌else◌, Result, ok, err, crash, ◌>>=◌, or_crash, length,
}
use mesh_geth_sdk.Base.Dict.{Dict}
use mesh_geth_sdk.Rosetta.{Operation}
use mesh_geth_sdk.Geth.{Geth, Hash}
use mesh_geth_sdk.Types.Errors.{GoError, message, wrapped, not_found, client_block_orphaned}
use mesh_geth_sdk.Client.Data.{
  Log, FlatCall, EthTransaction, RosettaTxReceipt, RpcTransaction, LoadedTransaction,
}
use mesh_geth_sdk.Mapper.Fee.{fee_ops}
use mesh_geth_sdk.Mapper.Trace.{trace_ops}

-- go-ethereum's `Receipt`
pub record Receipt : Type 0 where
  pub type : ℕ
  pub gas_used : ℕ
  pub logs : List Log
  pub block_hash : Hash

-- `ParseOps`; `order` is the order in which Go ranges over the map of destroyed accounts.
unfoldable pub parse_ops :
    Geth → (Dict ℤ → Dict ℤ) → LoadedTransaction → Result GoError (List Operation)
parse_ops g order tx = do
  fees ← fee_ops g tx
  traces ← trace_ops g order tx.trace (length fees)
  ok (fees ++ traces)

-- `EffectiveGasPrice` of client/client.go; `tip_of` is go-ethereum's `EffectiveGasTip`, which is asked
-- for the tip at a base fee. A nil base fee is dereferenced by the addition.
unfoldable pub effective_gas_price :
    (EthTransaction → Option ℤ → Result GoError ℤ) → EthTransaction → Option ℤ → Result GoError ℤ
effective_gas_price tip_of tx base_fee =
    if tx.type == 2
    then (do tip ← tip_of tx base_fee; fee ← or_crash base_fee; ok (tip +ℤ fee))
    else ok tx.gas_price

-- One element of the batch: its error and what it was decoded to.
pub record Element : Type 0 where
  pub error : Option GoError
  pub result : Option Receipt

unfoldable pub to_receipt : Receipt → ℤ → RosettaTxReceipt
to_receipt r gas_price = record {
  type = r.type;
  gas_price = some gas_price;
  gas_used = some (pos r.gas_used);
  transaction_fee = some (pos r.gas_used *ℤ gas_price);
  logs = r.logs;
  raw_message = none;
  status = 0;
}

unfoldable pub orphaned : GoError
orphaned = wrapped "expected block hash %s for Transaction but got %s: " client_block_orphaned

module _ (tip_of : EthTransaction → Option ℤ → Result GoError ℤ) where
  -- One round of the loop. The receipt is read before the test on nil.
  unfoldable pub block_receipt :
      Hash → Option ℤ → RpcTransaction → Element → Result GoError RosettaTxReceipt
  block_receipt block_hash base_fee tx element = elim element.error [
    | some e ↦ err e
    | none ↦ (do
      gas_price ← effective_gas_price tip_of tx.tx base_fee
      r ← or_crash element.result
      if r.block_hash.hex =ₛ block_hash.hex then ok (to_receipt r gas_price) else err orphaned)
  ]

  -- The batch has an element for each transaction.
  unfoldable pub block_receipts_loop :
      Hash → Option ℤ → List RpcTransaction → List Element → Result GoError (List RosettaTxReceipt)
  block_receipts_loop block_hash base_fee [] elements = ok []
  block_receipts_loop block_hash base_fee (tx ∷ txs) [] = crash
  block_receipts_loop block_hash base_fee (tx ∷ txs) (e ∷ es) = do
    r ← block_receipt block_hash base_fee tx e
    rs ← block_receipts_loop block_hash base_fee txs es
    ok (r ∷ rs)

  -- `txs[i].TxExtraInfo.TxHash.String()`
  unfoldable pub hashes_of : List RpcTransaction → Result GoError (List String)
  hashes_of [] = ok []
  hashes_of (tx ∷ txs) = do
    hash ← or_crash tx.info.tx_hash
    hashes ← hashes_of txs
    ok (hash.hex ∷ hashes)

  -- `GetBlockReceipts`; `batch` is `BatchCallContext` with the method `eth_getTransactionReceipt` and
  -- these arguments.
  unfoldable pub get_block_receipts :
      (List String → Result GoError (List Element))
      → Hash
      → List RpcTransaction
      → Option ℤ
      → Result GoError (List RosettaTxReceipt)
  get_block_receipts batch block_hash [] base_fee = ok []
  get_block_receipts batch block_hash (tx ∷ txs) base_fee = do
    hashes ← hashes_of (tx ∷ txs)
    elements ← batch hashes
    block_receipts_loop block_hash base_fee (tx ∷ txs) elements

  -- The rest of `GetTransactionReceipt`, with the receipt that the call left in `r`.
  unfoldable pub priced_receipt :
      LoadedTransaction → Option Receipt → Result GoError RosettaTxReceipt
  priced_receipt tx receipt = do
    gas_price ← effective_gas_price tip_of tx.transaction tx.base_fee
    r ← or_crash receipt
    ok (record (to_receipt r gas_price) { type = 0 })

  -- What follows the call. Its error is assigned over, with `r` still nil.
  unfoldable pub received :
      LoadedTransaction → Result GoError (Option Receipt) → Result GoError RosettaTxReceipt
  received tx (ok none) = err not_found
  received tx (ok (some r)) = priced_receipt tx (some r)
  received tx (err e) = priced_receipt tx none
  received tx crash = crash

  -- `GetTransactionReceipt`; `call` is `CallContext` with the method `eth_getTransactionReceipt`.
  unfoldable pub get_transaction_receipt :
      (Option Hash → Result GoError (Option Receipt))
      → LoadedTransaction
      → Result GoError RosettaTxReceipt
  get_transaction_receipt call tx = received tx (call tx.tx_hash)
