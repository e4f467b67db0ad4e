-- ===== src/Services/Block/Populate.antt =====
-- `PopulateTransaction` and `populateTransactions`: a loaded transaction becomes a Rosetta one.
use mesh_geth_sdk.Base.{
  ℕ, ◌^◌, ◌-◌, ◌==◌, ltb, ℤ, uint64, String, ◌=ₛ◌, Bool, not, ◌&&◌, ◌||◌, Option, none, some, List,
  [], ◌∷◌, ◌++◌, if◌then◌else◌, Result, ok, err, crash, or_crash, length,
}
use mesh_geth_sdk.Rosetta.{Operation, Value, text, BlockIdentifier}
use mesh_geth_sdk.Geth.{Geth, Address}
use mesh_geth_sdk.Types.Errors.{GoError, message, wrapped}
use mesh_geth_sdk.Configuration.{Configuration}
use mesh_geth_sdk.Client.Data.{
  FlatCall, Log, ContractCurrency, Token, RosettaTxReceipt, EthTransaction, LoadedTransaction,
}
use mesh_geth_sdk.Client.Utils.{get_valid_erc20_token}
use mesh_geth_sdk.Mapper.Erc20.{
  topics_in_erc20_deposit_or_withdrawal, topics_in_erc20_transfer, erc20_ops,
}
use mesh_geth_sdk.Services.Client.{Client, Transaction, EthBlock}
use mesh_geth_sdk.Services.Block.Cache.{
  Cache, Cached, ◌>>=◌, lift, relabel, get_currency_from_node_or_cache,
}

abbrev pub unknown_erc20_symbol : String
unknown_erc20_symbol = "ERC20_UNKNOWN"

abbrev pub max_int32 : ℕ
max_int32 = 2 ^ 31 - 1

-- `encoding/json` on receipts and traces, and go-ethereum's `hexutil`.
pub record Codec : Type 0 where
  pub receipt_map : Option RosettaTxReceipt → Result GoError Value
  pub trace_map : FlatCall → Result GoError Value
  pub trace_list : List Value → Value
  pub encode_uint64 : ℕ → String
  pub encode_big : ℤ → String

unfoldable pub receipt_logs : Option RosettaTxReceipt → List Log
receipt_logs none = []
receipt_logs (some receipt) = receipt.logs

-- `tx.Receipt.GasUsed`, and `tx.Transaction.Gas()` where that is nil.
unfoldable pub gas_limit_of : EthTransaction → Option RosettaTxReceipt → ℕ
gas_limit_of tx none = tx.gas
gas_limit_of tx (some receipt) = elim receipt.gas_used [
  | none ↦ tx.gas
  | some gas_used ↦ uint64 gas_used
]

unfoldable pub gas_price_of : EthTransaction → Option RosettaTxReceipt → ℤ
gas_price_of tx none = tx.gas_price
gas_price_of tx (some receipt) = elim receipt.gas_price [
  | none ↦ tx.gas_price
  | some gas_price ↦ gas_price
]

unfoldable pub trace_maps : Codec → List FlatCall → Result GoError (List Value)
trace_maps codec [] = ok []
trace_maps codec (t ∷ ts) = elim (codec.trace_map t) [
  | ok m ↦ elim (trace_maps codec ts) [ ok ms ↦ ok (m ∷ ms) | err e ↦ err e | crash ↦ crash ]
  | err e ↦ err e
  | crash ↦ crash
]

-- The currency of a whitelisted token, from the list's own metadata.
unfoldable pub white_listed : Token → Result GoError ContractCurrency
white_listed token =
    if ltb max_int32 token.decimals
    then err (message "token %s has too many decimals: %d")
    else ok (record { symbol = token.symbol; decimals = token.decimals })

-- `fetch` is how the currency of a contract is found.
module _ {Store : Type 0} (g : Geth) (config : Configuration) (c : Client)
    (fetch : Address → String → Cached Store ContractCurrency) where
  -- The currency of a log's token; none where the loop goes on without it.
  unfoldable pub filtered_currency : Address → Option Token → Cached Store (Option ContractCurrency)
  filtered_currency address none = lift (ok none)
  filtered_currency address (some token) =
      if c.rosetta_config.use_token_white_list_metadata
      then (do currency ← lift (white_listed token); lift (ok (some currency)))
      else (do currency ← fetch address address.hex; lift (ok (some currency)))

  unfoldable pub unfiltered_currency : Address → Cached Store (Option ContractCurrency)
  unfiltered_currency address = do
    currency ← fetch address address.hex
    lift (
        ok (
          if (currency.symbol =ₛ unknown_erc20_symbol)
            && not config.rosetta_cfg.index_unknown_tokens
          then none
          else some currency))

  unfoldable pub log_currency : Address → Cached Store (Option ContractCurrency)
  log_currency address =
      if c.rosetta_config.filter_tokens
      then filtered_currency address
          (get_valid_erc20_token c.rosetta_config.token_white_list address.hex)
      else unfiltered_currency address

  unfoldable pub append_erc20_ops :
      Log → List Operation → Option ContractCurrency → Cached Store (List Operation)
  append_erc20_ops log ops none = lift (ok ops)
  append_erc20_ops log ops (some currency) = do
    erc20 ← lift (erc20_ops g log currency (length ops))
    lift (ok (ops ++ erc20))

  -- Whether the loop passes over the log at once.
  unfoldable pub skips_log : Log → Bool
  skips_log log =
      c.skip_tx_receipt_parsing log.address.hex
      || (not (length log.topics == topics_in_erc20_deposit_or_withdrawal)
          && not (length log.topics == topics_in_erc20_transfer))

  unfoldable pub log_step : Log → List Operation → Cached Store (List Operation)
  log_step log ops =
      if skips_log log
      then lift (ok ops)
      else (do currency ← log_currency log.address; append_erc20_ops log ops currency)

  unfoldable pub log_loop : List Log → List Operation → Cached Store (List Operation)
  log_loop [] ops = lift (ok ops)
  log_loop (log ∷ logs) ops = do more ← log_step log ops; log_loop logs more

  unfoldable pub populate_with : Codec → LoadedTransaction → Cached Store Transaction
  populate_with codec tx = do
    parsed ← lift (c.parse_ops tx)
    ops ← log_loop (receipt_logs tx.receipt) parsed
    receipt_map ← lift (codec.receipt_map tx.receipt)
    traces ← lift (trace_maps codec tx.trace)
    hash ← lift (or_crash tx.tx_hash)
    lift (
        ok (record {
          hash = hash.hex;
          operations = ops;
          metadata =
              ("gas_limit", text (codec.encode_uint64 (gas_limit_of tx.transaction tx.receipt)))
              ∷ ("gas_price", text (codec.encode_big (gas_price_of tx.transaction tx.receipt)))
              ∷ ("receipt", receipt_map)
              ∷ ("trace", codec.trace_list traces)
              ∷ [];
        }))

  unfoldable pub populate_all : Codec → List LoadedTransaction → Cached Store (List Transaction)
  populate_all codec [] = lift (ok [])
  populate_all codec (tx ∷ txs) = if tx.is_bridged_txn then populate_all codec txs else (do
    transaction ← relabel (wrapped "cannot parse %s: ") (populate_with codec tx)
    rest ← populate_all codec txs
    lift (ok (transaction ∷ rest)))

-- `PopulateTransaction`
unfoldable pub populate_transaction :
    {Store : Type 0}
    → Cache Store
    → Geth
    → Configuration
    → Client
    → Codec
    → LoadedTransaction
    → Cached Store Transaction
populate_transaction cache g config c codec tx =
    populate_with g config c (get_currency_from_node_or_cache cache c) codec tx

-- The reward transaction, where the chain has one.
unfoldable pub reward_transactions :
    {Store : Type 0} → Client → BlockIdentifier → EthBlock → Cached Store (List Transaction)
reward_transactions c identifier block =
    if c.rosetta_config.support_reward_tx
    then (do
      tx ← lift (c.block_reward_transaction identifier block.header.coinbase.hex block.uncles)
      lift (ok (tx ∷ [])))
    else lift (ok [])

-- `populateTransactions`; the error names the transaction.
unfoldable pub populate_transactions :
    {Store : Type 0}
    → Cache Store
    → Geth
    → Configuration
    → Client
    → Codec
    → BlockIdentifier
    → EthBlock
    → List LoadedTransaction
    → Cached Store (List Transaction)
populate_transactions cache g config c codec identifier block loaded = do
  rewards ← reward_transactions c identifier block
  populated ← populate_all g config c (get_currency_from_node_or_cache cache c) codec loaded
  lift (ok (rewards ++ populated))
