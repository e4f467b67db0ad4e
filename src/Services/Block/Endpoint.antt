-- ===== src/Services/Block/Endpoint.antt =====
-- The endpoints `Block` and `BlockTransaction`.
use mesh_geth_sdk.Base.{
  ◌-◌, ◌*◌, ◌==◌, ℤ, pos, ◌*ℤ◌, signed64, String, Option, none, some, List, [], ◌∷◌, ◌++◌,
  if◌then◌else◌, Result, ok, err, crash, ◌>>=◌, map_err, or_crash,
}
use mesh_geth_sdk.Rosetta.{BlockIdentifier, PartialBlockIdentifier, Error}
use mesh_geth_sdk.Geth.{Geth, Hash}
use mesh_geth_sdk.Types.{genesis_block_index}
use mesh_geth_sdk.Types.Errors.{
  GoError, message, wrapped, is_block_orphaned, wrap_err, err_unavailable_offline,
  err_block_orphaned, err_geth, err_internal_error, err_invalid_input,
}
use mesh_geth_sdk.Configuration.{Configuration, is_offline_mode, open_ethereum_trace}
use mesh_geth_sdk.Client.Data.{RosettaTxReceipt, LoadedTransaction}
use mesh_geth_sdk.Services.Client.{Client, Transaction, Header, EthBlock}
use mesh_geth_sdk.Services.Block.Cache.{Cache}
use mesh_geth_sdk.Services.Block.Populate.{Codec, populate_transaction, populate_transactions}
use mesh_geth_sdk.Services.Block.Fetch.{Decoder, Fetched, get_eth_block}

pub record Block : Type 0 where
  pub block_identifier : BlockIdentifier
  pub parent_block_identifier : BlockIdentifier
  pub timestamp : ℤ
  pub transactions : List Transaction

-- How a failure to get the block is reported.
unfoldable pub block_error : GoError → Error
block_error e =
    if is_block_orphaned e then wrap_err err_block_orphaned (some e) else wrap_err err_geth (some e)

unfoldable pub internal : String → GoError → Error
internal text e = wrap_err err_internal_error (some (wrapped text e))

-- `loadedTxns[0].BaseFee`
unfoldable pub first_base_fee : List LoadedTransaction → Option ℤ
first_base_fee [] = none
first_base_fee (tx ∷ txs) = tx.base_fee

-- The fee of a transaction whose receipt is known; a nil receipt is dereferenced.
unfoldable pub with_receipt :
    {E : Type 0} → Option (Option RosettaTxReceipt) → LoadedTransaction → Result E LoadedTransaction
with_receipt none tx = ok tx
with_receipt (some receipt) tx = do
  r ← or_crash receipt
  ok (record tx {
    receipt = some r;
    fee_amount = elim r.transaction_fee [ none ↦ some (pos 0) | some fee ↦ some fee ];
  })

unfoldable pub burn :
    {E : Type 0} → Option ℤ → Option ℤ → LoadedTransaction → Result E LoadedTransaction
burn base_fee none tx = ok (record tx { fee_burned = base_fee })
burn base_fee (some fee) tx = do
  r ← or_crash tx.receipt
  gas_used ← or_crash r.gas_used
  ok (record tx { fee_burned = some (gas_used *ℤ fee) })

-- The burned part of the fee: gas used times base fee, since EIP-1559.
unfoldable pub with_burned :
    {E : Type 0} → Option ℤ → LoadedTransaction → Result E LoadedTransaction
with_burned base_fee tx = burn base_fee tx.base_fee tx

-- The loop over the loaded transactions; `receipts[i]` is out of range where there are too few.
unfoldable pub with_fees :
    {E : Type 0}
    → Option ℤ
    → Option (List (Option RosettaTxReceipt))
    → List LoadedTransaction
    → Result E (List LoadedTransaction)
with_fees base_fee receipts [] = ok []
with_fees base_fee none (tx ∷ txs) = do
  tx' ← with_burned base_fee tx
  txs' ← with_fees base_fee none txs
  ok (tx' ∷ txs')
with_fees base_fee (some []) (tx ∷ txs) = crash
with_fees base_fee (some (r ∷ receipts)) (tx ∷ txs) = do
  received ← with_receipt (some r) tx
  tx' ← with_burned base_fee received
  txs' ← with_fees base_fee (some receipts) txs
  ok (tx' ∷ txs')

-- The genesis block is its own parent.
unfoldable pub parent_identifier : BlockIdentifier → Header → BlockIdentifier
parent_identifier identifier head =
    if identifier.index == genesis_block_index
    then identifier
    else record { index = identifier.index - 1; hash = head.parent_hash.hex }

-- What is known of a block before its transactions are populated.
pub record Prepared : Type 0 where
  pub identifier : BlockIdentifier
  pub eth_block : EthBlock
  pub loaded : List LoadedTransaction
  pub cross : List Transaction

module _ {Store : Type 0} (cache : Cache Store) (g : Geth) (config : Configuration) (c : Client)
    (d : Decoder) (codec : Codec) (block_hash : Header → Hash) where
  unfoldable pub prepare : Fetched → Result Error Prepared
  prepare f = do
    receipts ←
        map_err
          (c.get_block_receipts f.rpc_block.hash f.rpc_block.transactions (first_base_fee f.loaded))
          (internal "could not get receipts for %x: ")
    loaded ← with_fees (first_base_fee f.loaded) receipts f.loaded
    let index = f.block.header.number
    hash ←
        map_err
          (c.get_block_hash (record { index = index; hash = (block_hash f.block.header).hex }))
          (internal "could not get block hash given block identifier %v: ")
    cross ←
        map_err (c.populate_cross_chain_transactions f.block loaded)
          (λ e. wrap_err err_geth (some e))
    ok (record {
      identifier = record { index = index; hash = hash };
      eth_block = f.block;
      loaded = cross.1;
      cross = cross.0;
    })

  unfoldable pub respond : Prepared → Result GoError (List Transaction) → Result Error Block
  respond p (err e) = err (wrap_err err_geth (some e))
  respond p crash = crash
  respond p (ok transactions) = ok (record {
    block_identifier = p.identifier;
    parent_block_identifier = parent_identifier p.identifier p.eth_block.header;
    timestamp = signed64 (p.eth_block.header.time * 1000);
    transactions = transactions ++ p.cross;
  })

  unfoldable pub finish : Result Error Prepared → Store → Result Error Block × Store
  finish (err e) s = (err e, s)
  finish crash s = (crash, s)
  finish (ok p) s =
      let (r, s') =
        populate_transactions cache g config c codec p.identifier p.eth_block p.loaded s in
      (respond p r, s')

  -- `Block`
  unfoldable pub block : Option PartialBlockIdentifier → Store → Result Error Block × Store
  block identifier s =
      if is_offline_mode config
      then (err err_unavailable_offline, s)
      else finish (map_err (get_eth_block g config c d identifier) block_error >>= prepare) s

  -- The trace and the receipt of one transaction, with the fees.
  unfoldable pub trace_one : LoadedTransaction → Result Error LoadedTransaction
  trace_one tx = do
    hash ← or_crash tx.tx_hash
    answered ←
        map_err
          (if c.rosetta_config.trace_type == open_ethereum_trace
            then c.trace_replay_transaction hash.hex
            else c.trace_transaction hash)
          (internal "unable to get tx trace: ")
    let traced = record tx { trace = answered.1; raw_trace = some answered.0 }
    receipt ← map_err (c.get_transaction_receipt traced) (internal "unable to get tx receipt: ")
    with_burned none
        (record traced { receipt = some receipt; fee_amount = receipt.transaction_fee })

  -- `GetLoadedTransaction` gives nil for a pending transaction, and its hash is then read.
  unfoldable pub load_one : BlockIdentifier → String → Result Error LoadedTransaction
  load_one identifier transaction = do
    loaded ←
        map_err (c.get_loaded_transaction identifier transaction)
          (internal "unable to get loaded tx: ")
    tx ← or_crash loaded
    trace_one tx

  unfoldable pub finish_one :
      Result Error LoadedTransaction → Store → Result Error Transaction × Store
  finish_one (err e) s = (err e, s)
  finish_one crash s = (crash, s)
  finish_one (ok tx) s =
      let (r, s') = populate_transaction cache g config c codec tx s in
      (map_err r (internal "unable to populate tx: "), s')

  -- `BlockTransaction`
  unfoldable pub block_transaction :
      Option BlockIdentifier → String → Store → Result Error Transaction × Store
  block_transaction identifier transaction s =
      if is_offline_mode config then (err err_unavailable_offline, s) else elim identifier [
        | none ↦ (
          err (wrap_err err_invalid_input (some (message "block identifier is not provided"))),
          s,
        )
        | some b ↦ finish_one (load_one b transaction) s
      ]
