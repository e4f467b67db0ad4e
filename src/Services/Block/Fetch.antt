-- ===== src/Services/Block/Fetch.antt =====
-- `GetEthBlock` and `GetBlock`: a block is fetched from the node, decoded, and its transactions are
-- loaded with their traces.
use mesh_geth_sdk.Base.{
  ◌==◌, ℤ, pos, String, Option, none, some, List, [], ◌∷◌, if◌then◌else◌, Result, ok, err, ◌>>=◌,
  map_err, or_crash,
}
use mesh_geth_sdk.Base.Text.{is_empty}
use mesh_geth_sdk.Base.Dict.{Dict, lookup}
use mesh_geth_sdk.Rosetta.{PartialBlockIdentifier}
use mesh_geth_sdk.Geth.{Geth}
use mesh_geth_sdk.Types.{genesis_block_index}
use mesh_geth_sdk.Types.Errors.{GoError, not_found, wrapped}
use mesh_geth_sdk.Configuration.{Configuration, open_ethereum_trace}
use mesh_geth_sdk.Client.Data.{FlatCall, LoadedTransaction, RpcTransaction, RpcBlock}
use mesh_geth_sdk.Client.Utils.{must_checksum, to_block_num_arg, loaded_transaction}
use mesh_geth_sdk.Services.Client.{Client, Header, EthBlock}

-- The decoders of go-ethereum's headers and transactions, and `hexutil.EncodeBig`.
pub record Decoder : Type 0 where
  pub header : String → Result GoError Header
  pub body : String → Result GoError RpcBlock
  pub encode_big : ℤ → String

-- What `GetBlock` returns.
pub record Fetched : Type 0 where
  pub block : EthBlock
  pub loaded : List LoadedTransaction
  pub rpc_block : RpcBlock

module _ (g : Geth) (config : Configuration) (c : Client) (d : Decoder) where
  unfoldable pub fetch_raw : String → String → Result GoError String
  fetch_raw method arg = do
    raw ← map_err (c.call_context method arg) (wrapped "block fetch failed: ")
    if is_empty raw then err not_found else ok raw

  unfoldable pub decode_body : String → Result GoError RpcBlock
  decode_body raw =
      if config.rosetta_cfg.support_customized_block_body
      then c.get_customized_block_body raw
      else d.body raw

  -- The author; the empty text where the chain has none.
  unfoldable pub block_author_of : Header → Result GoError String
  block_author_of head =
      if c.rosetta_config.supports_block_author
      then map_err (c.block_author head.number) (wrapped "could not get block author for %x: ")
      else ok ""

  -- The traces by transaction hash; none at genesis.
  unfoldable pub traces_of : Header → RpcBlock → Result GoError (Option (Dict (List FlatCall)))
  traces_of head body = if head.number == genesis_block_index then ok none else (do
    m ←
        (if c.rosetta_config.trace_type == open_ethereum_trace
          then c.trace_replay_block_transactions body.hash.hex
          else c.trace_block_by_hash body.hash body.transactions)
    ok (some m))

  -- The author or the miner of the block, on the transaction.
  unfoldable pub with_rewarder :
      String → Header → LoadedTransaction → Result GoError LoadedTransaction
  with_rewarder author head tx =
      if c.rosetta_config.supports_block_author
      then (do a ← must_checksum g author; ok (record tx { author = a }))
      else (do m ← must_checksum g head.coinbase.hex; ok (record tx { miner = m }))

  -- The traces that the map holds under the transaction's hash.
  unfoldable pub with_trace :
      Option (Dict (List FlatCall)) → LoadedTransaction → Result GoError LoadedTransaction
  with_trace none tx = ok tx
  with_trace (some m) tx = do
    hash ← or_crash tx.tx_hash
    ok (elim (lookup hash.hex m) [ none ↦ tx | some calls ↦ record tx { trace = calls } ])

  unfoldable pub load_transaction :
      String
      → Header
      → Option (Dict (List FlatCall))
      → RpcTransaction
      → Result GoError LoadedTransaction
  load_transaction author head traces t = do
    tx ← with_rewarder author head (record (loaded_transaction t) { base_fee = head.base_fee })
    with_trace traces tx

  unfoldable pub load_transactions :
      String
      → Header
      → Option (Dict (List FlatCall))
      → List RpcTransaction
      → Result GoError (List LoadedTransaction)
  load_transactions author head traces [] = ok []
  load_transactions author head traces (t ∷ ts) = do
    tx ← load_transaction author head traces t
    txs ← load_transactions author head traces ts
    ok (tx ∷ txs)

  unfoldable pub uncles_of : Header → RpcBlock → Result GoError (List Header)
  uncles_of head body =
      if c.rosetta_config.support_reward_tx
      then map_err (c.get_uncles head body) (wrapped "unable to get uncles: ")
      else ok []

  -- `GetBlock`
  unfoldable pub get_block : String → String → Result GoError Fetched
  get_block method arg = do
    raw ← fetch_raw method arg
    head ← d.header raw
    body ← decode_body raw
    author ← block_author_of head
    traces ← traces_of head body
    loaded ← load_transactions author head traces body.transactions
    uncles ← uncles_of head body
    ok (record {
      block = record { header = head; uncles = uncles };
      loaded = loaded;
      rpc_block = body;
    })

  -- `GetEthBlock`: by hash before index, and the latest block where neither is given.
  unfoldable pub get_eth_block : Option PartialBlockIdentifier → Result GoError Fetched
  get_eth_block none = get_block "eth_getBlockByNumber" (to_block_num_arg d.encode_big none)
  get_eth_block (some identifier) = elim identifier.hash [
    | some hash ↦ get_block "eth_getBlockByHash" hash
    | none ↦ elim identifier.index [
      | some index ↦
          get_block "eth_getBlockByNumber" (to_block_num_arg d.encode_big (some (pos index)))
      | none ↦ get_block "eth_getBlockByNumber" (to_block_num_arg d.encode_big none)
    ]
  ]
