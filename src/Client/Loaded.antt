-- ===== src/Client/Loaded.antt =====
-- `GetLoadedTransaction` of client/client.go.
pub mod Pending
use mesh_geth_sdk.Base.{
  ℕ, ℤ, String, Bool, true, false, Option, none, some, if◌then◌else◌, Result, ok, err, crash, ◌>>=◌,
  map_err,
}
use mesh_geth_sdk.Rosetta.{BlockIdentifier}
use mesh_geth_sdk.Geth.{Geth, Address, Hash}
use mesh_geth_sdk.Types.Errors.{GoError, wrapped}
use mesh_geth_sdk.Client.Data.{EthTransaction, TxExtraInfo, RpcTransaction, LoadedTransaction}
use mesh_geth_sdk.Client.Utils.{must_checksum, loaded_transaction}
use mesh_geth_sdk.Services.Client.{Header}

-- What the node and go-ethereum answer: `HeaderByHash`, `TransactionByHash` (with the hash of the
-- transaction that comes back, and whether it is pending), the sender that `TransactionToMessage`
-- finds, the `BlockAuthor` that the SDK client calls, and the text of a block number.
pub record Node : Type 0 where
  pub hex_to_hash : String → Hash
  pub header_by_hash : Hash → Result GoError Header
  pub transaction_by_hash : Hash → Result GoError ((EthTransaction × Hash) × Bool)
  pub sender : EthTransaction → Option ℤ → Result GoError Address
  pub block_author : ℕ → Result GoError String
  pub show_number : ℕ → String

module _ (g : Geth) (node : Node) (supports_block_author : Bool) where
  -- The author or the miner.
  unfoldable pub rewarded : Header → LoadedTransaction → Result GoError LoadedTransaction
  rewarded head tx =
      if supports_block_author
      then (do
        author ←
            map_err (node.block_author head.number) (wrapped "could not get block author for %x: ")
        address ← must_checksum g author
        ok (record tx { author = address }))
      else (do address ← must_checksum g head.coinbase.hex; ok (record tx { miner = address }))

  -- What is done where the transaction is in a block. `BlockHash` is given the hash that was asked for.
  unfoldable pub load_mined :
      Header → Hash → EthTransaction × Hash → Result GoError (Option LoadedTransaction)
  load_mined head hash (tx, tx_hash) = do
    from ← node.sender tx head.base_fee
    loaded ←
        rewarded head
          (record (loaded_transaction (record {
            tx = tx;
            info = record {
              block_number = some (node.show_number head.number);
              block_hash = some hash;
              from = some from;
              tx_hash = some tx_hash;
              mint = "";
            };
          })) { base_fee = head.base_fee })
    ok (some loaded)

  -- `GetLoadedTransaction`: nil, and no error, for a pending transaction.
  unfoldable pub get_loaded_transaction :
      BlockIdentifier → String → Result GoError (Option LoadedTransaction)
  get_loaded_transaction b transaction = do
    head ←
        map_err (node.header_by_hash (node.hex_to_hash b.hash)) (wrapped "failure getting header: ")
    found ←
        map_err (node.transaction_by_hash (node.hex_to_hash transaction))
          (wrapped "failure getting tx: ")
    if found.1 then ok none else load_mined head (node.hex_to_hash transaction) found.0
