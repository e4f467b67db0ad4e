-- ===== src/Client/Sdk/Author.antt =====
-- client/client.go: `GetLoadedTransaction` of a chain that overrides `BlockAuthor`.
use mesh_geth_sdk.Base.{
  ℕ, String, ◌≡◌, true, false, Bool-cases, inl, inr, some, Result, ok, >>=-eq-ok, map_err,
  map_err-eq-ok,
}
use mesh_geth_sdk.Rosetta.{BlockIdentifier}
use mesh_geth_sdk.Geth.{Geth}
use mesh_geth_sdk.Types.Errors.{GoError, wrapped}
use mesh_geth_sdk.Client.Data.{LoadedTransaction}
use mesh_geth_sdk.Services.Client.{Header}
use mesh_geth_sdk.Client.Loaded.{Node, rewarded, load_mined, get_loaded_transaction}
use mesh_geth_sdk.Client.Defaults.{block_author}
use mesh_geth_sdk.Client.Sdk.{Library, SdkClient, sdk_client}

module _ (g : Geth) (node : Node) where
  rewarded-author :
      (head : Header) (tx : LoadedTransaction) {tx' : LoadedTransaction}
      → rewarded g node true head tx ≡ ok tx'
      → (author : String) × (node.block_author head.number ≡ ok author)
  unfolding rewarded
  rewarded-author head tx e =
      let (author, a, rest) =
        >>=-eq-ok
          (map_err (node.block_author head.number) (wrapped "could not get block author for %x: "))
          _ e in
      (author, map_err-eq-ok (node.block_author head.number) _ a)

  -- The author of a block is asked for with every transaction that is in one.
  get_loaded_transaction-author :
      (b : BlockIdentifier) (transaction : String) {tx : LoadedTransaction}
      → get_loaded_transaction g node true b transaction ≡ ok (some tx)
      → (number : ℕ) × (author : String) × (node.block_author number ≡ ok author)
  unfolding get_loaded_transaction load_mined
  get_loaded_transaction-author b transaction e =
      let (head, h, e1) =
        >>=-eq-ok
          (map_err (node.header_by_hash (node.hex_to_hash b.hash))
            (wrapped "failure getting header: "))
          _ e in
      let (found, f, e2) =
        >>=-eq-ok
          (map_err (node.transaction_by_hash (node.hex_to_hash transaction))
            (wrapped "failure getting tx: "))
          _ e1 in
      elim (Bool-cases found.1) [
        | inl p ↦ cc (rw p at e2)
        | inr p ↦
            (let (from, s, e3) = >>=-eq-ok (node.sender found.0.0 head.base_fee) _ (rw p at e2) in
              let (loaded, l, e4) = >>=-eq-ok (rewarded g node true head _) _ e3 in
              let (author, a) = rewarded-author head _ l in (head.number, author, a))
      ]

-- A client that embeds the SDK client, with a BlockAuthor of its own, loads a transaction of a block only
-- where authors of blocks are not supported: GetLoadedTransaction does not call the BlockAuthor of the
-- chain.
pub get_loaded_transaction_without_author :
    (lib : Library) (ec : SdkClient) (chain_author : ℕ → Result GoError String)
    (b : BlockIdentifier) (transaction : String) {tx : LoadedTransaction}
    → (record (sdk_client lib ec) { block_author = chain_author }).get_loaded_transaction b
        transaction
      ≡ ok (some tx)
    → ec.rosetta_config.supports_block_author ≡ false
unfolding sdk_client block_author
get_loaded_transaction_without_author lib ec chain_author b transaction e =
    elim (Bool-cases ec.rosetta_config.supports_block_author) [
      | inl supported ↦
          (let (number, author, a) =
              get_loaded_transaction-author lib.geth
                (record ec.eth_client.node { block_author = block_author }) b transaction
                (rw supported at e) in
            cc a)
      | inr not_supported ↦ not_supported
    ]
