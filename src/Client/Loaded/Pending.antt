-- ===== src/Client/Loaded/Pending.antt =====
-- client/client.go: the hashes that `GetLoadedTransaction` fills in, and what it loads.
use mesh_geth_sdk.Base.{
  String, ◌≡◌, refl, Bool, Bool-cases, inl, inr, some, ok, >>=-eq-ok, ok-injective, some-injective,
  map_err, map_err-eq-ok, ap, ◌∙◌, false,
}
use mesh_geth_sdk.Rosetta.{BlockIdentifier}
use mesh_geth_sdk.Geth.{Geth, Hash}
use mesh_geth_sdk.Types.Errors.{wrapped}
use mesh_geth_sdk.Client.Data.{LoadedTransaction, EthTransaction}
use mesh_geth_sdk.Client.Utils.{must_checksum, loaded_transaction}
use mesh_geth_sdk.Services.Client.{Header}
use mesh_geth_sdk.Client.Loaded.{Node, rewarded, load_mined, get_loaded_transaction}

module _ (g : Geth) (node : Node) (supports_block_author : Bool) where
  -- The author or the miner is filled in, and the hashes are kept.
  rewarded-hashes :
      (head : Header) (tx : LoadedTransaction) {tx' : LoadedTransaction}
      → rewarded g node supports_block_author head tx ≡ ok tx'
      → (tx'.block_hash ≡ tx.block_hash) × (tx'.tx_hash ≡ tx.tx_hash)
  unfolding rewarded
  rewarded-hashes head tx e = elim (Bool-cases supports_block_author) [
    | inl h ↦
        (let (author, a, e1) =
            >>=-eq-ok
              (map_err (node.block_author head.number)
                (wrapped "could not get block author for %x: "))
              _ (rw h at e) in
          let (address, b, e2) = >>=-eq-ok (must_checksum g author) _ e1 in
          rw (← ok-injective e2) (refl, refl))
    | inr h ↦
        (let (address, b, e2) = >>=-eq-ok (must_checksum g head.coinbase.hex) _ (rw h at e) in
          rw (← ok-injective e2) (refl, refl))
  ]

  -- A transaction that `GetLoadedTransaction` loads has the hash of the transaction that was asked for
  -- where the hash of its block should be, whatever block the request names.
  pub get_loaded_transaction_block_hash :
      (b : BlockIdentifier) (transaction : String) {tx : LoadedTransaction}
      → get_loaded_transaction g node supports_block_author b transaction ≡ ok (some tx)
      → tx.block_hash ≡ some (node.hex_to_hash transaction)
  unfolding get_loaded_transaction load_mined loaded_transaction
  get_loaded_transaction_block_hash b transaction e =
      let (head, h, e1) =
        >>=-eq-ok
          (map_err (node.header_by_hash (node.hex_to_hash b.hash))
            (wrapped "failure getting header: "))
          _ e in
      let (found, f, e2) =
        >>=-eq-ok
          (map_err (node.transaction_by_hash (node.hex_to_hash transaction))
            (wrapped "failure getting tx: "))
          _ e1 in
      elim (Bool-cases found.1) [
        | inl p ↦ cc (rw p at e2)
        | inr p ↦
            (let (from, s, e3) = >>=-eq-ok (node.sender found.0.0 head.base_fee) _ (rw p at e2) in
              let (loaded, l, e4) = >>=-eq-ok (rewarded g node supports_block_author head _) _ e3 in
              let same : some loaded ≡ some _ = ok-injective e4 in
              rw (← some-injective same) ((rewarded-hashes head _ l).0))
      ]

  -- A transaction that is loaded is one that the node has, and not a pending one, in a block that the node
  -- has, and it carries its hash.
  pub get_loaded_transaction-mined :
      (b : BlockIdentifier) (transaction : String) {tx : LoadedTransaction}
      → get_loaded_transaction g node supports_block_author b transaction ≡ ok (some tx)
      → (head : Header) × (found : EthTransaction × Hash) × (node.header_by_hash
            (node.hex_to_hash b.hash)
          ≡ ok head)
        × (node.transaction_by_hash (node.hex_to_hash transaction) ≡ ok (found, false))
        × (tx.tx_hash ≡ some found.1)
  unfolding get_loaded_transaction load_mined loaded_transaction
  get_loaded_transaction-mined b transaction e =
      let (head, h, e1) =
        >>=-eq-ok
          (map_err (node.header_by_hash (node.hex_to_hash b.hash))
            (wrapped "failure getting header: "))
          _ e in
      let (found, f, e2) =
        >>=-eq-ok
          (map_err (node.transaction_by_hash (node.hex_to_hash transaction))
            (wrapped "failure getting tx: "))
          _ e1 in
      let known = map_err-eq-ok (node.transaction_by_hash (node.hex_to_hash transaction)) _ f in
      elim (Bool-cases found.1) [
        | inl p ↦ cc (rw p at e2)
        | inr p ↦
            (let (from, s, e3) = >>=-eq-ok (node.sender found.0.0 head.base_fee) _ (rw p at e2) in
              let (loaded, l, e4) = >>=-eq-ok (rewarded g node supports_block_author head _) _ e3 in
              let same : some loaded ≡ some _ = ok-injective e4 in
              (
                head,
                found.0,
                map_err-eq-ok (node.header_by_hash (node.hex_to_hash b.hash)) _ h,
                known ∙ ap (λ pending. ok (found.0, pending)) p,
                rw (← some-injective same) ((rewarded-hashes head _ l).1),
              ))
      ]
