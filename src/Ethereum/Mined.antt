-- ===== src/Ethereum/Mined.antt =====
-- `BlockTransaction` of services/block_service.go with the client of examples/ethereum/client/client.go.
use mesh_geth_sdk.Base.{
  String, ℤ, List, ◌==◌, Bool-cases, inl, inr, false, ◌≡◌, refl, sym, ap, ◌∙◌, Option, none, some,
  ok, err, crash, Result, >>=-eq-ok, ok-injective, map_err, map_err-eq-ok, or_crash, or_crash-eq-ok,
  some-injective, if◌then◌else◌,
}
use mesh_geth_sdk.Rosetta.{BlockIdentifier, Error}
use mesh_geth_sdk.Types.Errors.{GoError}
use mesh_geth_sdk.Geth.{Geth, Hash}
use mesh_geth_sdk.Configuration.{Configuration, is_offline_mode, open_ethereum_trace}
use mesh_geth_sdk.Client.Data.{LoadedTransaction, EthTransaction, FlatCall}
use mesh_geth_sdk.Client.Loaded.Pending.{get_loaded_transaction-mined}
use mesh_geth_sdk.Client.Sdk.{Library, SdkClient, sdk_client}
use mesh_geth_sdk.Client.Defaults.{block_author}
use mesh_geth_sdk.Services.Client.{Client, Header, Transaction}
use mesh_geth_sdk.Services.Block.Cache.{Cache, get_currency_from_node_or_cache}
use mesh_geth_sdk.Services.Block.Populate.{Codec, populate_transaction}
use mesh_geth_sdk.Services.Block.Fetch.{Decoder}
use mesh_geth_sdk.Services.Block.Endpoint.{
  internal, burn, with_burned, trace_one, load_one, finish_one, block_transaction,
}
use mesh_geth_sdk.Services.Block.Numbered.{
  Mirrors, populate_with-Mirrors, Extends-IsIndexed, hash_text,
}
use mesh_geth_sdk.Services.Block.Complete.{IsNumbered}
use mesh_geth_sdk.Ethereum.Client.{Receipts, ethereum_client}
use mesh_geth_sdk.Ethereum.Parsed.{parse_ops-IsIndexed}

tx_hash-burn :
    (fee base_fee : Option ℤ) (tx : LoadedTransaction) {tx' : LoadedTransaction}
    → burn {E = Error} fee base_fee tx ≡ ok tx'
    → tx'.tx_hash ≡ tx.tx_hash
unfolding burn
tx_hash-burn fee none tx e = rw (← ok-injective e) refl
tx_hash-burn fee (some base) tx e =
    let (receipt, r, e1) = >>=-eq-ok (or_crash tx.receipt) _ e in
    let (gas_used, u, e2) = >>=-eq-ok (or_crash receipt.gas_used) _ e1 in
    rw (← ok-injective e2) refl

module _ {Store : Type 0} (cache : Cache Store) (g : Geth) (config : Configuration) (c : Client)
    (d : Decoder) (codec : Codec) (block_hash : Header → Hash) where
  -- The question for the trace of one transaction
  abbrev asked_trace : Hash → Result GoError (String × List FlatCall)
  asked_trace hash =
      if c.rosetta_config.trace_type == open_ethereum_trace
      then c.trace_replay_transaction hash.hex
      else c.trace_transaction hash

  tx_hash-trace_one :
      (tx : LoadedTransaction) {tx' : LoadedTransaction}
      → trace_one cache g config c d codec block_hash tx ≡ ok tx'
      → tx'.tx_hash ≡ tx.tx_hash
  unfolding trace_one with_burned
  tx_hash-trace_one tx e =
      let (hash, h, e1) = >>=-eq-ok (or_crash tx.tx_hash) _ e in
      let (answered, a, e2) =
        >>=-eq-ok (map_err (asked_trace hash) (internal "unable to get tx trace: ")) _ e1 in
      let traced = record tx { trace = answered.1; raw_trace = some answered.0 } in
      let (receipt, r, e3) =
        >>=-eq-ok
          (map_err (c.get_transaction_receipt traced) (internal "unable to get tx receipt: ")) _
          e2 in
      tx_hash-burn none tx.base_fee
        (record traced { receipt = some receipt; fee_amount = receipt.transaction_fee }) e3

  finish_one-Mirrors :
      (r : Result Error LoadedTransaction) (s : Store) {t : Transaction}
      → (finish_one cache g config c d codec block_hash r s).0 ≡ ok t
      → (tx : LoadedTransaction) × (r ≡ ok tx) × Mirrors c tx t
  unfolding finish_one populate_transaction
  finish_one-Mirrors (err x) s e = cc
  finish_one-Mirrors crash s e = cc
  finish_one-Mirrors (ok tx) s {t} e =
      let fetch = get_currency_from_node_or_cache cache c in
      (
        tx,
        refl,
        populate_with-Mirrors g config c fetch codec tx s t
            (map_err-eq-ok (populate_transaction cache g config c codec tx s).0 _ e),
      )

  -- What `BlockTransaction` answers is made of a transaction that the chain's client has loaded.
  block_transaction-Mirrors :
      (b : BlockIdentifier) (transaction : String) (s : Store) {t : Transaction}
      → (block_transaction cache g config c d codec block_hash (some b) transaction s).0 ≡ ok t
      → (is_offline_mode config ≡ false)
        × ((tx : LoadedTransaction) × (traced : LoadedTransaction) × (c.get_loaded_transaction b
                transaction
              ≡ ok (some tx))
            × (traced.tx_hash ≡ tx.tx_hash)
            × Mirrors c traced t)
  unfolding block_transaction load_one
  block_transaction-Mirrors b transaction s e = elim (Bool-cases (is_offline_mode config)) [
    | inl offline ↦ cc (rw offline at e)
    | inr online ↦
        (let (traced, h, mirrors) =
            finish_one-Mirrors (load_one cache g config c d codec block_hash b transaction) s
              (rw online at e) in
          let (loaded, l, e1) =
            >>=-eq-ok
              (map_err (c.get_loaded_transaction b transaction)
                (internal "unable to get loaded tx: "))
              _ h in
          let (tx, known, e2) = >>=-eq-ok (or_crash loaded) _ e1 in
          (
            online,
            (
              tx,
              traced,
              map_err-eq-ok (c.get_loaded_transaction b transaction) _ l
                  ∙ ap ok (or_crash-eq-ok loaded known),
              tx_hash-trace_one tx e2,
              mirrors,
            ),
          ))
  ]

-- Where `BlockTransaction` answers with the Ethereum client, the server is online, and the node has the block
-- and has the transaction, mined and not pending; the answer carries the hash of that transaction, and its
-- operations count up from zero.
pub block_transaction-ethereum_client :
    {Store : Type 0} (cache : Cache Store) (config : Configuration) (lib : Library)
    (receipts : Receipts) (ec : SdkClient) (d : Decoder) (codec : Codec)
    (block_hash : Header → Hash) (b : BlockIdentifier) (transaction : String) (s : Store)
    {t : Transaction}
    → (block_transaction cache lib.geth config
        (ethereum_client lib receipts ec)
        d
        codec
        block_hash
        (some b)
        transaction
        s).0
      ≡ ok t
    → (is_offline_mode config ≡ false)
      × ((head : Header) × (found : EthTransaction × Hash) × (ec.eth_client.node.header_by_hash
              (ec.eth_client.node.hex_to_hash b.hash)
            ≡ ok head)
          × (ec.eth_client.node.transaction_by_hash (ec.eth_client.node.hex_to_hash transaction)
              ≡ ok (found, false))
          × (t.hash ≡ found.1.hex)
          × IsNumbered t)
unfolding ethereum_client sdk_client
block_transaction-ethereum_client cache config lib receipts ec d codec block_hash b transaction s
      {t} e =
    let (online, (tx, traced, loaded, same, (hash, (parsed, p, extends)))) =
      block_transaction-Mirrors cache lib.geth config (ethereum_client lib receipts ec) d codec
        block_hash b transaction s e in
    let (head, found, h, f, carried) =
      get_loaded_transaction-mined lib.geth
        (record ec.eth_client.node { block_author = block_author })
        ec.rosetta_config.supports_block_author b transaction loaded in
    let its_hash : some found.1.hex ≡ some t.hash = sym (ap hash_text (same ∙ carried)) ∙ hash in
    (
      online,
      (
        head,
        found,
        h,
        f,
        sym (some-injective its_hash),
        Extends-IsIndexed parsed t.operations
            (parse_ops-IsIndexed lib.geth receipts.order traced parsed p) extends,
      ),
    )
