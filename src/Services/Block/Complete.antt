-- ===== src/Services/Block/Complete.antt =====
-- services/block_service.go: the transactions in the answer of `Block`, rewards and those of other chains
-- included.
use mesh_geth_sdk.Base.{
  String, ◌≡◌, refl, Bool-cases, inl, inr, Option, List, [], ◌∷◌, ◌++◌, Result, ok, err, crash,
  >>=-eq-ok, ok-injective, map_err, map_err-eq-ok, All, All-append,
}
use mesh_geth_sdk.Rosetta.{Operation, BlockIdentifier, PartialBlockIdentifier, Error}
use mesh_geth_sdk.Geth.{Geth, Hash}
use mesh_geth_sdk.Types.Errors.{GoError}
use mesh_geth_sdk.Configuration.{Configuration, is_offline_mode}
use mesh_geth_sdk.Client.Data.{LoadedTransaction}
use mesh_geth_sdk.Services.Client.{Client, Transaction, Header, EthBlock}
use mesh_geth_sdk.Mapper.Operations.{IsIndexed}
use mesh_geth_sdk.Services.Block.Cache.{Cache, lift, get_currency_from_node_or_cache}
use mesh_geth_sdk.Services.Block.Populate.{
  Codec, reward_transactions, populate_all, populate_transactions,
}
use mesh_geth_sdk.Services.Block.Fetch.{Decoder, Fetched, get_eth_block}
use mesh_geth_sdk.Services.Block.Endpoint.{
  Block, block_error, with_fees, Prepared, prepare, respond, finish, block,
}
use mesh_geth_sdk.Services.Block.Numbered.{
  Gives, Gives-bind, Gives-lift, Gives-if, AllMirror, Extends-IsIndexed, kept, populate_all-Mirrors,
}

abbrev pub IsNumbered : Transaction → Type 0
IsNumbered t = IsIndexed 0 t.operations

-- What a chain numbers itself.
pub record Numbers (c : Client) : Type 0 where
  pub parses :
      (tx : LoadedTransaction) (ops : List Operation) → c.parse_ops tx ≡ ok ops → IsIndexed 0 ops
  pub rewards :
      (b : BlockIdentifier) (miner : String) (uncles : List Header) (t : Transaction)
      → c.block_reward_transaction b miner uncles ≡ ok t
      → IsNumbered t
  pub crosses :
      (b : EthBlock) (loaded : List LoadedTransaction)
      (r : List Transaction × List LoadedTransaction)
      → c.populate_cross_chain_transactions b loaded ≡ ok r
      → All IsNumbered r.0

AllMirror-IsNumbered :
    (c : Client)
    → Numbers c
    → (txs : List LoadedTransaction) (ts : List Transaction) → AllMirror c txs ts
    → All IsNumbered ts
AllMirror-IsNumbered c numbers [] ts h = rw h tt
AllMirror-IsNumbered c numbers (tx ∷ txs) ts (t, rest, made, (same, (parsed, e, extends)), others) =
    rw made (
      Extends-IsIndexed parsed t.operations (numbers.parses tx parsed e) extends,
      AllMirror-IsNumbered c numbers txs rest others,
    )

module _ {Store : Type 0} (cache : Cache Store) (g : Geth) (config : Configuration) (c : Client)
    (numbers : Numbers c) (d : Decoder) (codec : Codec) (block_hash : Header → Hash) where
  reward_transactions-Gives :
      (identifier : BlockIdentifier) (b : EthBlock)
      → Gives {Store = Store} (All IsNumbered) (reward_transactions c identifier b)
  unfolding reward_transactions
  reward_transactions-Gives identifier b =
      Gives-if (λ _. All IsNumbered) c.rosetta_config.support_reward_tx tt tt _ _
        (Gives-bind IsNumbered (All IsNumbered)
          (lift (c.block_reward_transaction identifier b.header.coinbase.hex b.uncles)) _
          (Gives-lift IsNumbered _ (λ t e. numbers.rewards identifier _ _ t e))
          (λ t h. Gives-lift (All IsNumbered) (ok (t ∷ [])) (λ a e. rw (← ok-injective e) (h, tt))))
        (Gives-lift (All IsNumbered) (ok []) (λ a e. rw (← ok-injective e) tt))

  populate_transactions-Gives :
      (identifier : BlockIdentifier) (b : EthBlock) (loaded : List LoadedTransaction)
      → Gives (All IsNumbered) (populate_transactions cache g config c codec identifier b loaded)
  unfolding populate_transactions
  populate_transactions-Gives identifier b loaded =
      Gives-bind (All IsNumbered) (All IsNumbered) (reward_transactions c identifier b) _
        (reward_transactions-Gives identifier b)
        λ rewards h.
          Gives-bind (AllMirror c (kept loaded)) (All IsNumbered)
            (populate_all g config c (get_currency_from_node_or_cache cache c) codec loaded) _
            (populate_all-Mirrors g config c (get_currency_from_node_or_cache cache c) codec loaded)
            λ populated k. Gives-lift (All IsNumbered) (ok (rewards ++ populated)) (λ a e.
              rw (← ok-injective e) (
                All-append IsNumbered rewards populated h
                  (AllMirror-IsNumbered c numbers (kept loaded) populated k)))

  prepare-IsNumbered :
      (f : Fetched) {p : Prepared}
      → prepare cache g config c d codec block_hash f ≡ ok p
      → All IsNumbered p.cross
  unfolding prepare
  prepare-IsNumbered f e =
      let (receipts, h1, e1) = >>=-eq-ok (map_err (c.get_block_receipts _ _ _) _) _ e in
      let (loaded, h2, e2) = >>=-eq-ok (with_fees _ receipts f.loaded) _ e1 in
      let (hash, h3, e3) = >>=-eq-ok (map_err (c.get_block_hash _) _) _ e2 in
      let (cross, h4, e4) =
        >>=-eq-ok (map_err (c.populate_cross_chain_transactions f.block loaded) _) _ e3 in
      rw (← ok-injective e4) (
        numbers.crosses f.block loaded cross
          (map_err-eq-ok (c.populate_cross_chain_transactions f.block loaded) _ h4))

  respond-IsNumbered :
      (p : Prepared) (r : Result GoError (List Transaction)) {b : Block}
      → All IsNumbered p.cross
      → ((ts : List Transaction) → r ≡ ok ts → All IsNumbered ts)
      → respond cache g config c d codec block_hash p r ≡ ok b
      → All IsNumbered b.transactions
  unfolding respond
  respond-IsNumbered p (err x) crosses h e = cc
  respond-IsNumbered p crash crosses h e = cc
  respond-IsNumbered p (ok ts) crosses h e =
      rw (← ok-injective e) (All-append IsNumbered ts p.cross (h ts refl) crosses)

  finish-IsNumbered :
      (r : Result Error Prepared) (s : Store) {b : Block}
      → ((p : Prepared) → r ≡ ok p → All IsNumbered p.cross)
      → (finish cache g config c d codec block_hash r s).0 ≡ ok b
      → All IsNumbered b.transactions
  unfolding finish
  finish-IsNumbered (err x) s h e = cc
  finish-IsNumbered crash s h e = cc
  finish-IsNumbered (ok p) s h e =
      respond-IsNumbered p
        (populate_transactions cache g config c codec p.identifier p.eth_block p.loaded s).0
        (h p refl) (λ ts k. populate_transactions-Gives p.identifier p.eth_block p.loaded s ts k) e

  -- The operations of every transaction in the answer of `Block` count up from zero.
  pub block-IsNumbered :
      (identifier : Option PartialBlockIdentifier) (s : Store) {b : Block}
      → (block cache g config c d codec block_hash identifier s).0 ≡ ok b
      → All IsNumbered b.transactions
  unfolding block
  block-IsNumbered identifier s e = elim (Bool-cases (is_offline_mode config)) [
    | inl offline ↦ cc (rw offline at e)
    | inr online ↦
        finish-IsNumbered _ s
          (λ p made.
            (let (fetched, h, made') =
                >>=-eq-ok (map_err (get_eth_block g config c d identifier) block_error) _ made in
              prepare-IsNumbered fetched made'))
          (rw online at e)
  ]
