-- ===== src/Services/Block/Results.antt =====
-- services/block_service.go: the answers of `Block` and `BlockTransaction`.
use mesh_geth_sdk.Base.{
  suc, ◌+◌, ◌==◌, ==_iff, ℤ, ◌*ℤ◌, ◌≡◌, refl, ap, false, Bool-cases, ◌⊎◌, inl, inr, Option, none,
  some, List, [], ◌∷◌, if◌then◌else◌, Result, ok, err, crash, ◌>>=◌, >>=-eq-ok, ok-injective,
  map_err, or_crash, or_crash-eq-ok, arith, All, length,
}
use mesh_geth_sdk.Rosetta.{BlockIdentifier, PartialBlockIdentifier, Error}
use mesh_geth_sdk.Geth.{Geth, Hash}
use mesh_geth_sdk.Types.Errors.{GoError, is_block_orphaned, wrap_err, err_unavailable_offline}
use mesh_geth_sdk.Configuration.{Configuration, is_offline_mode}
use mesh_geth_sdk.Client.Data.{RosettaTxReceipt, LoadedTransaction}
use mesh_geth_sdk.Services.Client.{Client, Transaction, Header}
use mesh_geth_sdk.Services.Block.Cache.{Cache}
use mesh_geth_sdk.Services.Block.Populate.{Codec, populate_transactions}
use mesh_geth_sdk.Services.Block.Fetch.{Decoder, get_eth_block}
use mesh_geth_sdk.Services.Block.Endpoint.{
  Block, block_error, with_receipt, burn, with_burned, with_fees, parent_identifier, Prepared,
  prepare, respond, finish, block,
}

-- The burned part is gas used times base fee, where the transaction has a base fee.
abbrev pub BurnsGas : LoadedTransaction → Type 0
BurnsGas tx = elim tx.base_fee [
  | none ↦ Unit
  | some fee ↦
      (r : RosettaTxReceipt) × (gas : ℤ) × (tx.receipt ≡ some r)
      × (r.gas_used ≡ some gas)
      × (tx.fee_burned ≡ some (gas *ℤ fee))
]

burn-BurnsGas :
    {E : Type 0} (base_fee o : Option ℤ) (tx : LoadedTransaction) {tx' : LoadedTransaction}
    → tx.base_fee ≡ o
    → burn {E = E} base_fee o tx ≡ ok tx'
    → BurnsGas tx'
unfolding burn
burn-BurnsGas base_fee none tx b e = rw (← ok-injective e, b) tt
burn-BurnsGas base_fee (some fee) tx b e =
    let (r, h, e1) = >>=-eq-ok (or_crash tx.receipt) _ e in
    let (gas, k, e2) = >>=-eq-ok (or_crash r.gas_used) _ e1 in
    rw (← ok-injective e2, b)
      (r, gas, or_crash-eq-ok tx.receipt h, or_crash-eq-ok r.gas_used k, refl)

with_burned-BurnsGas :
    {E : Type 0} (base_fee : Option ℤ) (tx : LoadedTransaction) {tx' : LoadedTransaction}
    → with_burned {E = E} base_fee tx ≡ ok tx'
    → BurnsGas tx'
unfolding with_burned
with_burned-BurnsGas base_fee tx e = burn-BurnsGas base_fee tx.base_fee tx refl e

-- Of every transaction that comes out of the loop over the fees and has a base fee, the burned part
-- of the fee is the gas used in its receipt times the base fee; and none is lost.
pub with_fees-BurnsGas :
    {E : Type 0} (base_fee : Option ℤ) (receipts : Option (List (Option RosettaTxReceipt)))
    (txs : List LoadedTransaction) {txs' : List LoadedTransaction}
    → with_fees {E = E} base_fee receipts txs ≡ ok txs'
    → All BurnsGas txs' × (length txs' ≡ length txs)
unfolding with_fees
with_fees-BurnsGas base_fee receipts [] e = rw (← ok-injective e) (tt, refl)
with_fees-BurnsGas base_fee none (tx ∷ txs) e =
    let (tx', h, e1) = >>=-eq-ok (with_burned base_fee tx) _ e in
    let (txs', k, e2) = >>=-eq-ok (with_fees base_fee none txs) _ e1 in
    let (burns, same) = with_fees-BurnsGas base_fee none txs k in
    rw (← ok-injective e2) ((with_burned-BurnsGas base_fee tx h, burns), ap suc same)
with_fees-BurnsGas base_fee (some []) (tx ∷ txs) e = cc
with_fees-BurnsGas base_fee (some (r ∷ rs)) (tx ∷ txs) e =
    let (received, g, e0) = >>=-eq-ok (with_receipt (some r) tx) _ e in
    let (tx', h, e1) = >>=-eq-ok (with_burned base_fee received) _ e0 in
    let (txs', k, e2) = >>=-eq-ok (with_fees base_fee (some rs) txs) _ e1 in
    let (burns, same) = with_fees-BurnsGas base_fee (some rs) txs k in
    rw (← ok-injective e2) ((with_burned-BurnsGas base_fee received h, burns), ap suc same)

code-block_error : (e : GoError) → (block_error e).code ≡ (if is_block_orphaned e then 11 else 2)
unfolding block_error wrap_err
code-block_error e = elim (Bool-cases (is_block_orphaned e)) [
  | inl h ↦ rw h refl
  | inr h ↦ rw h refl
]

retriable-block_error : (e : GoError) → (block_error e).retriable ≡ is_block_orphaned e
unfolding block_error wrap_err
retriable-block_error e = elim (Bool-cases (is_block_orphaned e)) [
  | inl h ↦ rw h refl
  | inr h ↦ rw h refl
]

-- The first block is its own parent; of every other one, the parent is the block before.
abbrev pub Follows : BlockIdentifier → BlockIdentifier → Type 0
Follows b parent = ((b.index ≡ 0) × (parent ≡ b)) ⊎ (b.index ≡ parent.index + 1)

parent_identifier-Follows :
    (b : BlockIdentifier) (head : Header) → Follows b (parent_identifier b head)
unfolding parent_identifier
parent_identifier-Follows b head = elim (Bool-cases (b.index == 0)) [
  | inl h ↦ rw h (inl ((==_iff b.index 0).0 h, refl))
  | inr h ↦ rw h (inr (ground arith))
]

module _ {Store : Type 0} (cache : Cache Store) (g : Geth) (config : Configuration) (c : Client)
    (d : Decoder) (codec : Codec) (block_hash : Header → Hash) where
  -- Where the block cannot be had from the node, `Block` answers with an error, and leaves the cache
  -- as it is. A server that is offline answers with code 1; another one with code 11, which may be
  -- retried, if the block is orphaned, however deep that error is wrapped, and with code 2, which may
  -- not, otherwise.
  pub block_fails :
      (identifier : Option PartialBlockIdentifier) (s : Store) {e : GoError}
      → get_eth_block g config c d identifier ≡ err e
      → (answer : Error) × (block cache g config c d codec block_hash identifier s
          ≡ (err answer, s))
        × (answer.code
            ≡ (if is_offline_mode config then 1 else if is_block_orphaned e then 11 else 2))
        × (answer.retriable ≡ (if is_offline_mode config then false else is_block_orphaned e))
  unfolding block finish
  block_fails identifier s {e} h = elim (Bool-cases (is_offline_mode config)) [
    | inl off ↦ (err_unavailable_offline, rw off refl, rw off refl, rw off refl)
    | inr on ↦ (
      block_error e,
      rw (on, h) refl,
      rw on (code-block_error e),
      rw on (retriable-block_error e),
    )
  ]

  respond-Follows :
      (p : Prepared) (r : Result GoError (List Transaction)) {b : Block}
      → respond cache g config c d codec block_hash p r ≡ ok b
      → Follows b.block_identifier b.parent_block_identifier
  unfolding respond
  respond-Follows p (err x) e = cc
  respond-Follows p crash e = cc
  respond-Follows p (ok transactions) e =
      rw (← ok-injective e) (parent_identifier-Follows p.identifier p.eth_block.header)

  finish-Follows :
      (r : Result Error Prepared) (s : Store) {b : Block}
      → (finish cache g config c d codec block_hash r s).0 ≡ ok b
      → Follows b.block_identifier b.parent_block_identifier
  unfolding finish
  finish-Follows (err x) s e = cc
  finish-Follows crash s e = cc
  finish-Follows (ok p) s e =
      respond-Follows p
        (populate_transactions cache g config c codec p.identifier p.eth_block p.loaded s).0 e

  -- Of a block that `Block` answers with, the parent has the index before; the first block is its own
  -- parent.
  pub block-Follows :
      (identifier : Option PartialBlockIdentifier) (s : Store) {b : Block}
      → (block cache g config c d codec block_hash identifier s).0 ≡ ok b
      → Follows b.block_identifier b.parent_block_identifier
  unfolding block
  block-Follows identifier s e = elim (Bool-cases (is_offline_mode config)) [
    | inl off ↦ cc (rw off at e)
    | inr on ↦
        finish-Follows
          (map_err (get_eth_block g config c d identifier) block_error
            >>= prepare cache g config c d codec block_hash)
          s (rw on at e)
  ]
