-- ===== src/Client/Rewards/Shares.antt =====
-- client/client.go: the numbers of the operations of `BlockRewardTransaction`.
pub mod Paid
use mesh_geth_sdk.Base.{
  ℕ, ◌+◌, ℤ, pos, ◌+ℤ◌, int_laws, String, ◌≡◌, refl, sym, ◌∙◌, List, [], ◌∷◌, ◌++◌, ok, arith,
  length, >>=-eq-ok, ok-injective,
}
use mesh_geth_sdk.Base.Decimal.{parse-show_ℤ}
use mesh_geth_sdk.Rosetta.{Operation, Currency, BlockIdentifier}
use mesh_geth_sdk.Geth.{Geth, Address, ReadsHex}
use mesh_geth_sdk.Types.{miner_reward_op_type, uncle_reward_op_type}
use mesh_geth_sdk.Client.Utils.{must_checksum, must_checksum-hex}
use mesh_geth_sdk.Services.Client.{Transaction, Header}
use mesh_geth_sdk.Mapper.Operations.{IsIndexed, IsIndexed-snoc, stated, total, total-append}
use mesh_geth_sdk.Client.Rewards.{
  Ethash, mining_reward, miner_share, uncle_share, reward_op, uncle_ops, block_reward_transaction,
}

index-reward_op :
    (c : Currency) (n : ℕ) (type address : String) (v : ℤ)
    → (reward_op c n type address v).index ≡ n
unfolding reward_op
index-reward_op c n type address v = refl

module _ (g : Geth) (currency : Currency) (index reward : ℕ) where
  uncle_ops-IsIndexed :
      (bs : List Header) (ops : List Operation) {ops' : List Operation}
      → IsIndexed 0 ops
      → uncle_ops g currency index reward bs ops ≡ ok ops'
      → IsIndexed 0 ops'
  unfolding uncle_ops
  uncle_ops-IsIndexed [] ops h e = rw (← ok-injective e) h
  uncle_ops-IsIndexed (b ∷ bs) ops h e =
      let (address, read, e1) = >>=-eq-ok (must_checksum g b.coinbase.hex) _ e in
      let none_before : 0 + length ops ≡ length ops = omega arith in
      uncle_ops-IsIndexed bs _
        (IsIndexed-snoc 0 ops
          (reward_op currency (length ops) uncle_reward_op_type address
            (uncle_share index reward b.number))
          h (index-reward_op currency (length ops) _ _ _ ∙ sym none_before))
        e1

-- The operations of the reward transaction count up from zero.
pub block_reward_transaction-IsIndexed :
    (g : Geth) (e : Ethash) (currency : Currency) (b : BlockIdentifier) (miner : String)
    (uncles : List Header) {t : Transaction}
    → block_reward_transaction g e currency b miner uncles ≡ ok t
    → IsIndexed 0 t.operations
unfolding block_reward_transaction
block_reward_transaction-IsIndexed g e currency b miner uncles done =
    let (address, read, e1) = >>=-eq-ok (must_checksum g miner) _ done in
    let reward = mining_reward e b.index in
    let op =
      reward_op currency 0 miner_reward_op_type address (miner_share reward (length uncles)) in
    let (ops, made, e2) = >>=-eq-ok (uncle_ops g currency b.index reward uncles (op ∷ [])) _ e1 in
    rw (← ok-injective e2) (
      uncle_ops-IsIndexed g currency b.index reward uncles (op ∷ [])
        (index-reward_op currency 0 _ _ _, tt) made)
