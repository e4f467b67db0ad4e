-- ===== src/Client/Rewards/Shares/Paid.antt =====
-- client/client.go: what `BlockRewardTransaction` pays, and to whom, under the rewards of Ethereum.
use mesh_geth_sdk.Base.{
  ℕ, ◌+◌, ◌*◌, ◌/◌, ◌==◌, ℤ, pos, ◌-ℤ◌, ◌*ℤ◌, String, if◌then◌else◌, ◌≡◌, some, List, [], ◌∷◌,
}
use mesh_geth_sdk.Rosetta.{Operation}
use mesh_geth_sdk.Geth.{Geth}
use mesh_geth_sdk.Services.Client.{Header}
use mesh_geth_sdk.Mapper.Operations.{stated}
use mesh_geth_sdk.Client.Rewards.{Ethash, miner_share}

-- 10^18 wei
abbrev ether : ℕ
ether = 1000000000000000000

-- The rewards of Ethereum, in ether: the documented constants of go-ethereum's ethash
abbrev pub IsEthereum : Ethash → Type 0
IsEthereum e =
    (e.frontier ≡ 5000000000000000000)
    × (e.byzantium ≡ 3000000000000000000)
    × (e.constantinople ≡ 2000000000000000000)

-- The ethers that are paid for a block: none for the genesis, then five, three and two.
abbrev pub ethers : Ethash → ℕ → ℕ
ethers e block =
    if block == 0
    then 0
    else if e.is_constantinople block
    then 2
    else if e.is_byzantium block
    then 3
    else 5

abbrev pub block_reward : Ethash → ℕ → ℕ
block_reward e block = ethers e block * ether

-- A 32nd of the reward is a multiple of 2^13 * 5^18, so that nothing is rounded.
abbrev Exact : ℕ → Type 0
Exact reward =
    (miner_share reward 0 ≡ pos reward)
    × (miner_share reward 1 ≡ pos (reward + reward / 32))
    × (miner_share reward 2 ≡ pos (reward + 2 * reward / 32))

-- An operation adds this many wei to the account.
abbrev pub Pays : String → ℤ → Operation → Type 0
Pays address value op = (op.account ≡ some address) × (stated op.amount ≡ value)

-- Each operation pays the miner of one uncle, in order: eight blocks less the distance, in eighths of the
-- reward.
abbrev pub PaysUncles : ℕ → ℕ → List Header → List Operation → Type 0
PaysUncles index reward [] [] = Unit
PaysUncles index reward [] (op ∷ ops) = ⊥
PaysUncles index reward (u ∷ us) [] = ⊥
PaysUncles index reward (u ∷ us) (op ∷ ops) =
    Pays u.coinbase.hex ((pos (u.number + 8) -ℤ pos index) *ℤ pos (reward / 8)) op
    × PaysUncles index reward us ops
