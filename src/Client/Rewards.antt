-- ===== src/Client/Rewards.antt =====
-- `miningReward` and `BlockRewardTransaction` of client/client.go.
pub mod Shares
use mesh_geth_sdk.Base.{
  ℕ, zero, suc, ◌+◌, ◌-◌, ◌*◌, ◌/◌, ◌%◌, ◌^◌, ltb, ◌==◌, ◌&&◌, ◌||◌, ℤ, pos, ◌-ℤ◌, ◌*ℤ◌, to_int64,
  String, Bool, List, [], ◌∷◌, ◌++◌, some, if◌then◌else◌, Result, ok, ◌>>=◌, length,
}
use mesh_geth_sdk.Base.Decimal.{show_ℤ}
use mesh_geth_sdk.Rosetta.{Operation, Currency, BlockIdentifier}
use mesh_geth_sdk.Geth.{Geth}
use mesh_geth_sdk.Types.{
  miner_reward_op_type, uncle_reward_op_type, success_status, uncles_reward_multiplier,
  max_uncle_depth,
}
use mesh_geth_sdk.Types.Errors.{GoError}
use mesh_geth_sdk.Client.Utils.{must_checksum}
use mesh_geth_sdk.Services.Client.{Transaction, Header}

-- The rewards of go-ethereum's `ethash`, which fit an int64, and the forks of the chain's
-- `ChainConfig`.
pub record Ethash : Type 0 where
  pub frontier : ℕ
  pub byzantium : ℕ
  pub constantinople : ℕ
  pub is_byzantium : ℕ → Bool
  pub is_constantinople : ℕ → Bool

-- `miningReward`
unfoldable pub mining_reward : Ethash → ℕ → ℕ
mining_reward e block =
    if block == 0
    then 0
    else if e.is_constantinople block
    then e.constantinople
    else if e.is_byzantium block
    then e.byzantium
    else e.frontier

-- `remainder` is twice what is left of a number that is `n` units.
unfoldable pub half_even : ℕ → ℕ → ℕ → ℕ
half_even unit n remainder =
    if ltb unit remainder || (remainder == unit && n % 2 == 1) then (n + 1) * unit else n * unit

unfoldable pub min_int64 : ℕ → ℕ
min_int64 n = if ltb n (2 ^ 63) then n else 2 ^ 63 - 1

-- A number to 53 bits, as a float64 and a big.Float of that precision keep it: a multiple of the unit, half
-- to even, where the unit is the least power of two that leaves 53 bits. The fuel lasts up to 2^180.
unfoldable pub round_to : ℕ → ℕ → ℕ → ℕ
round_to zero unit n = n
round_to (suc fuel) unit n =
    let coarser = round_to fuel (unit * 2) n in
    if ltb n (2 ^ 53 * unit) then half_even unit (n / unit) (n % unit * 2) else coarser

unfoldable pub round_53 : ℕ → ℕ
unfolding round_to half_even
round_53 n = round_to 128 1 n

-- The miner's part: the number of uncles is a float64, and its quotient by 32 is exact; the product of two
-- numbers of 53 bits is rounded to 53 again, and `Int64` cuts off the fraction and stops at the greatest
-- int64. For numbers up to 2^63 the product stays under 2^127.
unfoldable pub miner_share : ℕ → ℕ → ℤ
miner_share reward uncles =
    let part = round_53 (round_53 uncles * round_53 reward) / uncles_reward_multiplier in
    to_int64 (pos (reward + min_int64 part))

-- An uncle's part: the distance in int64, times an eighth of the reward.
unfoldable pub uncle_share : ℕ → ℕ → ℕ → ℤ
uncle_share index reward uncle_block =
    to_int64 (pos (uncle_block + max_uncle_depth) -ℤ pos index) *ℤ pos (reward / max_uncle_depth)

unfoldable pub reward_op : Currency → ℕ → String → String → ℤ → Operation
reward_op currency index type address value = record {
  index = index;
  related = [];
  type = type;
  status = some success_status;
  account = some address;
  amount = some (record { value = show_ℤ value; currency = currency });
  metadata = [];
}

module _ (g : Geth) (currency : Currency) (index reward : ℕ) where
  -- The loop over the uncles.
  unfoldable pub uncle_ops : List Header → List Operation → Result GoError (List Operation)
  uncle_ops [] ops = ok ops
  uncle_ops (b ∷ bs) ops = do
    address ← must_checksum g b.coinbase.hex
    uncle_ops bs (
        ops
        ++ reward_op currency (length ops) uncle_reward_op_type address
            (uncle_share index reward b.number)
          ∷ [])

-- `BlockRewardTransaction`
unfoldable pub block_reward_transaction :
    Geth → Ethash → Currency → BlockIdentifier → String → List Header → Result GoError Transaction
block_reward_transaction g e currency identifier miner uncles = do
  let reward = mining_reward e identifier.index
  address ← must_checksum g miner
  ops ←
      uncle_ops g currency identifier.index reward uncles (
        reward_op currency 0 miner_reward_op_type address (miner_share reward (length uncles)) ∷ [])
  ok (record { hash = identifier.hash; operations = ops; metadata = [] })
