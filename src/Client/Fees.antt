-- ===== src/Client/Fees.antt =====
-- The fee methods of client/client.go: `GetGasTipCap`, `GetGasFeeCap`, `GetBaseFee`, and the getters of
-- the configuration that they use.
pub mod Caps
use mesh_geth_sdk.Base.{
  ℕ, suc, ◌/◌, ◌==◌, ℤ, pos, negsuc, neg, ◌+ℤ◌, ◌*ℤ◌, ltb_ℤ, String, Bool, Option, none, some,
  if◌then◌else◌, Result, ok, err, crash, ◌>>=◌, or_err,
}
use mesh_geth_sdk.Types.Errors.{GoError, not_found}
use mesh_geth_sdk.Configuration.{
  RosettaConfig, default_base_fee_floor, default_base_fee_multiplier, default_priority_fee_divisor,
}

unfoldable pub get_base_fee_floor : RosettaConfig → ℤ
get_base_fee_floor config = elim config.base_fee_floor [
  | none ↦ pos default_base_fee_floor
  | some floor ↦ floor
]

unfoldable pub get_base_fee_multiplier : RosettaConfig → ℤ
get_base_fee_multiplier config = elim config.base_fee_multiplier [
  | none ↦ pos default_base_fee_multiplier
  | some m ↦ m
]

unfoldable pub get_priority_fee_divisor : RosettaConfig → ℤ
get_priority_fee_divisor config = elim config.priority_fee_divisor [
  | none ↦ pos default_priority_fee_divisor
  | some d ↦ d
]

unfoldable pub big_int_max : ℤ → ℤ → ℤ
big_int_max a b = if ltb_ℤ a b then b else a

-- `head.BaseFee.ToInt()`: the field is no pointer, and zero where the head has no base fee.
unfoldable pub base_fee_of : Option ℤ → ℤ
base_fee_of none = pos 0
base_fee_of (some base_fee) = base_fee

-- The head that the node answers with, with its base fee if it has one; a nil head is an error.
unfoldable pub get_base_fee : Result GoError (Option (Option ℤ)) → Result GoError ℤ
get_base_fee call = do answer ← call; head ← or_err answer not_found; ok (base_fee_of head)

-- The cap from the base fee of the latest block.
unfoldable pub fee_cap_of : RosettaConfig → ℤ → ℤ → ℤ
fee_cap_of config gas_tip_cap base_fee =
    let adjusted_base_fee = base_fee *ℤ get_base_fee_multiplier config in
    big_int_max adjusted_base_fee (get_base_fee_floor config) +ℤ gas_tip_cap

-- `GetGasFeeCap`, with the cap of the options; `call` gets the latest head. The base fee is never nil.
unfoldable pub get_gas_fee_cap :
    RosettaConfig → Result GoError (Option (Option ℤ)) → Option ℤ → ℤ → Result GoError (Option ℤ)
get_gas_fee_cap config call (some cap) gas_tip_cap = ok (some cap)
get_gas_fee_cap config call none gas_tip_cap = do
  base_fee ← get_base_fee call
  ok (some (fee_cap_of config gas_tip_cap base_fee))

-- `Div` of a number that is not negative; a divisor of zero panics.
unfoldable pub div : ℕ → ℤ → Result GoError ℤ
div n (pos d) = if d == 0 then crash else ok (pos (n / d))
div n (negsuc d) = ok (neg (pos (n / suc d)))

-- `GetGasTipCap`, with the cap of the options; `call` is the call of `eth_maxPriorityFeePerGas`.
unfoldable pub get_gas_tip_cap : RosettaConfig → Result GoError ℕ → Option ℤ → Result GoError ℤ
get_gas_tip_cap config call (some cap) = ok cap
get_gas_tip_cap config call none = do tip ← call; div tip (get_priority_fee_divisor config)
