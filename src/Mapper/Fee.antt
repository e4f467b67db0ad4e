-- ===== src/Mapper/Fee.antt =====
-- `FeeOps` of services/mapper.go.
pub mod Balance
use mesh_geth_sdk.Base.{
  ℕ, ℤ, pos, ◌+ℤ◌, ◌-ℤ◌, neg, int_laws, String, ◌≡◌, refl, Option, none, some, List, [], ◌∷◌, ◌++◌,
  if◌then◌else◌, Result, ok, err, crash, ◌>>=◌, or_crash, arith, length, map_err,
}
use mesh_geth_sdk.Base.Text.{is_empty}
use mesh_geth_sdk.Rosetta.{Operation}
use mesh_geth_sdk.Geth.{Geth, Address, ReadsHex}
use mesh_geth_sdk.Types.{fee_op_type, success_status, native_currency}
use mesh_geth_sdk.Types.Errors.{GoError}
use mesh_geth_sdk.Client.Data.{LoadedTransaction}
use mesh_geth_sdk.Client.Utils.{amount, account, must_checksum, must_checksum-hex}
use mesh_geth_sdk.Mapper.Operations.{IsIndexed, stated, total, stated-show}

-- `new(big.Int).Sub(tx.FeeAmount, tx.FeeBurned)` dereferences both.
unfoldable pub miner_earned : Option ℤ → Option ℤ → Result GoError (Option ℤ)
miner_earned fee none = ok fee
miner_earned none (some burned) = crash
miner_earned (some fee) (some burned) = ok (some (fee -ℤ burned))

abbrev pub fee_op : ℕ → List ℕ → String → ℤ → Operation
fee_op index related address value = record {
  index = index;
  related = related;
  type = fee_op_type;
  status = some success_status;
  account = some address;
  amount = amount (some value) native_currency;
  metadata = [];
}

-- The last operation, which the burned part of the fee adds.
unfoldable pub burnt_ops : Address → Option ℤ → List Operation
unfolding account amount
burnt_ops from none = []
burnt_ops from (some burned) =
    record {
      index = 2;
      related = [];
      type = fee_op_type;
      status = some success_status;
      account = account (some from);
      amount = amount (some (neg burned)) native_currency;
      metadata = [];
    }
    ∷ []

unfoldable pub paid_ops : Geth → LoadedTransaction → Option ℤ → Result GoError (List Operation)
unfolding burnt_ops
paid_ops g tx none = ok []
paid_ops g tx (some earned) = do
  from ← or_crash tx.from
  payer ← must_checksum g from.hex
  rewarded ← must_checksum g (if is_empty tx.author then tx.miner else tx.author)
  ok (
      fee_op 0 [] payer (neg earned)
      ∷ fee_op 1 (0 ∷ []) rewarded earned
      ∷ burnt_ops from tx.fee_burned)

unfoldable pub fee_ops : Geth → LoadedTransaction → Result GoError (List Operation)
unfolding miner_earned paid_ops
fee_ops g tx = do earned ← miner_earned tx.fee_amount tx.fee_burned; paid_ops g tx earned
