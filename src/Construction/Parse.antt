-- ===== src/Construction/Parse.antt =====
-- `ConstructionParse` of services/construction/parse.go, from the decoded transaction to its operations.
pub mod Balanced
use mesh_geth_sdk.Base.{
  ℕ, ◌==◌, ℤ, pos, neg, String, Bool, true, false, Option, none, some, List, [], ◌∷◌, Result, ok,
  err, crash, ◌>>=◌, map_err, or_crash, if◌then◌else◌,
}
use mesh_geth_sdk.Base.Decimal.{show_ℤ}
use mesh_geth_sdk.Rosetta.{Operation, Currency, Error}
use mesh_geth_sdk.Geth.{Geth, Address}
use mesh_geth_sdk.Types.{call_op_type, op_erc20_transfer}
use mesh_geth_sdk.Types.Errors.{GoError, wrapped, wrap_err, err_invalid_input, err_invalid_address}
use mesh_geth_sdk.Client.Utils.{checksum_address}
use mesh_geth_sdk.Construction.Data.{Transaction}
use mesh_geth_sdk.Construction.TransferData.{has_erc20_transfer_data, parse_erc20_transfer_data}

-- The variables `opMethod`, `toAddress` and `value`.
pub record Intent : Type 0 where
  pub op_method : String
  pub to_address : String
  pub value : Option ℤ

unfoldable pub parse_op : Transaction → ℕ → String → String → ℤ → Operation
parse_op tx index op_method address value = record {
  index = index;
  related = [];
  type = op_method;
  status = none;
  account = some address;
  amount = some (record { value = show_ℤ value; currency = tx.currency });
  metadata = [];
}

unfoldable pub invalid_address : GoError → Error
invalid_address e = wrap_err err_invalid_address (some (wrapped "%s is not a valid address: " e))

module _ (g : Geth) (keccak : String → List ℕ) where
  unfoldable pub transfer_intent : List ℕ → Result Error Intent
  transfer_intent call_data = do
    sent ←
        map_err (parse_erc20_transfer_data g keccak call_data)
          (λ e. wrap_err err_invalid_input (some e))
    ok (record { op_method = op_erc20_transfer; to_address = sent.0.hex; value = some sent.1 })

  unfoldable pub choose_intent : Transaction → Bool → Result Error Intent
  choose_intent tx true = transfer_intent tx.call_data
  choose_intent tx false =
      ok (record { op_method = call_op_type; to_address = tx.to; value = tx.value })

  unfoldable pub is_transfer : List ℕ → Result Error Bool
  is_transfer [] = ok false
  is_transfer (b ∷ bs) =
      map_err (has_erc20_transfer_data g keccak (b ∷ bs)) (λ e. wrap_err err_invalid_input (some e))

  -- The operations of the response.
  unfoldable pub parse_operations : Transaction → Result Error (List Operation)
  parse_operations tx = do
    transfer ← is_transfer tx.call_data
    intent ← choose_intent tx transfer
    from ← map_err (checksum_address g tx.from) invalid_address
    to ← map_err (checksum_address g intent.to_address) invalid_address
    value ← or_crash intent.value
    ok (
        parse_op tx 0 intent.op_method from (neg value)
        ∷ parse_op tx 1 intent.op_method to value
        ∷ [])
