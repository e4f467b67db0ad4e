-- ===== src/Tests/Constructing.antt =====
-- The theorems on construction at concrete inputs.
use mesh_geth_sdk.Base.{
  ℤ, pos, String, ◌≡◌, refl, true, false, none, some, List, [], ◌∷◌, Result, ok, arith,
}
use mesh_geth_sdk.Rosetta.{Operation, Currency}
use mesh_geth_sdk.Types.{native_currency}
use mesh_geth_sdk.Client.Utils.{checksum_address}
use mesh_geth_sdk.Construction.TransferData.{
  generate_erc20_transfer_data, has_erc20_transfer_data, parse_erc20_transfer_data,
}
use mesh_geth_sdk.Construction.TransferData.RoundTrip.{parse-generate_erc20_transfer_data}
use mesh_geth_sdk.Construction.Data.{Transaction}
use mesh_geth_sdk.Construction.Parse.{is_transfer, choose_intent, parse_operations}
use mesh_geth_sdk.Construction.Parse.Balanced.{IsBalanced, parse_operations-IsBalanced}
use mesh_geth_sdk.Construction.Describe.{
  RequestedAmount, OperationDescription, create_operation_description,
}
use mesh_geth_sdk.Tests.Setting.{bob}
use mesh_geth_sdk.Tests.Json.{long_geth, long_geth-KeepsAddress, keccak}

parse-generate_erc20_transfer_data_example :
    (has_erc20_transfer_data long_geth keccak
        (generate_erc20_transfer_data long_geth keccak "0xb" (pos 1000))
      ≡ ok true)
    × (parse_erc20_transfer_data long_geth keccak
          (generate_erc20_transfer_data long_geth keccak "0xb" (pos 1000))
        ≡ ok (bob, pos 1000))
parse-generate_erc20_transfer_data_example =
    parse-generate_erc20_transfer_data long_geth keccak long_geth-KeepsAddress refl "0xb" 1000
      (omega arith)

abbrev native_tx : Transaction
native_tx = record {
  from = "0xa";
  to = "0xb";
  value = some (pos 5);
  call_data = [];
  nonce = 0;
  gas_price = some (pos 3);
  gas_limit = 21000;
  gas_tip_cap = none;
  gas_fee_cap = none;
  chain_id = some (pos 1);
  currency = native_currency;
}

abbrev token : Currency
token = record {
  symbol = "TKN";
  decimals = 6;
  metadata = ("contractAddress", mesh_geth_sdk.Rosetta.text "0xc") ∷ [];
}

abbrev token_tx : Transaction
token_tx = record native_tx {
  from = "0xa";
  to = "0xc";
  value = some (pos 0);
  call_data = generate_erc20_transfer_data long_geth keccak "0xb" (pos 1000);
  currency = token;
}

abbrev operations_or_nil : {E A : Type 0} → Result E (List A) → List A
operations_or_nil (ok ops) = ops
operations_or_nil _ = []

abbrev native_ops : List Operation
native_ops = operations_or_nil (parse_operations long_geth keccak native_tx)

native_ops-eq : parse_operations long_geth keccak native_tx ≡ ok native_ops
unfolding parse_operations is_transfer choose_intent checksum_address
native_ops-eq = refl

parse_operations-IsBalanced_example : IsBalanced native_ops
parse_operations-IsBalanced_example =
    parse_operations-IsBalanced long_geth keccak native_tx native_ops-eq

abbrev token_amount : RequestedAmount
token_amount = record { value = "5"; currency = some token }

abbrev symbol_of : Currency → String
symbol_of c = c.symbol

abbrev zero_always : String → ℤ
zero_always s = pos 0

abbrev described : List OperationDescription
described = operations_or_nil (
    create_operation_description symbol_of zero_always native_currency
      (some token_amount ∷ some token_amount ∷ []) false)

abbrev short_tx : Transaction
short_tx = record native_tx { call_data = 1 ∷ 2 ∷ [] }
