-- ===== src/Ethereum/Client.antt =====
-- examples/ethereum/client/client.go: `EthereumClient`, which embeds the SDK client and has four methods of
-- its own.
use mesh_geth_sdk.Base.{ℤ, String, Option, some, List, map, Result, ok, ◌>>=◌}
use mesh_geth_sdk.Base.Dict.{Dict}
use mesh_geth_sdk.Geth.{Hash}
use mesh_geth_sdk.Types.Errors.{GoError}
use mesh_geth_sdk.Client.Data.{EthTransaction}
use mesh_geth_sdk.Client.Estimates.{get_native_transfer_gas_limit}
use mesh_geth_sdk.Client.Sdk.{Library, SdkClient, sdk_client}
use mesh_geth_sdk.Services.Client.{Client}
use mesh_geth_sdk.Ethereum.{
  Receipt, Element, parse_ops, get_block_receipts, get_transaction_receipt,
}

-- The order in which Go ranges over a map, `EffectiveGasTip`, and the requests for receipts.
pub record Receipts : Type 0 where
  pub order : Dict ℤ → Dict ℤ
  pub tip_of : EthTransaction → Option ℤ → Result GoError ℤ
  pub batch : List String → Result GoError (List Element)
  pub call : Option Hash → Result GoError (Option Receipt)

unfoldable pub ethereum_client : Library → Receipts → SdkClient → Client
ethereum_client lib receipts ec = record (sdk_client lib ec) {
  parse_ops = parse_ops lib.geth receipts.order;
  get_block_receipts = λ block_hash txs base_fee. (do
    rs ← get_block_receipts receipts.tip_of receipts.batch block_hash txs base_fee
    ok (some (map some rs)));
  get_transaction_receipt = get_transaction_receipt receipts.tip_of receipts.call;
  get_native_transfer_gas_limit = λ to_address from_address value.
      get_native_transfer_gas_limit lib.geth ec.eth_client.estimator to_address from_address
        (some value);
}
