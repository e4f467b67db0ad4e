-- ===== src/Bootstrap.antt =====
-- utils/bootstrap.go: which client `BootStrap` serves. The asserter, the router and the server that it
-- then starts are other packages'.
pub mod Forwarding
pub mod Blocks
pub mod Main
use mesh_geth_sdk.Base.{
  String, Bool, true, false, Option, none, some, List, Result, ok, err, ◌>>=◌, map_err, or_err,
  if◌then◌else◌,
}
use mesh_geth_sdk.Types.Errors.{GoError, message, wrapped}
use mesh_geth_sdk.Configuration.{Configuration}
use mesh_geth_sdk.Services.Client.{Client}
use mesh_geth_sdk.Client.Sdk.{Library, RpcClient, SdkClient, sdk_client, with_rpc_transport}
use mesh_geth_sdk.Ethereum.Client.{Receipts, ethereum_client}

-- A value of the interface `Client`. Its dynamic type may also have `WithRPCTransport`, which gives a value
-- that is a client of the services, or is none.
pub record Served (Transport : Type 0) : Type 0 where
  pub client : Client
  pub with_rpc_transport : Option (String → Transport → Result GoError (Option Client))

module _ {Transport : Type 0} where
  -- The client that replaces the one that was given. `new_header_forwarder` is that of rosetta-sdk-go.
  unfoldable pub replaced_client :
      (List String → Result GoError Transport)
      → Configuration
      → Served Transport
      → Result GoError Client
  replaced_client new_header_forwarder cfg served = do
    replace ← or_err served.with_rpc_transport (
        message
          "SupportHeaderForwarding enabled, but client does not implement ReplaceableRPCClient")
    forwarder ←
        map_err (new_header_forwarder cfg.rosetta_cfg.forward_headers)
          (wrapped "SupportHeaderForwarding enabled, but header forwarder creation failed: ")
    replaced ←
        map_err (replace cfg.geth_url forwarder)
          (wrapped "SupportHeaderForwarding enabled, but client replacement failed: ")
    or_err replaced
        (message "SupportHeaderForwarding enabled, but converting replaced client type failed")

  -- The client that the router is made with; `asserter` is the error of `NewServer`, or none.
  unfoldable pub served_client :
      Result GoError Unit
      → (List String → Result GoError Transport)
      → Configuration
      → Served Transport
      → Result GoError Client
  unfolding replaced_client
  served_client asserter new_header_forwarder cfg served = do
    asserted ← map_err asserter (wrapped "could not initialize server asserter: ")
    if cfg.rosetta_cfg.support_header_forwarding
        then replaced_client new_header_forwarder cfg served
        else ok served.client

  -- The Ethereum client: `WithRPCTransport` is that of the SDK client that it embeds.
  unfoldable pub ethereum_served :
      Library
      → Receipts
      → (String → Transport → Result GoError RpcClient)
      → SdkClient
      → Served Transport
  ethereum_served lib receipts new_rpc_client ec = record {
    client = ethereum_client lib receipts ec;
    with_rpc_transport = some (λ endpoint transport. (do
      replaced ← with_rpc_transport new_rpc_client ec endpoint transport
      ok (some (sdk_client lib replaced))));
  }
