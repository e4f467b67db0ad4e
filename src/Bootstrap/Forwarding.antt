-- ===== src/Bootstrap/Forwarding.antt =====
-- utils/bootstrap.go: what forwarding headers does to the client of Ethereum.
use mesh_geth_sdk.Base.{
  String, true, false, Bool-cases, List, Result, ok, err, ◌≡◌, sym, ap, ◌⊎◌, inl, inr, >>=-eq-ok,
  ok-injective, some-injective, map_err, map_err-eq-ok, or_err-eq-ok, ◌∙◌,
}
use mesh_geth_sdk.Types.Errors.{GoError, message}
use mesh_geth_sdk.Configuration.{Configuration}
use mesh_geth_sdk.Services.Client.{Client}
use mesh_geth_sdk.Client.Data.{LoadedTransaction}
use mesh_geth_sdk.Client.Defaults.{parse_ops}
use mesh_geth_sdk.Client.Sdk.{Library, RpcClient, SdkClient, sdk_client, with_rpc_transport}
use mesh_geth_sdk.Ethereum
use mesh_geth_sdk.Ethereum.Client.{Receipts, ethereum_client}
use mesh_geth_sdk.Bootstrap.{replaced_client, served_client, ethereum_served}

module _ {Transport : Type 0} (lib : Library) (receipts : Receipts)
    (new_rpc_client : String → Transport → Result GoError RpcClient) (ec : SdkClient)
    (new_header_forwarder : List String → Result GoError Transport) (cfg : Configuration) where
  -- The replaced client is an SDK client, of the same configuration.
  pub replaced_client-sdk :
      {c : Client}
      → replaced_client new_header_forwarder cfg (ethereum_served lib receipts new_rpc_client ec)
        ≡ ok c
      → (replaced : SdkClient) × (replaced.rosetta_config ≡ ec.rosetta_config)
        × (c ≡ sdk_client lib replaced)
  unfolding replaced_client ethereum_served with_rpc_transport
  replaced_client-sdk e =
      let (forwarder, h1, e1) =
        >>=-eq-ok (map_err (new_header_forwarder cfg.rosetta_cfg.forward_headers) _) _ e in
      let (replaced, h2, e2) = >>=-eq-ok (map_err _ _) _ e1 in
      let made = map_err-eq-ok _ _ h2 in
      let (sdk, h3, e3) =
        >>=-eq-ok (with_rpc_transport new_rpc_client ec cfg.geth_url forwarder) _ made in
      let (rpc, h4, e4) = >>=-eq-ok (new_rpc_client cfg.geth_url forwarder) _ h3 in
      (
        sdk,
        sym (ap (λ s. s.rosetta_config) (ok-injective e4)),
        some-injective (sym (or_err-eq-ok replaced _ e2) ∙ sym (ok-injective e3)),
      )

  -- Where BootStrap serves the Ethereum client, the operations of a transaction are parsed as the Ethereum
  -- client does exactly if headers are not forwarded; with forwarding, the client that is served is the
  -- embedded SDK client, which answers that ParseOps is not implemented.
  pub served_client-parse_ops :
      (asserter : Result GoError Unit) (tx : LoadedTransaction) {c : Client}
      → served_client asserter new_header_forwarder cfg
          (ethereum_served lib receipts new_rpc_client ec)
        ≡ ok c
      → ((cfg.rosetta_cfg.support_header_forwarding ≡ false)
          × (c.parse_ops tx ≡ mesh_geth_sdk.Ethereum.parse_ops lib.geth receipts.order tx))
        ⊎ ((cfg.rosetta_cfg.support_header_forwarding ≡ true)
            × (c.parse_ops tx ≡ err (message "ParseOps not implemented")))
  unfolding served_client ethereum_served ethereum_client sdk_client parse_ops
  served_client-parse_ops asserter tx e =
      let (asserted, h1, e1) = >>=-eq-ok (map_err asserter _) _ e in
      elim (Bool-cases cfg.rosetta_cfg.support_header_forwarding) [
        | inl forwards ↦
            (let (replaced, same, made) = replaced_client-sdk (rw forwards at e1) in
              inr (forwards, ap (λ c. c.parse_ops tx) made))
        | inr does_not ↦
            inl (does_not, sym (ap (λ c. c.parse_ops tx) (ok-injective (rw does_not at e1))))
      ]
