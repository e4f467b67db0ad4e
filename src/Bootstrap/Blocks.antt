-- ===== src/Bootstrap/Blocks.antt =====
-- utils/bootstrap.go and services/block_service.go: what forwarding headers does to the endpoint `Block`.
use mesh_geth_sdk.Base.{
  String, ◌≡◌, refl, false, Bool-cases, inl, inr, Option, List, Result, ok, err, crash, >>=-eq-ok,
  map_err,
}
use mesh_geth_sdk.Rosetta.{PartialBlockIdentifier, Error}
use mesh_geth_sdk.Geth.{Geth, Hash}
use mesh_geth_sdk.Types.Errors.{GoError}
use mesh_geth_sdk.Configuration.{Configuration, is_offline_mode}
use mesh_geth_sdk.Services.Client.{Client, Header}
use mesh_geth_sdk.Services.Block.Cache.{Cache}
use mesh_geth_sdk.Services.Block.Populate.{Codec}
use mesh_geth_sdk.Services.Block.Fetch.{Decoder, Fetched, get_eth_block}
use mesh_geth_sdk.Services.Block.Endpoint.{Block, block_error, Prepared, prepare, finish, block}
use mesh_geth_sdk.Client.Defaults.{get_block_receipts}
use mesh_geth_sdk.Client.Sdk.{Library, RpcClient, SdkClient, sdk_client}
use mesh_geth_sdk.Ethereum.Client.{Receipts}
use mesh_geth_sdk.Bootstrap.{served_client, ethereum_served}
use mesh_geth_sdk.Bootstrap.Forwarding.{replaced_client-sdk}

module _ {Store : Type 0} (cache : Cache Store) (g : Geth) (config : Configuration) (d : Decoder)
    (codec : Codec) (block_hash : Header → Hash) where
  -- The SDK client has no receipts.
  prepare-sdk :
      (lib : Library) (ec : SdkClient) (f : Fetched) {p : Prepared}
      → prepare cache g config (sdk_client lib ec) d codec block_hash f ≡ ok p
      → ⊥
  unfolding prepare sdk_client get_block_receipts
  prepare-sdk lib ec f e = cc

  finish-ne-ok :
      (c : Client) (r : Result Error Prepared) (s : Store) {b : Block}
      → ((p : Prepared) → r ≡ ok p → ⊥)
      → (finish cache g config c d codec block_hash r s).0 ≡ ok b
      → ⊥
  unfolding finish
  finish-ne-ok c (err x) s h e = cc
  finish-ne-ok c crash s h e = cc
  finish-ne-ok c (ok p) s h e = h p refl

  block-sdk :
      (lib : Library) (ec : SdkClient) (identifier : Option PartialBlockIdentifier) (s : Store)
      {b : Block}
      → (block cache g config (sdk_client lib ec) d codec block_hash identifier s).0 ≡ ok b
      → ⊥
  unfolding block
  block-sdk lib ec identifier s e = elim (Bool-cases (is_offline_mode config)) [
    | inl offline ↦ cc (rw offline at e)
    | inr online ↦
        finish-ne-ok (sdk_client lib ec) _ s
          (λ p made.
            (let (fetched, h, made') =
                >>=-eq-ok
                  (map_err (get_eth_block g config (sdk_client lib ec) d identifier) block_error) _
                  made in
              prepare-sdk lib ec fetched made'))
          (rw online at e)
  ]

-- Where BootStrap serves the Ethereum client and the endpoint Block answers with a block, headers are not
-- forwarded: with forwarding, no block at all is served.
pub served_client-block :
    {Store Transport : Type 0} (cache : Cache Store) (g : Geth) (d : Decoder) (codec : Codec)
    (block_hash : Header → Hash) (lib : Library) (receipts : Receipts)
    (new_rpc_client : String → Transport → Result GoError RpcClient) (ec : SdkClient)
    (new_header_forwarder : List String → Result GoError Transport) (cfg : Configuration)
    (asserter : Result GoError Unit) (identifier : Option PartialBlockIdentifier) (s : Store)
    {c : Client} {b : Block}
    → served_client asserter new_header_forwarder cfg
        (ethereum_served lib receipts new_rpc_client ec)
      ≡ ok c
    → (block cache g cfg c d codec block_hash identifier s).0 ≡ ok b
    → cfg.rosetta_cfg.support_header_forwarding ≡ false
unfolding served_client
served_client-block cache g d codec block_hash lib receipts new_rpc_client ec new_header_forwarder
      cfg asserter identifier s served answered =
    elim (Bool-cases cfg.rosetta_cfg.support_header_forwarding) [
      | inl forwards ↦
          (let (asserted, h1, e1) = >>=-eq-ok (map_err asserter _) _ served in
            let (replaced, same, made) =
              replaced_client-sdk lib receipts new_rpc_client ec new_header_forwarder cfg
                (rw forwards at e1) in
            absurd (
              block-sdk cache g cfg d codec block_hash lib replaced identifier s
                (rw made at answered)))
      | inr does_not ↦ does_not
    ]
