-- ===== src/Ethereum/Served.antt =====
-- The client of examples/ethereum/client/client.go, served by the endpoints of services/block_service.go.
use mesh_geth_sdk.Base.{◌≡◌, Option, ok, ok-injective, All}
use mesh_geth_sdk.Rosetta.{PartialBlockIdentifier}
use mesh_geth_sdk.Geth.{Hash}
use mesh_geth_sdk.Configuration.{Configuration}
use mesh_geth_sdk.Services.Client.{Header}
use mesh_geth_sdk.Services.Block.Cache.{Cache}
use mesh_geth_sdk.Services.Block.Populate.{Codec}
use mesh_geth_sdk.Services.Block.Fetch.{Decoder}
use mesh_geth_sdk.Services.Block.Endpoint.{Block, block}
use mesh_geth_sdk.Services.Block.Complete.{IsNumbered, Numbers, block-IsNumbered}
use mesh_geth_sdk.Client.Defaults.{populate_cross_chain_transactions}
use mesh_geth_sdk.Client.Rewards.Shares.{block_reward_transaction-IsIndexed}
use mesh_geth_sdk.Client.Sdk.{Library, SdkClient, sdk_client}
use mesh_geth_sdk.Ethereum.Client.{Receipts, ethereum_client}
use mesh_geth_sdk.Ethereum.Parsed.{parse_ops-IsIndexed}

-- The Ethereum client numbers the operations that it parses, those of rewards are numbered by the SDK
-- client, and there are no transactions of other chains.
ethereum_client-Numbers :
    (lib : Library) (receipts : Receipts) (ec : SdkClient)
    → Numbers (ethereum_client lib receipts ec)
unfolding ethereum_client sdk_client populate_cross_chain_transactions
ethereum_client-Numbers lib receipts ec = record {
  parses = λ tx ops e. parse_ops-IsIndexed lib.geth receipts.order tx ops e;
  rewards = λ b miner uncles t e.
      block_reward_transaction-IsIndexed lib.geth ec.chain ec.rosetta_config.currency b miner uncles
        e;
  crosses = λ b loaded r e. rw (← ok-injective e) tt;
}

-- Where Block answers with the Ethereum client, the operations of every transaction in the answer count up
-- from zero: of the reward transaction, and of each populated one, with its fees, calls and token logs.
pub block-ethereum_client :
    {Store : Type 0} (cache : Cache Store) (config : Configuration) (lib : Library)
    (receipts : Receipts) (ec : SdkClient) (d : Decoder) (codec : Codec)
    (block_hash : Header → Hash) (identifier : Option PartialBlockIdentifier) (s : Store)
    {b : Block}
    → (block cache lib.geth config
        (ethereum_client lib receipts ec)
        d
        codec
        block_hash
        identifier
        s).0
      ≡ ok b
    → All IsNumbered b.transactions
block-ethereum_client cache config lib receipts ec d codec block_hash identifier s e =
    block-IsNumbered cache lib.geth config (ethereum_client lib receipts ec)
      (ethereum_client-Numbers lib receipts ec) d codec block_hash identifier s e
