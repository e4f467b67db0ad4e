-- ===== src/Services/Network.antt =====
-- services/network_service.go: the endpoints under /network.
use mesh_geth_sdk.Base.{
  ℤ, ltb_ℤ, String, Bool, Option, some, List, [], ◌∷◌, Result, ok, err, ◌>>=◌, map_err,
  if◌then◌else◌,
}
use mesh_geth_sdk.Rosetta.{BlockIdentifier, Error}
use mesh_geth_sdk.Types.{SupportedTypes, OperationStatus}
use mesh_geth_sdk.Types.Errors.{wrap_err, err_unavailable_offline, err_geth, err_geth_not_ready}
use mesh_geth_sdk.Configuration.{Configuration, NetworkIdentifier, is_offline_mode}
use mesh_geth_sdk.Services.Client.{Client, Status, SyncStatus, Peer}

pub record NetworkOptions : Type 0 where
  pub node_version : String
  pub rosetta_version : String
  pub errors : List Error
  pub operation_types : List String
  pub operation_statuses : List OperationStatus
  pub historical_balance_lookup : Bool
  pub call_methods : List String

pub record NetworkStatus : Type 0 where
  pub current_block_identifier : BlockIdentifier
  pub current_block_timestamp : ℤ
  pub genesis_block_identifier : BlockIdentifier
  pub sync_status : Option SyncStatus
  pub peers : List Peer

unfoldable pub network_list : Configuration → List NetworkIdentifier
network_list config = config.network ∷ []

-- `rosetta_version` is the constant `RosettaAPIVersion` of rosetta-sdk-go.
unfoldable pub network_options : String → SupportedTypes → List Error → NetworkOptions
network_options rosetta_version types errors = record {
  node_version = types.node_version;
  rosetta_version = rosetta_version;
  errors = errors;
  operation_types = types.operation_types;
  operation_statuses = types.operation_statuses;
  historical_balance_lookup = types.historical_balance_supported;
  call_methods = types.call_methods;
}

-- `min_unix_epoch` is the constant `MinUnixEpoch` of the asserter.
unfoldable pub ready_status : ℤ → Configuration → Status → Result Error NetworkStatus
ready_status min_unix_epoch config s =
    if ltb_ℤ s.current_time min_unix_epoch
    then err err_geth_not_ready
    else ok (record {
      current_block_identifier = s.current_block;
      current_block_timestamp = s.current_time;
      genesis_block_identifier = config.genesis_block_identifier;
      sync_status = s.sync_status;
      peers = s.peers;
    })

unfoldable pub network_status : ℤ → Configuration → Client → Result Error NetworkStatus
unfolding is_offline_mode ready_status wrap_err
network_status min_unix_epoch config c =
    if is_offline_mode config then err err_unavailable_offline else (do
      s ← map_err c.status (λ e. wrap_err err_geth (some e))
      ready_status min_unix_epoch config s)
