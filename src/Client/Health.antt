-- ===== src/Client/Health.antt =====
-- client/client.go: `Status`, with the peers of the node.
use mesh_geth_sdk.Base.{
  ℕ, signed64, String, Bool, true, Option, none, some, List, [], ◌∷◌, map, Result, ok, ◌>>=◌,
  if◌then◌else◌,
}
use mesh_geth_sdk.Rosetta.{Value, text, strings}
use mesh_geth_sdk.Types.Errors.{GoError}
use mesh_geth_sdk.Configuration.{RosettaConfig}
use mesh_geth_sdk.Client.Utils.{convert_time}
use mesh_geth_sdk.Services.Client.{Status, SyncStatus, Peer}
use mesh_geth_sdk.Client.Node.{Rpc, block_header}

-- go-ethereum's `PeerInfo`; the protocols are handed on as they are.
pub record PeerInfo : Type 0 where
  pub id : String
  pub name : String
  pub enode : String
  pub caps : List String
  pub enr : String
  pub protocols : Value

-- go-ethereum's `SyncProgress`, as far as it is read
pub record SyncProgress : Type 0 where
  pub current_block : ℕ
  pub highest_block : ℕ

unfoldable pub peer_of : PeerInfo → Peer
peer_of info = record {
  peer_id = info.id;
  metadata =
      ("name", text info.name)
      ∷ ("enode", text info.enode)
      ∷ ("caps", strings info.caps)
      ∷ ("enr", text info.enr)
      ∷ ("protocols", info.protocols)
      ∷ [];
}

-- `peers`; `admin_peers` is the call of that name. `NewClient` leaves `skip_admin_calls` false.
unfoldable pub peers : Bool → Result GoError (List PeerInfo) → Result GoError (List Peer)
peers skip_admin_calls admin_peers =
    if skip_admin_calls then ok [] else (do info ← admin_peers; ok (map peer_of info))

abbrev pub synced : SyncStatus
synced = record {
  current_index = none;
  target_index = none;
  stage = some "SYNCED";
  synced = some true;
}

abbrev pub progress_status : Option SyncProgress → Option SyncStatus
progress_status none = none
progress_status (some p) = some (record {
  current_index = some (signed64 p.current_block);
  target_index = some (signed64 p.highest_block);
  stage = none;
  synced = none;
})

-- No progress means that the node does not sync at the moment.
unfoldable pub sync_status_of :
    RosettaConfig → Result GoError (Option SyncProgress) → Result GoError (Option SyncStatus)
sync_status_of config sync_progress =
    if config.supports_syncing
    then (do progress ← sync_progress; ok (progress_status progress))
    else ok (some synced)

unfoldable pub peers_of :
    RosettaConfig → Bool → Result GoError (List PeerInfo) → Result GoError (List Peer)
unfolding peers
peers_of config skip_admin_calls admin_peers =
    if config.supports_peering then peers skip_admin_calls admin_peers else ok []

-- `Status`
unfoldable pub status :
    Rpc
    → RosettaConfig
    → Bool
    → Result GoError (Option SyncProgress)
    → Result GoError (List PeerInfo)
    → Result GoError Status
status rpc config skip_admin_calls sync_progress admin_peers = do
  header ← block_header rpc config none
  sync ← sync_status_of config sync_progress
  its_peers ← peers_of config skip_admin_calls admin_peers
  ok (record {
    current_block = record { index = header.number; hash = (rpc.header_hash header).hex };
    current_time = convert_time header.time;
    sync_status = sync;
    peers = its_peers;
  })
