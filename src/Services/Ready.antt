-- ===== src/Services/Ready.antt =====
-- services/network_service.go: when `NetworkStatus` answers.
use mesh_geth_sdk.Base.{
  ℤ, ltb_ℤ, ◌≤ℤ◌, ◌≡◌, refl, false, Bool-cases, inl, inr, some, ok, >>=-eq-ok, ok-injective,
  map_err, map_err-eq-ok, arith,
}
use mesh_geth_sdk.Types.Errors.{wrap_err, err_geth}
use mesh_geth_sdk.Configuration.{Configuration, is_offline_mode}
use mesh_geth_sdk.Services.Client.{Client, Status}
use mesh_geth_sdk.Services.Network.{NetworkStatus, ready_status, network_status}

ready_status-answer :
    (epoch : ℤ) (config : Configuration) (s : Status) {n : NetworkStatus}
    → ready_status epoch config s ≡ ok n
    → (n.current_block_identifier ≡ s.current_block)
      × (n.genesis_block_identifier ≡ config.genesis_block_identifier)
      × (epoch ≤ℤ n.current_block_timestamp)
unfolding ready_status
ready_status-answer epoch config s e = elim (Bool-cases (ltb_ℤ s.current_time epoch)) [
  | inl early ↦ cc (rw early at e)
  | inr late ↦ rw (← ok-injective (rw late at e)) (refl, refl, ground arith)
]

-- `NetworkStatus` answers only where the server is online, and with the current block of the node and the
-- genesis block of the configuration; the time of the current block is then not before the epoch that
-- the asserter accepts.
pub network_status-answer :
    (epoch : ℤ) (config : Configuration) (c : Client) {n : NetworkStatus}
    → network_status epoch config c ≡ ok n
    → (is_offline_mode config ≡ false)
      × ((s : Status) × (c.status ≡ ok s)
          × (n.current_block_identifier ≡ s.current_block)
          × (n.genesis_block_identifier ≡ config.genesis_block_identifier)
          × (epoch ≤ℤ n.current_block_timestamp))
unfolding network_status
network_status-answer epoch config c e = elim (Bool-cases (is_offline_mode config)) [
  | inl off ↦ cc (rw off at e)
  | inr on ↦
      (let (s, asked, e1) =
          >>=-eq-ok (map_err c.status (λ e. wrap_err err_geth (some e))) _ (rw on at e) in
        let (current, genesis, late) = ready_status-answer epoch config s e1 in
        (on, (s, map_err-eq-ok c.status _ asked, current, genesis, late)))
]
