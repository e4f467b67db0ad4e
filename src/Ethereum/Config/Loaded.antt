-- ===== src/Ethereum/Config/Loaded.antt =====
-- examples/ethereum/config/config.go: which environments `LoadConfiguration` accepts, and what it makes of
-- them.
use mathlib.Core.Path.{subst}
use mesh_geth_sdk.Base.{
  String, Bool, ◌≡◌, refl, sym, ap, ◌∙◌, ◌↔◌, some, ok, >>=-eq-ok, ok-injective,
}
use mesh_geth_sdk.Base.Text.{parse_bool}
use mesh_geth_sdk.Configuration.{Configuration}
use mesh_geth_sdk.Ethereum.Config.{
  Params, Network, mode_of, skip_geth_admin_of, port_of, token_filter_of, network_of, configured,
  load_configuration,
}
use mesh_geth_sdk.Ethereum.Config.Variables.{
  IsMode, IsPort, IsFlag, IsUrl, IsRosettaConfig, IsNetwork, mode_of-IsMode, IsMode-mode_of,
  skip_geth_admin_of-IsFlag, IsFlag-skip_geth_admin_of, port_of-IsPort, IsPort-port_of,
  token_filter_of-parse_bool, IsRosettaConfig-of, IsRosettaConfig-eq, IsUrl-of, IsUrl-eq,
  network_of-IsNetwork, IsNetwork-network_of,
}

module _ {Chain : Type 0} (params : Params Chain) where
  -- What the variables stand for, and the configuration made of them, field by field.
  abbrev pub Loads : (String → String) → Configuration → Chain → Type 0
  Loads getenv c chain =
      (network : Network Chain) × (filter : Bool) × IsMode (getenv "MODE")
      × IsNetwork params (getenv "NETWORK") network
      × IsFlag (getenv "SKIP_GETH_ADMIN") c.skip_geth_admin
      × IsPort (getenv "PORT") c.port
      × (parse_bool (getenv "FILTER") ≡ some filter)
      × (c.mode ≡ getenv "MODE")
      × (c.network ≡ network.identifier)
      × (c.genesis_block_identifier ≡ network.genesis_block_identifier)
      × (c.geth_arguments ≡ network.geth_arguments)
      × IsUrl (getenv "GETH") c
      × IsRosettaConfig filter (getenv "USE_TOKEN_WHITE_LIST_METADATA") c.rosetta_cfg
      × (chain ≡ network.chain_config)

  load_configuration-to :
      (getenv : String → String) {c : Configuration} {chain : Chain}
      → load_configuration params getenv ≡ ok (c, chain)
      → Loads getenv c chain
  unfolding load_configuration
  load_configuration-to getenv {c} {chain} e =
      let (mode, h1, e1) = >>=-eq-ok (mode_of (getenv "MODE")) _ e in
      let (network, h2, e2) = >>=-eq-ok (network_of params (getenv "NETWORK")) _ e1 in
      let (skip, h3, e3) = >>=-eq-ok (skip_geth_admin_of (getenv "SKIP_GETH_ADMIN")) _ e2 in
      let (port, h4, e4) = >>=-eq-ok (port_of (getenv "PORT")) _ e3 in
      let (filter, h5, e5) = >>=-eq-ok (token_filter_of (getenv "FILTER")) _ e4 in
      let (same, is_mode) = mode_of-IsMode (getenv "MODE") h1 in
      let made = ok-injective e5 in
      let same_config = sym (ap (λ l. l.0) made) in
      (
        network,
        filter,
        is_mode,
        network_of-IsNetwork params (getenv "NETWORK") h2,
        subst (λ b. IsFlag (getenv "SKIP_GETH_ADMIN") b) (ap (λ l. l.0.skip_geth_admin) made)
            (skip_geth_admin_of-IsFlag (getenv "SKIP_GETH_ADMIN") h3),
        subst (λ n. IsPort (getenv "PORT") n) (ap (λ l. l.0.port) made)
            (port_of-IsPort (getenv "PORT") h4),
        (token_filter_of-parse_bool (getenv "FILTER")).0 h5,
        ap (λ c. c.mode) same_config ∙ same,
        ap (λ c. c.network) same_config,
        ap (λ c. c.genesis_block_identifier) same_config,
        ap (λ c. c.geth_arguments) same_config,
        IsUrl-of (getenv "GETH") c (ap (λ c. c.geth_url) same_config)
            (ap (λ c. c.remote_geth) same_config),
        subst (λ r. IsRosettaConfig filter (getenv "USE_TOKEN_WHITE_LIST_METADATA") r)
            (ap (λ l. l.0.rosetta_cfg) made)
            (IsRosettaConfig-of filter (getenv "USE_TOKEN_WHITE_LIST_METADATA")),
        sym (ap (λ l. l.1) made),
      )

  load_configuration-from :
      (getenv : String → String) {c : Configuration} {chain : Chain}
      → Loads getenv c chain
      → load_configuration params getenv ≡ ok (c, chain)
  unfolding load_configuration
  load_configuration-from getenv {c} {chain}
        (
          network, filter, is_mode, is_network, is_flag, is_port, is_filter, mode, name, genesis,
          arguments, is_url, is_rosetta, same,
        ) =
      let (url, remote) = IsUrl-eq (getenv "GETH") c is_url in
      let rosetta =
        IsRosettaConfig-eq filter (getenv "USE_TOKEN_WHITE_LIST_METADATA") c.rosetta_cfg
          is_rosetta in
      let mode_back = sym mode in
      let name_back = sym name in
      let genesis_back = sym genesis in
      let arguments_back = sym arguments in
      let same_back = sym same in
      let made : configured params getenv (getenv "MODE") network c.skip_geth_admin c.port filter
          ≡ c =
        λ i. record {
          mode = mode_back i;
          network = name_back i;
          genesis_block_identifier = genesis_back i;
          geth_url = url i;
          remote_geth = remote i;
          port = c.port;
          skip_geth_admin = c.skip_geth_admin;
          geth_arguments = arguments_back i;
          rosetta_cfg = rosetta i;
        } in
      let loaded : load_configuration params getenv
          ≡ ok (
            configured params getenv (getenv "MODE") network c.skip_geth_admin c.port filter,
            network.chain_config,
          ) =
        rw
          (
            IsMode-mode_of (getenv "MODE") is_mode,
            IsNetwork-network_of params (getenv "NETWORK") is_network,
            IsFlag-skip_geth_admin_of (getenv "SKIP_GETH_ADMIN") is_flag,
            IsPort-port_of (getenv "PORT") is_port,
            (token_filter_of-parse_bool (getenv "FILTER")).1 is_filter,
          )
          refl in
      loaded ∙ (λ i. ok (made i, same_back i))

-- `LoadConfiguration` gives a configuration exactly if the mode is ONLINE or OFFLINE, the network is one of
-- the three, the port is a decimal number from 1 to 2^63 - 1, the filter of tokens is a truth value, and
-- the variable for admin calls is one or is not set; and then its mode,
-- network, port, flags, node and Rosetta configuration, and the chain, are those that the variables stand
-- for.
pub load_configuration-Loads :
    {Chain : Type 0} (params : Params Chain) (getenv : String → String) (c : Configuration)
    (chain : Chain)
    → (load_configuration params getenv ≡ ok (c, chain)) ↔ Loads params getenv c chain
load_configuration-Loads params getenv c chain =
    (load_configuration-to params getenv, load_configuration-from params getenv)
