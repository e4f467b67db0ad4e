-- ===== src/Bootstrap/Main.antt =====
-- examples/ethereum/main.go and `NewEthereumClient` of examples/ethereum/client/client.go: the server of
-- Ethereum as a whole.
use mesh_geth_sdk.Base.{
  String, ◌≡◌, ap, false, none, List, Result, ok, err, crash, ◌>>=◌, >>=-eq-ok, ok-injective, sym,
  map_err,
}
use mathlib.Core.Path.{subst}
use mesh_geth_sdk.Types.Errors.{GoError}
use mesh_geth_sdk.Configuration.{Configuration}
use mesh_geth_sdk.Services.Client.{Client}
use mesh_geth_sdk.Client.Rewards.{Ethash}
use mesh_geth_sdk.Client.Sdk.{Library, SdkClient}
use mesh_geth_sdk.Client.Connect.{Dialer, new_client, get_trace_config}
use mesh_geth_sdk.Ethereum.Client.{Receipts, ethereum_client}
use mesh_geth_sdk.Ethereum.Config.{Params, load_configuration}
use mesh_geth_sdk.Ethereum.Config.Loaded.{Loads, load_configuration-Loads}
use mesh_geth_sdk.Bootstrap.{served_client, ethereum_served}

-- `log.Fatalln` on any error
abbrev pub or_fatal : {A : Type 0} → Result GoError A → Result GoError A
or_fatal (ok a) = ok a
or_fatal (err e) = crash
or_fatal crash = crash

or_fatal-eq-ok : {A : Type 0} (r : Result GoError A) {a : A} → or_fatal r ≡ ok a → r ≡ ok a
or_fatal-eq-ok (ok b) e = e
or_fatal-eq-ok (err x) e = cc
or_fatal-eq-ok crash e = cc

-- `LoadConfiguration` does not turn header forwarding on.
loaded-plain :
    (params : Params Ethash) (getenv : String → String) (cfg : Configuration) (chain : Ethash)
    → Loads params getenv cfg chain
    → cfg.rosetta_cfg.support_header_forwarding ≡ false
loaded-plain params getenv cfg chain
      (n, f, h1, h2, h3, h4, h5, h6, h7, h8, h9, h10, (b, known, made), h11) =
    ap (λ r. r.support_header_forwarding) made

module _ {Transport : Type 0} (dialer : Dialer Transport) (default_transport : Transport) where
  -- `NewEthereumClient`; nil for the transport stands for the default one.
  unfoldable pub new_ethereum_client : Configuration → Ethash → Result GoError SdkClient
  new_ethereum_client cfg chain = or_fatal (new_client dialer cfg chain none default_transport)

  -- `main`, up to the client that `BootStrap` makes the router with.
  unfoldable pub main :
      Params Ethash
      → (String → String)
      → Library
      → Receipts
      → Result GoError Unit
      → (List String → Result GoError Transport)
      → Result GoError Client
  main params getenv lib receipts asserter new_header_forwarder = do
    loaded ← or_fatal (load_configuration params getenv)
    ec ← new_ethereum_client loaded.0 loaded.1
    or_fatal (
        served_client asserter new_header_forwarder loaded.0
          (ethereum_served lib receipts dialer.new_rpc_client ec))

  new_client-config :
      (cfg : Configuration) (chain : Ethash) {ec : SdkClient}
      → new_client dialer cfg chain none default_transport ≡ ok ec
      → (ec.rosetta_config ≡ cfg.rosetta_cfg) × (ec.chain ≡ chain) × (ec.skip_admin_calls ≡ false)
  unfolding new_client
  new_client-config cfg chain e =
      let (dialed, h1, e1) = >>=-eq-ok (dialer.new_rpc_client cfg.geth_url default_transport) _ e in
      let (eth, h2, e2) = >>=-eq-ok (dialer.new_eth_client cfg.geth_url) _ e1 in
      let (tc, h3, e3) = >>=-eq-ok (map_err (get_trace_config _ _) _) _ e2 in
      (
        sym (ap (λ c. c.rosetta_config) (ok-injective e3)),
        sym (ap (λ c. c.chain) (ok-injective e3)),
        sym (ap (λ c. c.skip_admin_calls) (ok-injective e3)),
      )

  plain-served :
      (lib : Library) (receipts : Receipts) (asserter : Result GoError Unit)
      (new_header_forwarder : List String → Result GoError Transport) (cfg : Configuration)
      (ec : SdkClient) {c : Client}
      → cfg.rosetta_cfg.support_header_forwarding ≡ false
      → served_client asserter new_header_forwarder cfg
          (ethereum_served lib receipts dialer.new_rpc_client ec)
        ≡ ok c
      → c ≡ ethereum_client lib receipts ec
  unfolding served_client ethereum_served
  plain-served lib receipts asserter new_header_forwarder cfg ec plain e =
      let (asserted, h, e1) = >>=-eq-ok (map_err asserter _) _ e in
      sym (ok-injective (rw plain at e1))

  -- Where main starts the server, the environment is one that LoadConfiguration accepts, and the client
  -- that is served is the Ethereum client with the configuration and the chain made of it, never the bare
  -- SDK client; its skipAdminCalls is false.
  pub main-Loads :
      (params : Params Ethash) (getenv : String → String) (lib : Library) (receipts : Receipts)
      (asserter : Result GoError Unit)
      (new_header_forwarder : List String → Result GoError Transport) {c : Client}
      → main params getenv lib receipts asserter new_header_forwarder ≡ ok c
      → (cfg : Configuration) × (ec : SdkClient) × Loads params getenv cfg ec.chain
        × (ec.rosetta_config ≡ cfg.rosetta_cfg)
        × (ec.skip_admin_calls ≡ false)
        × (c ≡ ethereum_client lib receipts ec)
  unfolding main new_ethereum_client
  main-Loads params getenv lib receipts asserter new_header_forwarder e =
      let (loaded, h1, e1) = >>=-eq-ok (or_fatal (load_configuration params getenv)) _ e in
      let (ec, h2, e2) =
        >>=-eq-ok (or_fatal (new_client dialer loaded.0 loaded.1 none default_transport)) _ e1 in
      let loads =
        (load_configuration-Loads params getenv loaded.0 loaded.1).0
          (or_fatal-eq-ok (load_configuration params getenv) h1) in
      let (same_config, same_chain, no_skip) =
        new_client-config loaded.0 loaded.1 (or_fatal-eq-ok (new_client dialer _ _ _ _) h2) in
      let served =
        or_fatal-eq-ok
          (served_client asserter new_header_forwarder loaded.0
            (ethereum_served lib receipts dialer.new_rpc_client ec))
          e2 in
      (
        loaded.0,
        ec,
        subst (λ x. Loads params getenv loaded.0 x) (sym same_chain) loads,
        same_config,
        no_skip,
        plain-served lib receipts asserter new_header_forwarder loaded.0 ec
            (loaded-plain params getenv loaded.0 loaded.1 loads) served,
      )
