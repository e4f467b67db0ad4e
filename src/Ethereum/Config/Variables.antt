-- ===== src/Ethereum/Config/Variables.antt =====
-- examples/ethereum/config/config.go: the variables that `LoadConfiguration` reads, one by one.
use mesh_geth_sdk.Base.{
  ◌≢◌, Option-cases, [], if◌then◌else◌, ℕ, zero, suc, ◌<◌, ◌^◌, ℤ, pos, negsuc, String, ◌=ₛ◌,
  eq_iff, Bool, true, false, Bool-cases, ◌≡◌, refl, sym, ap, ◌∙◌, ◌⊎◌, inl, inr, ◌↔◌, Option, none,
  some, ok, ok-injective, or_err-eq-ok, arith,
}
use mesh_geth_sdk.Base.Text.{is_empty, parse_bool}
use mesh_geth_sdk.Base.Decimal.{parse_ℤ}
use mesh_geth_sdk.Configuration.{Configuration, RosettaConfig, mode_online, mode_offline}
use mesh_geth_sdk.Ethereum.Config.{
  default_geth_url, rosetta_cfg_of, use_token_white_list_metadata_of, Params, Network, atoi,
  mode_of, skip_geth_admin_of, in_int64, positive, port_of, token_filter_of, network_of,
}

abbrev pub IsMode : String → Type 0
IsMode mode = (mode ≡ mode_online) ⊎ (mode ≡ mode_offline)

-- A port is a decimal number from 1 to 2^63 - 1.
abbrev pub IsPort : String → ℕ → Type 0
IsPort env port = (parse_ℤ env ≡ some (pos port)) × (0 < port) × (port < 2 ^ 63)

-- The flag is false where the variable is not set.
abbrev pub IsFlag : String → Bool → Type 0
IsFlag env flag = ((env ≡ "") × (flag ≡ false)) ⊎ (parse_bool env ≡ some flag)

-- The node that is connected to: the one of the variable, or a local one where that is not set.
abbrev pub IsUrl : String → Configuration → Type 0
IsUrl env c =
    ((env ≡ "") × (c.geth_url ≡ "http://127.0.0.1:8546") × (c.remote_geth ≡ false))
    ⊎ ((env ≢ "") × (c.geth_url ≡ env) × (c.remote_geth ≡ true))

-- Rewards and the native traces of geth, in ether; the rest is what the variables say, or off.
abbrev pub IsRosettaConfig : Bool → String → RosettaConfig → Type 0
IsRosettaConfig filter metadata r =
    (use_metadata : Bool) × ((parse_bool metadata ≡ some use_metadata)
      ⊎ ((parse_bool metadata ≡ none) × (use_metadata ≡ false)))
    × (r ≡ record {
      support_reward_tx = true;
      trace_type = 0;
      supports_syncing = false;
      supports_peering = false;
      supports_block_author = false;
      supports_eip1559 = false;
      supports_op_stack = false;
      currency = record { symbol = "ETH"; decimals = 18; metadata = [] };
      trace_prefix = "";
      ingestion_mode = "";
      index_unknown_tokens = false;
      filter_tokens = filter;
      token_white_list = [];
      use_token_white_list_metadata = use_metadata;
      default_block_number = "";
      base_fee_floor = none;
      base_fee_multiplier = none;
      priority_fee_divisor = none;
      support_customized_trace_config = false;
      support_customized_block_body = false;
      support_header_forwarding = false;
      forward_headers = [];
    })

pub mode_of-IsMode :
    (env : String) {mode : String} → mode_of env ≡ ok mode → (mode ≡ env) × IsMode env
unfolding mode_of
mode_of-IsMode env e = ground (arith, eq_iff env mode_online, eq_iff env mode_offline)

pub IsMode-mode_of : (env : String) → IsMode env → mode_of env ≡ ok env
unfolding mode_of
IsMode-mode_of env (inl e) = rw e refl
IsMode-mode_of env (inr e) = rw e refl

is_empty-eq : (s : String) → is_empty s ≡ true → s ≡ ""
is_empty-eq String.[] e = refl
is_empty-eq (String.◌∷◌ c s) e = cc

pub skip_geth_admin_of-IsFlag :
    (env : String) {flag : Bool} → skip_geth_admin_of env ≡ ok flag → IsFlag env flag
unfolding skip_geth_admin_of
skip_geth_admin_of-IsFlag env e = elim (Bool-cases (is_empty env)) [
  | inl empty ↦ inl (is_empty-eq env empty, sym (ok-injective (rw empty at e)))
  | inr full ↦ inr (or_err-eq-ok (parse_bool env) _ (rw full at e))
]

pub IsFlag-skip_geth_admin_of :
    (env : String) {flag : Bool} → IsFlag env flag → skip_geth_admin_of env ≡ ok flag
unfolding skip_geth_admin_of parse_bool
IsFlag-skip_geth_admin_of env (inl (e, f)) = rw (e, f) refl
IsFlag-skip_geth_admin_of String.[] (inr e) = cc
IsFlag-skip_geth_admin_of (String.◌∷◌ c s) (inr e) = rw e refl

positive-in_int64 :
    (read : Option ℤ) {port : ℕ}
    → positive (in_int64 read) ≡ ok port
    → (read ≡ some (pos port)) × (0 < port) × (port < 2 ^ 63)
positive-in_int64 none e = cc
positive-in_int64 (some (pos zero)) e = cc
positive-in_int64 (some (pos (suc n))) e = ground arith
positive-in_int64 (some (negsuc n)) e = ground arith

small-positive :
    (port : ℕ) → 0 < port → port < 2 ^ 63 → positive (in_int64 (some (pos port))) ≡ ok port
small-positive zero h small = absurd (omega arith)
small-positive (suc n) h small = ground arith

pub port_of-IsPort : (env : String) {port : ℕ} → port_of env ≡ ok port → IsPort env port
unfolding port_of atoi
port_of-IsPort env e = elim (Bool-cases (is_empty env)) [
  | inl empty ↦ cc (rw empty at e)
  | inr full ↦ positive-in_int64 (parse_ℤ env) (rw full at e)
]

pub IsPort-port_of : (env : String) {port : ℕ} → IsPort env port → port_of env ≡ ok port
unfolding port_of atoi parse_ℤ
IsPort-port_of String.[] (e, positive, small) = cc
IsPort-port_of (String.◌∷◌ c s) {port} (e, positive, small) =
    rw e (small-positive port positive small)

pub token_filter_of-parse_bool :
    (env : String) {flag : Bool} → (token_filter_of env ≡ ok flag) ↔ (parse_bool env ≡ some flag)
unfolding token_filter_of
token_filter_of-parse_bool env = (λ e. or_err-eq-ok (parse_bool env) _ e, λ e. rw e refl)

use_metadata-eq :
    (env : String) (b : Bool)
    → (parse_bool env ≡ some b) ⊎ ((parse_bool env ≡ none) × (b ≡ false))
    → use_token_white_list_metadata_of env ≡ b
unfolding use_token_white_list_metadata_of parse_bool
use_metadata-eq String.[] b (inl e) = cc
use_metadata-eq String.[] b (inr (e, f)) = sym f
use_metadata-eq (String.◌∷◌ c s) b (inl e) = rw e refl
use_metadata-eq (String.◌∷◌ c s) b (inr (e, f)) = rw (e, f) refl

use_metadata-of :
    (env : String)
    → (parse_bool env ≡ some (use_token_white_list_metadata_of env))
      ⊎ ((parse_bool env ≡ none) × (use_token_white_list_metadata_of env ≡ false))
use_metadata-of env = elim (Option-cases (parse_bool env)) [
  | inl e ↦ inr (e, use_metadata-eq env false (inr (e, refl)))
  | inr (b, e) ↦ inl (e ∙ ap some (sym (use_metadata-eq env b (inl e))))
]

pub IsRosettaConfig-of :
    (filter : Bool) (env : String)
    → IsRosettaConfig filter env (rosetta_cfg_of filter (use_token_white_list_metadata_of env))
unfolding rosetta_cfg_of
IsRosettaConfig-of filter env = (use_token_white_list_metadata_of env, use_metadata-of env, refl)

pub IsRosettaConfig-eq :
    (filter : Bool) (env : String) (r : RosettaConfig)
    → IsRosettaConfig filter env r
    → rosetta_cfg_of filter (use_token_white_list_metadata_of env) ≡ r
unfolding rosetta_cfg_of
IsRosettaConfig-eq filter env r (b, known, made) =
    ap (λ b. rosetta_cfg_of filter b) (use_metadata-eq env b known) ∙ sym made

-- The fields of the node that is connected to, as they are made.
abbrev url_of : String → String
url_of env = if is_empty env then default_geth_url else env

abbrev is_remote : String → Bool
is_remote env = if is_empty env then false else true

pub IsUrl-of :
    (env : String) (c : Configuration)
    → c.geth_url ≡ url_of env
    → c.remote_geth ≡ is_remote env
    → IsUrl env c
IsUrl-of String.[] c u r = inl (refl, u, r)
IsUrl-of (String.◌∷◌ x s) c u r = inr (λ e. cc, u, r)

pub IsUrl-eq :
    (env : String) (c : Configuration)
    → IsUrl env c
    → (url_of env ≡ c.geth_url) × (is_remote env ≡ c.remote_geth)
IsUrl-eq env c (inl (e, u, r)) = rw e (sym u, sym r)
IsUrl-eq String.[] c (inr (full, u, r)) = absurd (full refl)
IsUrl-eq (String.◌∷◌ x s) c (inr (full, u, r)) = (sym u, sym r)

module _ {Chain : Type 0} (params : Params Chain) where
  abbrev pub IsNetwork : String → Network Chain → Type 0
  IsNetwork env network =
      ((env ≡ "MAINNET")
        × (network ≡ record {
          identifier = record { blockchain = "Ethereum"; network = "Mainnet" };
          genesis_block_identifier = record { index = 0; hash = params.mainnet_genesis_hash.hex };
          chain_config = params.mainnet_chain_config;
          geth_arguments = "--config=/app/ethereum/geth.toml --gcmode=archive --graphql";
        }))
      ⊎ ((env ≡ "GOERLI")
          × (network ≡ record {
            identifier = record { blockchain = "Ethereum"; network = "Goerli" };
            genesis_block_identifier = record { index = 0; hash = params.goerli_genesis_hash.hex };
            chain_config = params.goerli_chain_config;
            geth_arguments = "--config=/app/ethereum/geth.toml --gcmode=archive --graphql --goerli";
          }))
      ⊎ ((env ≡ "SEPOLIA")
          × (network ≡ record {
            identifier = record { blockchain = "Ethereum"; network = "Sepolia" };
            genesis_block_identifier = record { index = 0; hash = params.sepolia_genesis_hash.hex };
            chain_config = params.sepolia_chain_config;
            geth_arguments =
                "--config=/app/ethereum/geth.toml --gcmode=archive --graphql --sepolia";
          }))

  pub network_of-IsNetwork :
      (env : String) {network : Network Chain}
      → network_of params env ≡ ok network
      → IsNetwork env network
  unfolding network_of
  network_of-IsNetwork env e = elim (Bool-cases (env =ₛ "MAINNET")) [
    | inl m ↦ inl ((eq_iff env "MAINNET").0 m, sym (ok-injective (rw m at e)))
    | inr not_m ↦ elim (Bool-cases (env =ₛ "GOERLI")) [
      | inl g ↦ inr (inl ((eq_iff env "GOERLI").0 g, sym (ok-injective (rw (not_m, g) at e))))
      | inr not_g ↦ elim (Bool-cases (env =ₛ "SEPOLIA")) [
        | inl s ↦
            inr (inr ((eq_iff env "SEPOLIA").0 s, sym (ok-injective (rw (not_m, not_g, s) at e))))
        | inr not_s ↦ cc (rw (not_m, not_g, not_s) at e)
      ]
    ]
  ]

  pub IsNetwork-network_of :
      (env : String) {network : Network Chain}
      → IsNetwork env network
      → network_of params env ≡ ok network
  unfolding network_of
  IsNetwork-network_of env (inl (e, n)) = rw (e, n) refl
  IsNetwork-network_of env (inr (inl (e, n))) = rw (e, n) refl
  IsNetwork-network_of env (inr (inr (e, n))) = rw (e, n) refl
