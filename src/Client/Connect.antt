-- ===== src/Client/Connect.antt =====
-- `NewClient` of client/client.go and `GetTraceConfig` of client/tracer.go: how the SDK client is made. What
-- dials a node and what reads a file are arguments.
use mesh_geth_sdk.Base.{
  ◌==◌, String, Bool, true, false, Option, none, some, Result, ok, ◌>>=◌, map_err,
}
use mesh_geth_sdk.Types.Errors.{GoError, wrapped}
use mesh_geth_sdk.Configuration.{Configuration, geth_native_trace}
use mesh_geth_sdk.Client.Node.{Arg}
use mesh_geth_sdk.Client.Rewards.{Ethash}
use mesh_geth_sdk.Client.Sdk.{RpcClient, EthClient, SdkClient}

-- go-ethereum's `TraceConfig`, as far as it is filled in
pub record TraceConfig : Type 0 where
  pub timeout : String
  pub tracer : String

abbrev pub tracer_path : String
tracer_path = "client/call_tracer.js"

abbrev pub tracer_timeout : String
tracer_timeout = "120s"

abbrev pub native_tracer : String
native_tracer = "callTracer"

unfoldable pub load_trace_config : (String → Result GoError String) → Result GoError TraceConfig
load_trace_config read_file = do
  loaded_tracer ← map_err (read_file tracer_path) (wrapped "could not load tracer file: ")
  ok (record { timeout = tracer_timeout; tracer = loaded_tracer })

unfoldable pub get_trace_config :
    (String → Result GoError String) → Bool → Result GoError TraceConfig
get_trace_config read_file true = ok (record { timeout = tracer_timeout; tracer = native_tracer })
get_trace_config read_file false = load_trace_config read_file

-- `NewRPCClient`, `NewEthClient`, `os.ReadFile`, and the argument that a trace configuration becomes.
pub record Dialer (Transport : Type 0) : Type 0 where
  pub new_rpc_client : String → Transport → Result GoError RpcClient
  pub new_eth_client : String → Result GoError EthClient
  pub read_file : String → Result GoError String
  pub as_arg : TraceConfig → Arg

-- The RPC client that is given, or else the one that was dialed
abbrev chosen : RpcClient → Option RpcClient → RpcClient
chosen dialed none = dialed
chosen dialed (some given) = given

-- `NewClient`; the node is dialed also where an RPC client is given. `skipAdminCalls` keeps its zero value.
unfoldable pub new_client :
    {Transport : Type 0}
    → Dialer Transport
    → Configuration
    → Ethash
    → Option RpcClient
    → Transport
    → Result GoError SdkClient
new_client dialer cfg chain rpc_client transport = do
  dialed ← dialer.new_rpc_client cfg.geth_url transport
  ec ← dialer.new_eth_client cfg.geth_url
  tc ←
      map_err (get_trace_config dialer.read_file (cfg.rosetta_cfg.trace_type == geth_native_trace))
        (wrapped "unable to load trace config: ")
  let c = chosen dialed rpc_client
  ok (record {
    chain = chain;
    rosetta_config = cfg.rosetta_cfg;
    skip_admin_calls = false;
    rpc_client = record c { tracer = record c.tracer { trace_config = dialer.as_arg tc } };
    eth_client = ec;
  })
