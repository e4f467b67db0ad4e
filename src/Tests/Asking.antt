-- ===== src/Tests/Asking.antt =====
-- The theorems on what the SDK client asks of a node, at a toy node that answers each request alike.
use mesh_geth_sdk.Base.{
  ℕ, ◌≤◌, ◌≡◌, refl, pos, signed64, String, Bool, true, Option, none, some, List, [], ◌∷◌, map,
  get_elem?, Result, ok, arith, length, ap, suc, ok-injective,
}
use mesh_geth_sdk.Client.Uncles.{
  verify_lists, uncle_requests, uncles_answered, load_uncles, get_uncles,
}
use mesh_geth_sdk.Client.Uncles.Agreed.{Fetches, AnswersEach, Agree, get_uncles-Agree}
use mesh_geth_sdk.Rosetta.{Currency, Value}
use mesh_geth_sdk.Types.{native_currency}
use mesh_geth_sdk.Geth.{Hash}
use mesh_geth_sdk.Types.Errors.{GoError}
use mesh_geth_sdk.Client.Data.{RpcBlock}
use mesh_geth_sdk.Services.Client.{AccountBalance, Header}
use mesh_geth_sdk.Client.Node.{
  Request, Rpc, Arg, block_header, decode_hex_data, parse_hex, hex_natural, hex_value, hex_digit,
  header_request, default_header_request,
}
use mesh_geth_sdk.Base.Text.{slice}
use mesh_geth_sdk.Base.Decimal.{show_ℤ}
use mesh_geth_sdk.Client.Utils.{erc20_currency, has_0x_prefix}
use mesh_geth_sdk.Client.Balance.{
  amount_of, both_answers, identifier_address, balance, balances_of, balances_loop, balance_in,
  token_balance,
}
use mesh_geth_sdk.Client.Balance.Answer.{Answers, balance-Balances}
use mesh_geth_sdk.Client.Tracing.{Tracer}
use mesh_geth_sdk.Client.Tracing.Permits.{
  max_trace_concurrency, waiting, tracing, System, acquire, Reach, here, next, running,
}
use mesh_geth_sdk.Client.Tracing.Permits.Served.{Ask, traces_of, serve, Reach-served}
use mesh_geth_sdk.Tests.Setting.{rosetta_config, toy_header, unanswered}

abbrev pub plain_hash : Hash
plain_hash = record { hex = "0x7" }

-- A balance of 1000, a nonce of 9, and 0x20 of every token
abbrev pub toy_rpc : Rpc
toy_rpc = record {
  call_header = λ r. ok (some toy_header);
  call_text = λ r. ok "0x20";
  batch_numbers = λ rs. ok (ok 1000 ∷ ok 9 ∷ []);
  batch_headers = λ rs. ok [];
  encode_big = λ n. "0x6";
  encode_uint64 = λ n. "0x6";
  hex_to_hash = λ s. plain_hash;
  header_hash = λ h. plain_hash;
}

abbrev token : Currency
token = record {
  symbol = "USDC";
  decimals = 6;
  metadata = ("contractAddress", Value.text "0xc") ∷ [];
}

abbrev owner : String
owner = "0x1111111111111111111111111111111111111111"

abbrev pub same_currency : Currency → Currency → Bool
same_currency a b = true

abbrev toy_balance : AccountBalance
toy_balance = record {
  balances = amount_of (pos 1000) native_currency ∷ amount_of (pos 32) token ∷ [];
  block_identifier = record { index = 5; hash = "0x7" };
  nonce = pos 9;
}

balance_answered :
    balance toy_rpc rosetta_config same_currency owner none (native_currency ∷ token ∷ [])
    ≡ ok toy_balance
unfolding balance block_header both_answers balances_of balances_loop balance_in token_balance
    identifier_address decode_hex_data parse_hex hex_natural hex_value hex_digit header_request
    default_header_request erc20_currency has_0x_prefix slice show_ℤ mesh_geth_sdk.Base.Dict.lookup
    mesh_geth_sdk.Construction.Describe.text_of mesh_geth_sdk.Base.Text.has_prefix
balance_answered = refl

balance-Balances_example :
    Answers toy_rpc rosetta_config same_currency owner none
      (native_currency ∷ token ∷ [])
      toy_balance
balance-Balances_example =
    balance-Balances toy_rpc rosetta_config same_currency owner none (native_currency ∷ token ∷ [])
      balance_answered

-- One of two requests runs, which the node will not answer.
abbrev pub toy_tracer : Tracer
toy_tracer = record {
  call_raw = λ r. unanswered;
  unmarshal_calls = λ s. ok [];
  unmarshal_call = λ s. ok none;
  unmarshal_results = λ s. ok [];
  unmarshal_result = λ s. ok none;
  trace_config = Arg.flag true;
  customized_trace_config = Arg.flag true;
}

abbrev asks : List Ask
asks = (plain_hash, []) ∷ (plain_hash, []) ∷ []

abbrev busy : System Ask
busy = record { held = 1; stages = waiting (plain_hash, []) ∷ tracing (plain_hash, []) ∷ [] }

Reach-served_example :
    (running busy.stages ≤ max_trace_concurrency)
    × (busy.held ≡ running busy.stages)
    × Reach (traces_of toy_tracer rosetta_config) busy (record {
      held = 0;
      stages = map (serve (traces_of toy_tracer rosetta_config)) busy.stages;
    })
Reach-served_example = Reach-served toy_tracer rosetta_config asks {s = busy} (
    next here (acquire (waiting (plain_hash, []) ∷ []) [] (plain_hash, []) refl (omega arith) refl))

-- A node that has a header for every uncle
abbrev uncle_rpc : Rpc
uncle_rpc = record toy_rpc { batch_headers = λ rs. ok (map (λ r. ok (some toy_header)) rs) }

length-answers :
    (rs : List Request)
    → length (map {B = Result GoError (Option Header)} (λ r. ok (some toy_header)) rs) ≡ length rs
length-answers [] = refl
length-answers (r ∷ rs) = ap suc (length-answers rs)

uncle_rpc-AnswersEach : AnswersEach uncle_rpc
uncle_rpc-AnswersEach rs answers e = rw (← ok-injective e) (length-answers rs)

abbrev uncle_body : RpcBlock
uncle_body = record {
  hash = record { hex = "0xblock" };
  transactions = [];
  uncle_hashes = plain_hash ∷ plain_hash ∷ [];
}

uncles_loaded :
    get_uncles plain_hash (record { hex = "0xroot" }) uncle_rpc toy_header uncle_body
    ≡ ok (toy_header ∷ toy_header ∷ [])
unfolding get_uncles verify_lists load_uncles uncle_requests uncles_answered
uncles_loaded = refl

get_uncles-Agree_example :
    (length (toy_header ∷ toy_header ∷ []) ≡ 2)
    × Fetches uncle_rpc uncle_body (toy_header ∷ toy_header ∷ [])
    × Agree toy_header.uncle_hash plain_hash uncle_body.uncle_hashes
    × Agree toy_header.tx_hash (record { hex = "0xroot" }) uncle_body.transactions
get_uncles-Agree_example =
    get_uncles-Agree plain_hash (record { hex = "0xroot" }) uncle_rpc toy_header uncle_body
      uncle_rpc-AnswersEach uncles_loaded
