-- ===== src/Client/Uncles.antt =====
-- client/client.go: `GetUncles` checks a header against the body of its block and loads the uncles.
pub mod Agreed
use mesh_geth_sdk.Base.{
  ℕ, ◌+◌, String, ◌=ₛ◌, Bool, true, false, not, ◌&&◌, Option, List, [], ◌∷◌, Result, ok, err, ◌>>=◌,
  or_err, if◌then◌else◌,
}
use mesh_geth_sdk.Geth.{Hash}
use mesh_geth_sdk.Types.Errors.{GoError, message}
use mesh_geth_sdk.Client.Data.{RpcBlock}
use mesh_geth_sdk.Services.Client.{Header}
use mesh_geth_sdk.Client.Node.{Rpc, Request, Arg}

abbrev pub is_nil {ℓ} : {A : Type ℓ} → List A → Bool
is_nil [] = true
is_nil (x ∷ xs) = false

-- A check that returns an error where the condition holds
abbrev pub reject : Bool → String → Result GoError Unit
reject true s = err (message s)
reject false s = ok tt

-- `empty_uncle_hash` and `empty_root_hash` are the constants of go-ethereum.
unfoldable pub verify_lists : Hash → Hash → Header → RpcBlock → Result GoError Unit
verify_lists empty_uncle_hash empty_root_hash head body = do
  a ←
      reject (head.uncle_hash.hex =ₛ empty_uncle_hash.hex && not (is_nil body.uncle_hashes))
        "server returned non-empty uncle list but block header indicates no uncles"
  b ←
      reject (not (head.uncle_hash.hex =ₛ empty_uncle_hash.hex) && is_nil body.uncle_hashes)
        "server returned empty uncle list but block header indicates uncles"
  c ←
      reject (head.tx_hash.hex =ₛ empty_root_hash.hex && not (is_nil body.transactions))
        "server returned non-empty Transaction list but block header indicates no transactions"
  reject (not (head.tx_hash.hex =ₛ empty_root_hash.hex) && is_nil body.transactions)
      "server returned empty Transaction list but block header indicates transactions"

-- The requests for the uncles, from an index on, one for each hash
unfoldable pub uncle_requests : Rpc → Hash → ℕ → List Hash → List Request
uncle_requests rpc block_hash i [] = []
uncle_requests rpc block_hash i (h ∷ rest) =
    ("eth_getUncleByBlockHashAndIndex", Arg.hash block_hash ∷ Arg.text (rpc.encode_uint64 i) ∷ [])
    ∷ uncle_requests rpc block_hash (i + 1) rest

-- The loop over the answers; an error comes first, then a nil header.
unfoldable pub uncles_answered :
    List (Result GoError (Option Header)) → Result GoError (List Header)
uncles_answered [] = ok []
uncles_answered (answer ∷ rest) = do
  answered ← answer
  uncle ← or_err answered (message "got null header for uncle %d of block %x")
  others ← uncles_answered rest
  ok (uncle ∷ others)

unfoldable pub load_uncles : Rpc → RpcBlock → Result GoError (List Header)
load_uncles rpc body = if is_nil body.uncle_hashes then ok [] else (do
  answers ← rpc.batch_headers (uncle_requests rpc body.hash 0 body.uncle_hashes)
  uncles_answered answers)

-- `GetUncles`
unfoldable pub get_uncles : Hash → Hash → Rpc → Header → RpcBlock → Result GoError (List Header)
get_uncles empty_uncle_hash empty_root_hash rpc head body = do
  verified ← verify_lists empty_uncle_hash empty_root_hash head body
  load_uncles rpc body
