-- ===== src/Client/Mint.antt =====
-- `GetMint` of client/utils.go.
use mesh_geth_sdk.Base.{
  ℤ, pos, String, Option, none, some, Result, ok, ◌>>=◌, or_crash, if◌then◌else◌,
}
use mesh_geth_sdk.Base.Text.{is_empty}
use mesh_geth_sdk.Geth.{Hash}
use mesh_geth_sdk.Types.Errors.{GoError}
use mesh_geth_sdk.Client.Data.{LoadedTransaction}
use mesh_geth_sdk.Client.Node.{parse_hex}

-- `tx.Mint[2:]`
abbrev from_third : String → Option String
from_third (String.◌∷◌ c (String.◌∷◌ d s)) = some s
from_third _ = none

-- The message that is logged where the text is no number reads the hash of the transaction.
unfoldable pub mint_or_zero : Option Hash → Option ℤ → Result GoError ℤ
mint_or_zero tx_hash (some n) = ok n
mint_or_zero tx_hash none = do hash ← or_crash tx_hash; ok (pos 0)

unfoldable pub get_mint : LoadedTransaction → Result GoError ℤ
unfolding mint_or_zero
get_mint tx = if is_empty tx.mint then ok (pos 0) else (do
  hex_string ← or_crash (from_third tx.mint)
  mint_or_zero tx.tx_hash (parse_hex hex_string))
