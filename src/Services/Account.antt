-- ===== src/Services/Account.antt =====
-- services/account_service.go: the endpoints /account/balance and /account/coins.
use mesh_geth_sdk.Base.{String, Option, none, some, List, Result, ok, err, ◌>>=◌, map_err}
use mesh_geth_sdk.Rosetta.{Currency, PartialBlockIdentifier, Error}
use mesh_geth_sdk.Types.Errors.{
  wrapped, wrap_err, err_invalid_input, err_geth, err_internal_error, err_unimplemented,
}
use mesh_geth_sdk.Services.Client.{Client, AccountBalance}

pub record AccountBalanceRequest : Type 0 where
  pub account : Option String
  pub block_identifier : Option PartialBlockIdentifier
  pub currencies : List Currency

unfoldable pub balance_of : Client → String → AccountBalanceRequest → Result Error AccountBalance
unfolding wrap_err
balance_of c account request = do
  response ←
      map_err (c.balance account request.block_identifier request.currencies)
        (λ e. wrap_err err_geth (some e))
  hash ← map_err (c.get_block_hash response.block_identifier) (λ e.
      wrap_err err_internal_error
        (some (wrapped "could not get block hash given block identifier %v: " e)))
  ok (record response { block_identifier = record response.block_identifier { hash = hash } })

-- `AccountBalance`
unfoldable pub account_balance : Client → AccountBalanceRequest → Result Error AccountBalance
unfolding balance_of
account_balance c request = elim request.account [
  | none ↦ err err_invalid_input
  | some account ↦ balance_of c account request
]

-- `AccountCoins`
unfoldable pub account_coins : Result Error Unit
unfolding wrap_err
account_coins = err (wrap_err err_unimplemented none)
