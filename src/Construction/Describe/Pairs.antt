-- ===== src/Construction/Describe/Pairs.antt =====
-- services/construction/construction_service.go: what `CreateOperationDescription` accepts.
use mesh_geth_sdk.Base.{ℤ, String, ◌≡◌, ◌⊎◌, some, List, [], ◌∷◌}
use mesh_geth_sdk.Rosetta.{Currency, Value}
use mesh_geth_sdk.Base.Dict.{lookup}
use mesh_geth_sdk.Construction.Describe.{OperationDescription, negative_amount, positive_amount}

module _ (hash : Currency → String) (set_string : String → ℤ) (native : Currency) where
  -- One description of an operation that is debited, and one of an operation that is credited, both of the
  -- type and in the currency.
  abbrev pub Debits : String → Currency → List OperationDescription → Type 0
  Debits type currency ds =
      ds
      ≡ record { type = type; sign = negative_amount; currency = some currency }
        ∷ record { type = type; sign = positive_amount; currency = some currency }
        ∷ []

  -- The descriptions of a transfer in a currency: calls in the native currency, or transfers in that of a
  -- contract, which has its address in the metadata and nothing else.
  abbrev pub Describes : Currency → List OperationDescription → Type 0
  Describes currency ds =
      ((hash currency ≡ hash native) × Debits "CALL" native ds)
      ⊎ ((address : String) × (lookup "contractAddress" currency.metadata
            ≡ some (Value.text address))
          × Debits "ERC20_TRANSFER"
              (record {
                symbol = currency.symbol;
                decimals = currency.decimals;
                metadata = ("contractAddress", Value.text address) ∷ [];
              })
              ds)
