-- ===== src/Construction/Flow/Signed.antt =====
-- services/construction/: the signed transaction of `ConstructionCombine` in `ConstructionParse`.
use mesh_geth_sdk.Base.{ℕ, ℤ, pos, ◌≡◌, Option, none, some, List, ok, ◌>>=◌}
use mesh_geth_sdk.Geth.{Geth, Address}
use mesh_geth_sdk.Construction.Data.{
  Transaction, TxData, SignedTransactionWrapper, fields_of, eth_transaction,
}
use mesh_geth_sdk.Construction.Library.{Json, Signing}

-- A number that `NewTx` copies
abbrev pub or_zero : Option ℤ → ℤ
or_zero (some n) = n
or_zero none = pos 0

-- What the operations of a transaction are made of.
abbrev SameIntent : Transaction → Transaction → Type 0
SameIntent t u =
    (t.from ≡ u.from)
    × (t.to ≡ u.to)
    × (t.value ≡ u.value)
    × (t.call_data ≡ u.call_data)
    × (t.currency ≡ u.currency)

module _ {Blob Signed : Type 0} (json : Json Blob) (signing : Signing Blob Signed) where
  -- Documented behaviour of encoding/json and of go-ethereum: signed transactions, bare and wrapped, are
  -- read back from their texts, and a signed transaction has the receiver and the data of the one that was
  -- signed, and its value: `NewTx` copies the numbers, and makes a zero of one that is not given.
  pub record KeepsSigned : Type 0 where
    pub wrapper :
        (w : SignedTransactionWrapper Blob) (b : Blob)
        → json.marshal_wrapper w ≡ ok b
        → json.unmarshal_wrapper b ≡ ok w
    pub bare :
        (s : Signed) (b : Blob)
        → signing.marshal_signed s ≡ ok b
        → signing.unmarshal_signed b ≡ ok s
    pub contents :
        (chain_id : Option ℤ) (d : TxData) (signature : List ℕ) (s : Signed)
        → signing.with_signature chain_id d signature ≡ ok s
        → ((fields_of (signing.contents s)).to ≡ (fields_of d).to)
          × ((fields_of (signing.contents s)).call_data ≡ (fields_of d).call_data)
          × ((fields_of (signing.contents s)).value ≡ some (or_zero (fields_of d).value))

  -- The signature is by the account, which is what recovering the sender finds.
  abbrev pub IsSignedBy : Geth → Transaction → List ℕ → Address → Type 0
  IsSignedBy g tx signature account =
      (s : Signed)
      → signing.with_signature tx.chain_id (eth_transaction g tx) signature ≡ ok s
      → signing.sender s ≡ ok account
