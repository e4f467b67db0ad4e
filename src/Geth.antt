-- ===== src/Geth.antt =====
-- What the program takes from go-ethereum's `common` package, as parameters.
use mesh_geth_sdk.Base.{ℕ, String, ◌≡◌, Option, some, List}

-- `common.Address`, known by its EIP-55 text, which `Hex` and `String` give.
pub record Address : Type 0 where
  pub hex : String

-- `common.Hash`, known by the text that `Hex` and `String` give.
pub record Hash : Type 0 where
  pub hex : String

pub record Geth : Type 0 where
  -- `NewMixedcaseAddressFromString`, with the `Address()` of what it gives
  pub mixedcase_address : String → Option Address
  -- `HexToAddress`
  pub hex_to_address : String → Address
  -- `BytesToAddress`
  pub bytes_to_address : List ℕ → Address
  -- `Address.Bytes`
  pub address_bytes : Address → List ℕ
  -- the bytes of a `Hash`
  pub hash_bytes : Hash → List ℕ
  -- `BytesToHash(b).Big()`
  pub bytes_to_big : List ℕ → ℕ

-- Documented behaviour: the text of an address is a valid address text, of that address.
abbrev pub ReadsHex : Geth → Type 0
ReadsHex g = (a : Address) → g.mixedcase_address a.hex ≡ some a

-- Addresses with the same text are the same.
pub Address-eq : {a b : Address} → a.hex ≡ b.hex → a ≡ b
Address-eq p = λ i. record { hex = p i }
