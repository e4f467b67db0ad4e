-- ===== src/Rosetta.antt =====
-- The data of the Rosetta API that the program fills and reads (github.com/coinbase/rosetta-sdk-go),
-- and the dynamic values that it keeps in metadata maps.
use mesh_geth_sdk.Base.{ℕ, String, Bool, Option, List}
use mesh_geth_sdk.Base.Dict.{Dict}

-- A value of Go's `interface{}`; `strings` is a `[]string`, `list` a `[]interface{}`.
mutual
  pub data Value : Type 0 where
    null : Value
    bool : Bool → Value
    num : ℕ → Value
    text : String → Value
    strings : List String → Value
    list : Values → Value

  pub data Values : Type 0 where
    nil : Values
    cons : Value → Values → Values

pub record Currency : Type 0 where
  pub symbol : String
  pub decimals : ℕ
  pub metadata : Dict Value

-- The value is a decimal text.
pub record Amount : Type 0 where
  pub value : String
  pub currency : Currency

-- `account` is the address of the account identifier, `related` the indices of the related
-- operations; an absent metadata map is an empty one.
pub record Operation : Type 0 where
  pub index : ℕ
  pub related : List ℕ
  pub type : String
  pub status : Option String
  pub account : Option String
  pub amount : Option Amount
  pub metadata : Dict Value

pub record BlockIdentifier : Type 0 where
  pub index : ℕ
  pub hash : String

pub record PartialBlockIdentifier : Type 0 where
  pub hash : Option String
  pub index : Option ℕ

-- `details` is the `context` entry of the details map.
pub record Error : Type 0 where
  pub code : ℕ
  pub message : String
  pub retriable : Bool
  pub details : Option String
