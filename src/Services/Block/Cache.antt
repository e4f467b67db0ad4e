-- ===== src/Services/Block/Cache.antt =====
-- The cache of token currencies, `getCurrencyFromNodeOrCache`, and actions that use the cache: what
-- an action has put into it stays there, also when the action fails.
use mesh_geth_sdk.Base.{String, ◌≡◌, true, Option, none, some, ◌⊎◌, Result, ok, err, crash, map_err}
use mesh_geth_sdk.Geth.{Address}
use mesh_geth_sdk.Types.Errors.{GoError}
use mesh_geth_sdk.Client.Data.{ContractCurrency}
use mesh_geth_sdk.Services.Client.{Client}

-- `lru.Cache` of hashicorp/golang-lru: `Get` may reorder the entries, `Add` may evict one.
pub record Cache (Store : Type 0) : Type 0 where
  pub get : String → Store → Option ContractCurrency × Store
  pub add : String → ContractCurrency → Store → Store

-- Documented behaviour: a key that is found was there before, or was added with that value.
pub record CacheLaws {Store : Type 0} (cache : Cache Store) : Type 0 where
  pub get_keeps :
      (j k : String) (s : Store) (c : ContractCurrency)
      → (cache.get k (cache.get j s).1).0 ≡ some c
      → (cache.get k s).0 ≡ some c
  pub add_keeps :
      (j k : String) (d : ContractCurrency) (s : Store) (c : ContractCurrency)
      → (cache.get k (cache.add j d s)).0 ≡ some c
      → ((j ≡ k) × (d ≡ c)) ⊎ ((cache.get k s).0 ≡ some c)

abbrev pub Cached : Type 0 → Type 0 → Type 0
Cached Store A = Store → Result GoError A × Store

module _ {Store A B : Type 0} where
  abbrev pub continue : Result GoError A → (A → Cached Store B) → Cached Store B
  continue (ok a) f s = f a s
  continue (err e) f s = (err e, s)
  continue crash f s = (crash, s)

  infixl 5 ◌>>=◌
  unfoldable pub ◌>>=◌ : Cached Store A → (A → Cached Store B) → Cached Store B
  ◌>>=◌ m f s = continue (m s).0 f (m s).1

module _ {Store A : Type 0} where
  unfoldable pub lift : Result GoError A → Cached Store A
  lift r s = (r, s)

  -- `fmt.Errorf` around the error of an action
  unfoldable pub relabel : (GoError → GoError) → Cached Store A → Cached Store A
  relabel f m s = (map_err (m s).0 f, (m s).1)

module _ {Store : Type 0} where
  -- `s.currencyCache.Add(addressStr, currency)`, where the node has answered.
  unfoldable pub remember :
      Cache Store → String → Result GoError ContractCurrency → Cached Store ContractCurrency
  remember cache key (ok currency) s = (ok currency, cache.add key currency s)
  remember cache key (err e) s = (err e, s)
  remember cache key crash s = (crash, s)

  unfoldable pub answer :
      Cache Store
      → Client
      → Address
      → String
      → Option ContractCurrency
      → Cached Store ContractCurrency
  answer cache c address key (some currency) s = (ok currency, s)
  answer cache c address key none s = remember cache key (c.get_contract_currency address true) s

  unfoldable pub get_currency_from_node_or_cache :
      Cache Store → Client → Address → String → Cached Store ContractCurrency
  get_currency_from_node_or_cache cache c address key s =
      answer cache c address key (cache.get key s).0 (cache.get key s).1
