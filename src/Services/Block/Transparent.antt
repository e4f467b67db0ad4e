-- ===== src/Services/Block/Transparent.antt =====
-- services/block_service.go: populating transactions with the cache of token currencies, compared
-- with asking the node each time.
use mesh_geth_sdk.Base.{
  String, ◌≡◌, refl, sym, ap, ◌∙◌, Bool, true, false, Option, none, some, List, [], ◌∷◌, inl, inr,
  Result, ok, err, crash, if◌then◌else◌,
}
use mesh_geth_sdk.Rosetta.{Operation}
use mesh_geth_sdk.Geth.{Geth, Address, Address-eq}
use mesh_geth_sdk.Types.Errors.{GoError, wrapped}
use mesh_geth_sdk.Configuration.{Configuration}
use mesh_geth_sdk.Client.Data.{ContractCurrency, Log, LoadedTransaction, Token}
use mesh_geth_sdk.Services.Client.{Client}
use mesh_geth_sdk.Services.Block.Cache.{
  Cache, CacheLaws, Cached, continue, ◌>>=◌, lift, relabel, remember, answer,
  get_currency_from_node_or_cache,
}
use mesh_geth_sdk.Services.Block.Populate.{
  Codec, filtered_currency, unfiltered_currency, log_currency, append_erc20_ops, skips_log,
  log_step, log_loop, populate_with, populate_all,
}

-- Asking the node each time.
abbrev pub ask_node : Client → Address → String → Cached Unit ContractCurrency
ask_node c address key s = (c.get_contract_currency address true, s)

module _ {Store : Type 0} (cache : Cache Store) (laws : CacheLaws cache) (c : Client) where
  -- What the cache holds for a contract is what the node answers.
  abbrev pub IsSound : Store → Type 0
  IsSound s =
      (a : Address) (currency : ContractCurrency)
      → (cache.get a.hex s).0 ≡ some currency
      → c.get_contract_currency a true ≡ ok currency

  -- From a sound cache `m` gives what `n` gives, and leaves a sound cache.
  abbrev Agrees : {A : Type 0} → Cached Store A → Cached Unit A → Type 0
  Agrees m n = (s : Store) → IsSound s → ((m s).0 ≡ (n tt).0) × IsSound (m s).1

  Agrees-lift : {A : Type 0} (r : Result GoError A) → Agrees (lift r) (lift r)
  unfolding lift
  Agrees-lift r s h = (refl, h)

  continue-Agrees :
      {A B : Type 0} (r : Result GoError A) (f : A → Cached Store B) (f' : A → Cached Unit B)
      → ((a : A) → Agrees (f a) (f' a))
      → Agrees (continue r f) (continue r f')
  continue-Agrees (ok a) f f' k s h = k a s h
  continue-Agrees (err e) f f' k s h = (refl, h)
  continue-Agrees crash f f' k s h = (refl, h)

  Agrees-bind :
      {A B : Type 0} (m : Cached Store A) (n : Cached Unit A) (f : A → Cached Store B)
      (f' : A → Cached Unit B)
      → Agrees m n
      → ((a : A) → Agrees (f a) (f' a))
      → Agrees (m >>= f) (n >>= f')
  unfolding ◌>>=◌
  Agrees-bind m n f f' p k s h =
      let (same, sound) = p s h in
      let (result, sound') = continue-Agrees (m s).0 f f' k (m s).1 sound in
      (result ∙ ap (λ r. (continue r f' tt).0) same, sound')

  Agrees-relabel :
      {A : Type 0} (label : GoError → GoError) (m : Cached Store A) (n : Cached Unit A)
      → Agrees m n
      → Agrees (relabel label m) (relabel label n)
  unfolding relabel
  Agrees-relabel label m n p s h = let (same, sound) = p s h in (rw same refl, sound)

  Agrees-if :
      {A : Type 0} (b : Bool) (m m' : Cached Store A) (n n' : Cached Unit A)
      → Agrees m n
      → Agrees m' n'
      → Agrees (if b then m else m') (if b then n else n')
  Agrees-if true m m' n n' p q = p
  Agrees-if false m m' n n' p q = q

  remember-Agrees :
      (a : Address) (r : Result GoError ContractCurrency)
      → c.get_contract_currency a true ≡ r
      → Agrees (remember cache a.hex r) (λ s. (r, s))
  unfolding remember
  remember-Agrees a (ok d) e s h = (
    refl,
    λ b currency found. elim (laws.add_keeps a.hex b.hex d s currency found) [
      | inl (same, value) ↦
          ap (λ x. c.get_contract_currency x true) (sym (Address-eq same)) ∙ e ∙ ap ok value
      | inr before ↦ h b currency before
    ],
  )
  remember-Agrees a (err x) e s h = (refl, h)
  remember-Agrees a crash e s h = (refl, h)

  answer-Agrees :
      (a : Address) (o : Option ContractCurrency) (s : Store)
      → IsSound s
      → ((currency : ContractCurrency)
          → o ≡ some currency
          → c.get_contract_currency a true ≡ ok currency)
      → ((answer cache c a a.hex o s).0 ≡ c.get_contract_currency a true)
        × IsSound (answer cache c a a.hex o s).1
  unfolding answer
  answer-Agrees a none s h k = remember-Agrees a (c.get_contract_currency a true) refl s h
  answer-Agrees a (some currency) s h k = (sym (k currency refl), h)

  fetch-Agrees :
      (a : Address) → Agrees (get_currency_from_node_or_cache cache c a a.hex) (ask_node c a a.hex)
  unfolding get_currency_from_node_or_cache
  fetch-Agrees a s h =
      answer-Agrees a (cache.get a.hex s).0 (cache.get a.hex s).1
        (λ b currency found. h b currency (laws.get_keeps a.hex b.hex s currency found)) (h a)

  module _ (g : Geth) (config : Configuration) where
    abbrev cached : Address → String → Cached Store ContractCurrency
    cached = get_currency_from_node_or_cache cache c

    abbrev asked : Address → String → Cached Unit ContractCurrency
    asked = ask_node c

    filtered-Agrees :
        (a : Address) (o : Option Token)
        → Agrees (filtered_currency g config c cached a o) (filtered_currency g config c asked a o)
    unfolding filtered_currency
    filtered-Agrees a none = Agrees-lift (ok none)
    filtered-Agrees a (some token) =
        Agrees-if c.rosetta_config.use_token_white_list_metadata _ _ _ _
          (Agrees-bind _ _ _ _ (Agrees-lift _) (λ currency. Agrees-lift (ok (some currency))))
          (Agrees-bind _ _ _ _ (fetch-Agrees a) (λ currency. Agrees-lift (ok (some currency))))

    unfiltered-Agrees :
        (a : Address)
        → Agrees (unfiltered_currency g config c cached a) (unfiltered_currency g config c asked a)
    unfolding unfiltered_currency
    unfiltered-Agrees a = Agrees-bind _ _ _ _ (fetch-Agrees a) (λ currency. Agrees-lift _)

    log_currency-Agrees :
        (a : Address) → Agrees (log_currency g config c cached a) (log_currency g config c asked a)
    unfolding log_currency
    log_currency-Agrees a =
        Agrees-if c.rosetta_config.filter_tokens _ _ _ _ (filtered-Agrees a _) (unfiltered-Agrees a)

    append-Agrees :
        (log : Log) (ops : List Operation) (o : Option ContractCurrency)
        → Agrees
            (append_erc20_ops g config c cached log ops o)
            (append_erc20_ops g config c asked log ops o)
    unfolding append_erc20_ops
    append-Agrees log ops none = Agrees-lift (ok ops)
    append-Agrees log ops (some currency) =
        Agrees-bind _ _ _ _ (Agrees-lift _) (λ erc20. Agrees-lift _)

    log_step-Agrees :
        (log : Log) (ops : List Operation)
        → Agrees (log_step g config c cached log ops) (log_step g config c asked log ops)
    unfolding log_step skips_log
    log_step-Agrees log ops =
        Agrees-if (skips_log g config c cached log) _ _ _ _ (Agrees-lift (ok ops))
          (Agrees-bind _ _ _ _ (log_currency-Agrees log.address) (append-Agrees log ops))

    log_loop-Agrees :
        (logs : List Log) (ops : List Operation)
        → Agrees (log_loop g config c cached logs ops) (log_loop g config c asked logs ops)
    unfolding log_loop
    log_loop-Agrees [] ops = Agrees-lift (ok ops)
    log_loop-Agrees (log ∷ logs) ops =
        Agrees-bind _ _ _ _ (log_step-Agrees log ops) (λ more. log_loop-Agrees logs more)

    populate_with-Agrees :
        (codec : Codec) (tx : LoadedTransaction)
        → Agrees
            (populate_with g config c cached codec tx)
            (populate_with g config c asked codec tx)
    unfolding populate_with
    populate_with-Agrees codec tx = Agrees-bind _ _ _ _ (Agrees-lift _) λ parsed.
        Agrees-bind _ _ _ _ (log_loop-Agrees _ parsed) λ ops.
          Agrees-bind _ _ _ _ (Agrees-lift _) λ receipt_map.
            Agrees-bind _ _ _ _ (Agrees-lift _)
              λ traces. Agrees-bind _ _ _ _ (Agrees-lift _) λ hash. Agrees-lift _

    populate_all-ask_node :
        (codec : Codec) (txs : List LoadedTransaction)
        → Agrees
            (populate_all g config c cached codec txs)
            (populate_all g config c asked codec txs)
    unfolding populate_all
    populate_all-ask_node codec [] = Agrees-lift (ok [])
    populate_all-ask_node codec (tx ∷ txs) =
        Agrees-if tx.is_bridged_txn _ _ _ _ (populate_all-ask_node codec txs) (
          Agrees-bind _ _ _ _
            (Agrees-relabel (wrapped "cannot parse %s: ") _ _ (populate_with-Agrees codec tx))
            λ transaction.
              Agrees-bind _ _ _ _ (populate_all-ask_node codec txs) λ rest. Agrees-lift _)

    -- From a cache that holds only what the node answers, populating any transactions gives the
    -- transactions, or the error, that asking the node for every currency gives.
    pub populate_all-Agrees :
        (codec : Codec) (txs : List LoadedTransaction) (s : Store)
        → IsSound s
        → (populate_all g config c cached codec txs s).0
          ≡ (populate_all g config c asked codec txs tt).0
    populate_all-Agrees codec txs s sound = (populate_all-ask_node codec txs s sound).0

    -- After populating any transactions, whether that fails or not, from a cache that holds only what the
    -- node answers, every currency that is found in the cache is what the node answers.
    pub populate_all-IsSound :
        (codec : Codec) (txs : List LoadedTransaction) (s : Store)
        → IsSound s
        → (a : Address) (currency : ContractCurrency)
        → (cache.get a.hex (populate_all g config c cached codec txs s).1).0 ≡ some currency
        → c.get_contract_currency a true ≡ ok currency
    populate_all-IsSound codec txs s sound = (populate_all-ask_node codec txs s sound).1
