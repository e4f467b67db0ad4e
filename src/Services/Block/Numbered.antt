-- ===== src/Services/Block/Numbered.antt =====
-- services/block_service.go: the transactions and operations that `populateTransactions` makes.
use mesh_geth_sdk.Base.{
  map_err-eq-ok, ◌+◌, append-nil, append_assoc, length-append, ◌∙◌, String, ◌≡◌, refl, sym, ap,
  Bool, true, false, Option, none, some, List, [], ◌∷◌, ◌++◌, Result, ok, err, crash, arith, length,
  if◌then◌else◌, ok-injective, or_crash, or_crash-eq-ok,
}
use mesh_geth_sdk.Rosetta.{Operation}
use mesh_geth_sdk.Geth.{Geth, Address, Hash}
use mesh_geth_sdk.Types.Errors.{GoError, wrapped}
use mesh_geth_sdk.Configuration.{Configuration}
use mesh_geth_sdk.Client.Data.{ContractCurrency, Log, LoadedTransaction}
use mesh_geth_sdk.Services.Client.{Client, Transaction}
use mesh_geth_sdk.Mapper.Operations.{IsIndexed, IsIndexed-append}
use mesh_geth_sdk.Mapper.Erc20.{erc20_ops}
use mesh_geth_sdk.Mapper.Erc20.Supply.{erc20_ops-IsIndexed}
use mesh_geth_sdk.Services.Block.Cache.{Cached, continue, ◌>>=◌, lift, relabel}
use mesh_geth_sdk.Services.Block.Populate.{
  Codec, receipt_logs, trace_maps, log_currency, append_erc20_ops, skips_log, log_step, log_loop,
  populate_with, populate_all,
}

-- Whatever the state, what `m` gives has the property `P`.
abbrev pub Gives : {Store A : Type 0} → (A → Type 0) → Cached Store A → Type 0
Gives {Store} {A} P m = (s : Store) (a : A) → (m s).0 ≡ ok a → P a

continue-Gives :
    {Store A B : Type 0} (P : B → Type 0) (r : Result GoError A) (f : A → Cached Store B)
    → ((a : A) → r ≡ ok a → Gives P (f a))
    → Gives P (continue r f)
continue-Gives P (ok a) f k s b e = k a refl s b e
continue-Gives P (err x) f k s b e = cc
continue-Gives P crash f k s b e = cc

pub Gives-bind :
    {Store A B : Type 0} (P : A → Type 0) (Q : B → Type 0) (m : Cached Store A)
    (f : A → Cached Store B)
    → Gives P m
    → ((a : A) → P a → Gives Q (f a))
    → Gives Q (m >>= f)
unfolding ◌>>=◌
Gives-bind P Q m f h k s = continue-Gives Q (m s).0 f (λ a e. k a (h s a e)) (m s).1

pub Gives-lift :
    {Store A : Type 0} (P : A → Type 0) (r : Result GoError A)
    → ((a : A) → r ≡ ok a → P a)
    → Gives {Store = Store} P (lift r)
unfolding lift
Gives-lift P r h s a e = h a e

Gives-relabel :
    {Store A : Type 0} (P : A → Type 0) (label : GoError → GoError) (m : Cached Store A)
    → Gives P m
    → Gives P (relabel label m)
unfolding relabel
Gives-relabel P label m h s a e = h s a (map_err-eq-ok (m s).0 label e)

-- A property with a parameter that the test chooses, too.
pub Gives-if :
    {Store A : Type 0} {X : Type 0} (P : X → A → Type 0) (b : Bool) (x y : X) (m n : Cached Store A)
    → Gives (P x) m
    → Gives (P y) n
    → Gives (P (if b then x else y)) (if b then m else n)
Gives-if P true x y m n h k = h
Gives-if P false x y m n h k = k

if-same : {A : Type 0} (b : Bool) (a : A) → (if b then a else a) ≡ a
if-same true a = refl
if-same false a = refl

ok-carry :
    {E A : Type 0} (P : A → Type 0) {t a : A} → ◌≡◌ {A = Result E A} (ok t) (ok a) → P t → P a
ok-carry P e h = rw (← ok-injective e) h

-- The loaded transactions that become Rosetta transactions.
abbrev pub kept : List LoadedTransaction → List LoadedTransaction
kept [] = []
kept (tx ∷ txs) = if tx.is_bridged_txn then kept txs else tx ∷ kept txs

abbrev pub hash_text : Option Hash → Option String
hash_text none = none
hash_text (some hash) = some hash.hex

-- Operations that begin with those that were parsed, and go on with more, which count up from there.
abbrev pub Extends : List Operation → List Operation → Type 0
Extends parsed ops =
    (more : List Operation) × (ops ≡ parsed ++ more) × IsIndexed (length parsed) more

Extends-self : (parsed : List Operation) → Extends parsed parsed
Extends-self parsed = ([], sym (append-nil parsed), tt)

Extends-append :
    (parsed ops more : List Operation)
    → Extends parsed ops
    → IsIndexed (length ops) more
    → Extends parsed (ops ++ more)
Extends-append parsed ops more (extra, made, h) k =
    let counted : length ops ≡ length parsed + length extra =
      ap length made ∙ length-append parsed extra in
    (
      extra ++ more,
      ap (λ l. l ++ more) made ∙ append_assoc parsed extra more,
      IsIndexed-append (length parsed) extra more h (rw (← counted) k),
    )

pub Extends-IsIndexed :
    (parsed ops : List Operation) → IsIndexed 0 parsed → Extends parsed ops → IsIndexed 0 ops
Extends-IsIndexed parsed ops h (more, made, k) =
    let none_before : 0 + length parsed ≡ length parsed = omega arith in
    rw made (IsIndexed-append 0 parsed more h (rw none_before k))

-- The transaction carries the hash of the loaded one, and its operations are those that the chain parses
-- out of it, with others after them, which count up from there.
abbrev pub Mirrors : Client → LoadedTransaction → Transaction → Type 0
Mirrors c tx t =
    (hash_text tx.tx_hash ≡ some t.hash)
    × ((parsed : List Operation) × (c.parse_ops tx ≡ ok parsed) × Extends parsed t.operations)

-- One transaction for each loaded one, in the same order.
abbrev pub AllMirror : Client → List LoadedTransaction → List Transaction → Type 0
AllMirror c [] ts = ts ≡ []
AllMirror c (tx ∷ txs) ts =
    (t : Transaction) × (rest : List Transaction) × (ts ≡ t ∷ rest)
    × Mirrors c tx t
    × AllMirror c txs rest

module _ {Store : Type 0} (g : Geth) (config : Configuration) (c : Client)
    (fetch : Address → String → Cached Store ContractCurrency) where
  append-Gives :
      (parsed : List Operation) (log : Log) (ops : List Operation) (o : Option ContractCurrency)
      → Extends parsed ops
      → Gives (Extends parsed) (append_erc20_ops g config c fetch log ops o)
  unfolding append_erc20_ops
  append-Gives parsed log ops none h =
      Gives-lift (Extends parsed) (ok ops) (λ a e. rw (← ok-injective e) h)
  append-Gives parsed log ops (some currency) h =
      Gives-bind (IsIndexed (length ops)) (Extends parsed)
        (lift (erc20_ops g log currency (length ops))) (λ erc20. lift (ok (ops ++ erc20)))
        (Gives-lift _ _ (λ a e. erc20_ops-IsIndexed g log currency (length ops) e))
        (λ erc20 k.
          Gives-lift (Extends parsed) (ok (ops ++ erc20))
            (λ a e. ok-carry (Extends parsed) e (Extends-append parsed ops erc20 h k)))

  log_step-Gives :
      (parsed : List Operation) (log : Log) (ops : List Operation)
      → Extends parsed ops
      → Gives (Extends parsed) (log_step g config c fetch log ops)
  unfolding log_step skips_log
  log_step-Gives parsed log ops h =
      Gives-if (λ _. Extends parsed) (skips_log g config c fetch log) tt tt _ _
        (Gives-lift (Extends parsed) (ok ops) (λ a e. rw (← ok-injective e) h))
        (Gives-bind (λ _. Unit) (Extends parsed) (log_currency g config c fetch log.address) _
          (λ s a e. tt) (λ o u. append-Gives parsed log ops o h))

  log_loop-Gives :
      (parsed : List Operation) (logs : List Log) (ops : List Operation)
      → Extends parsed ops
      → Gives (Extends parsed) (log_loop g config c fetch logs ops)
  unfolding log_loop
  log_loop-Gives parsed [] ops h =
      Gives-lift (Extends parsed) (ok ops) (λ a e. rw (← ok-injective e) h)
  log_loop-Gives parsed (log ∷ logs) ops h =
      Gives-bind (Extends parsed) (Extends parsed) (log_step g config c fetch log ops) _
        (log_step-Gives parsed log ops h) (λ more k. log_loop-Gives parsed logs more k)

  pub populate_with-Mirrors :
      (codec : Codec) (tx : LoadedTransaction)
      → Gives (Mirrors c tx) (populate_with g config c fetch codec tx)
  unfolding populate_with
  populate_with-Mirrors codec tx =
      Gives-bind (λ parsed. c.parse_ops tx ≡ ok parsed) (Mirrors c tx) (lift (c.parse_ops tx)) _
        (Gives-lift _ (c.parse_ops tx) (λ parsed e. e))
        λ parsed h.
          Gives-bind (Extends parsed) (Mirrors c tx)
            (log_loop g config c fetch (receipt_logs tx.receipt) parsed) _
            (log_loop-Gives parsed _ parsed (Extends-self parsed))
            λ ops k.
              Gives-bind (λ _. Unit) (Mirrors c tx) (lift (codec.receipt_map tx.receipt)) _
                (λ s a e. tt)
                λ receipt_map u.
                  Gives-bind (λ _. Unit) (Mirrors c tx) (lift (trace_maps codec tx.trace)) _
                    (λ s a e. tt)
                    λ traces u.
                      Gives-bind (λ hash. tx.tx_hash ≡ some hash) (Mirrors c tx)
                        (lift (or_crash tx.tx_hash)) _
                        (Gives-lift _ (or_crash tx.tx_hash) (λ hash e. or_crash-eq-ok tx.tx_hash e))
                        λ hash same.
                          Gives-lift (Mirrors c tx) _
                            (λ a e. ok-carry (Mirrors c tx) e (ap hash_text same, (parsed, h, k)))

  pub populate_all-Mirrors :
      (codec : Codec) (txs : List LoadedTransaction)
      → Gives (AllMirror c (kept txs)) (populate_all g config c fetch codec txs)
  unfolding populate_all
  populate_all-Mirrors codec [] = Gives-lift (AllMirror c []) (ok []) (λ a e. sym (ok-injective e))
  populate_all-Mirrors codec (tx ∷ txs) =
      Gives-if (AllMirror c) tx.is_bridged_txn (kept txs) (tx ∷ kept txs)
        (populate_all g config c fetch codec txs) _ (populate_all-Mirrors codec txs)
        (Gives-bind (Mirrors c tx) (AllMirror c (tx ∷ kept txs))
          (relabel (wrapped "cannot parse %s: ") (populate_with g config c fetch codec tx))
          (λ transaction.
            populate_all g config c fetch codec txs >>= λ rest. lift (ok (transaction ∷ rest)))
          (Gives-relabel (Mirrors c tx) _ _ (populate_with-Mirrors codec tx))
          λ t h.
            Gives-bind (AllMirror c (kept txs)) (AllMirror c (tx ∷ kept txs))
              (populate_all g config c fetch codec txs) _ (populate_all-Mirrors codec txs)
              λ rest k.
                Gives-lift (AllMirror c (tx ∷ kept txs)) (ok (t ∷ rest))
                  (λ a e. (t, rest, sym (ok-injective e), h, k)))

  -- Where populating gives a result, there is one populated transaction for each loaded one that is not
  -- bridged, in the same order: it has the same hash, and its operations are those that the chain parses
  -- out of the loaded one, followed by others, for its token logs, whose indices count up from there.
  pub populate_all-AllMirror :
      (codec : Codec) (txs : List LoadedTransaction) (s : Store) {ts : List Transaction}
      → (populate_all g config c fetch codec txs s).0 ≡ ok ts
      → AllMirror c (kept txs) ts
  populate_all-AllMirror codec txs s {ts} e = populate_all-Mirrors codec txs s ts e
