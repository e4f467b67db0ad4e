-- ===== src/Client/Uncles/Agreed.antt =====
-- client/client.go: the uncles that `GetUncles` returns, and what it has verified.
use mesh_geth_sdk.Base.{
  arith, some, or_err-eq-ok, map, ◌⊎◌, ℕ, suc, ◌+◌, String, ◌=ₛ◌, eq_iff, ◌≡◌, refl, sym, ap, ◌∙◌,
  ◌↔◌, Bool, true, false, not, ◌&&◌, Bool-cases, inl, inr, Option, List, [], ◌∷◌, length, Result,
  ok, >>=-eq-ok, ok-injective, or_err,
}
use mesh_geth_sdk.Geth.{Hash}
use mesh_geth_sdk.Types.Errors.{GoError}
use mesh_geth_sdk.Client.Data.{RpcBlock}
use mesh_geth_sdk.Services.Client.{Header}
use mesh_geth_sdk.Client.Node.{Rpc, Request, Arg}
use mesh_geth_sdk.Client.Uncles.{
  is_nil, reject, verify_lists, uncle_requests, uncles_answered, load_uncles, get_uncles,
}

-- Documented behaviour: a batch has an answer for each request.
abbrev pub AnswersEach : Rpc → Type 0
AnswersEach rpc =
    (requests : List Request) (answers : List (Result GoError (Option Header)))
    → rpc.batch_headers requests ≡ ok answers
    → length answers ≡ length requests

reject-false : (b : Bool) (s : String) {u : Unit} → reject b s ≡ ok u → b ≡ false
reject-false true s e = cc
reject-false false s e = refl

is_nil_iff : {A : Type 0} (xs : List A) → (is_nil xs ≡ true) ↔ (xs ≡ [])
is_nil_iff [] = (λ e. refl, λ e. refl)
is_nil_iff (x ∷ xs) = (λ e. cc, λ e. cc)

-- Two tests that rule each other's failure out
both-tests : (p q : Bool) → (p && not q) ≡ false → (not p && q) ≡ false → p ≡ q
both-tests true true h k = refl
both-tests true false h k = cc
both-tests false true h k = cc
both-tests false false h k = refl

-- A hash is the empty one exactly if the list is empty.
abbrev pub Agree : {A : Type 0} → Hash → Hash → List A → Type 0
Agree hash empty xs = (hash.hex ≡ empty.hex) ↔ (xs ≡ [])

agree :
    {A : Type 0} (hash empty : Hash) (xs : List A)
    → (hash.hex =ₛ empty.hex) ≡ is_nil xs
    → Agree hash empty xs
agree hash empty xs e = (
  λ h. (is_nil_iff xs).0 (sym e ∙ (eq_iff hash.hex empty.hex).1 h),
  λ h. (eq_iff hash.hex empty.hex).0 (e ∙ (is_nil_iff xs).1 h),
)

verify_lists-Agree :
    (empty_uncle_hash empty_root_hash : Hash) (head : Header) (body : RpcBlock) {u : Unit}
    → verify_lists empty_uncle_hash empty_root_hash head body ≡ ok u
    → Agree head.uncle_hash empty_uncle_hash body.uncle_hashes
      × Agree head.tx_hash empty_root_hash body.transactions
unfolding verify_lists
verify_lists-Agree empty_uncle_hash empty_root_hash head body e =
    let (a, h1, e1) = >>=-eq-ok (reject _ _) _ e in
    let (b, h2, e2) = >>=-eq-ok (reject _ _) _ e1 in
    let (c, h3, e3) = >>=-eq-ok (reject _ _) _ e2 in
    (
      agree head.uncle_hash empty_uncle_hash body.uncle_hashes
          (both-tests _ _ (reject-false _ _ h1) (reject-false _ _ h2)),
      agree head.tx_hash empty_root_hash body.transactions
          (both-tests _ _ (reject-false _ _ h3) (reject-false _ _ e3)),
    )

-- Requests for the uncles of a block from an index on: one after the other, each for the next index.
abbrev pub AskFrom : Rpc → Hash → ℕ → List Request → Type 0
AskFrom rpc block_hash i [] = Unit
AskFrom rpc block_hash i (r ∷ rest) =
    (r ≡ (
      "eth_getUncleByBlockHashAndIndex",
      Arg.hash block_hash ∷ Arg.text (rpc.encode_uint64 i) ∷ [],
    ))
    × AskFrom rpc block_hash (suc i) rest

uncle_requests-AskFrom :
    (rpc : Rpc) (h : Hash) (i j : ℕ) (hashes : List Hash)
    → i ≡ j
    → AskFrom rpc h j (uncle_requests rpc h i hashes)
unfolding uncle_requests
uncle_requests-AskFrom rpc h i j [] e = tt
uncle_requests-AskFrom rpc h i j (x ∷ xs) e =
    (rw e refl, uncle_requests-AskFrom rpc h (i + 1) (suc j) xs (omega arith))

length-uncle_requests :
    (rpc : Rpc) (h : Hash) (i : ℕ) (hashes : List Hash)
    → length (uncle_requests rpc h i hashes) ≡ length hashes
unfolding uncle_requests
length-uncle_requests rpc h i [] = refl
length-uncle_requests rpc h i (x ∷ xs) = ap suc (length-uncle_requests rpc h (i + 1) xs)

-- An answer that is a header
abbrev pub found : Header → Result GoError (Option Header)
found h = ok (some h)

uncles_answered-found :
    (answers : List (Result GoError (Option Header))) {uncles : List Header}
    → uncles_answered answers ≡ ok uncles
    → answers ≡ map found uncles
unfolding uncles_answered
uncles_answered-found [] e = rw (← ok-injective e) refl
uncles_answered-found (answer ∷ rest) e =
    let (answered, h1, e1) = >>=-eq-ok answer _ e in
    let (uncle, h2, e2) = >>=-eq-ok (or_err answered _) _ e1 in
    let (others, h3, e3) = >>=-eq-ok (uncles_answered rest) _ e2 in
    rw (← ok-injective e3, h1, or_err-eq-ok answered _ h2)
      (ap (λ l. found uncle ∷ l) (uncles_answered-found rest h3))

-- The uncles of a body: none where it names none, and else the headers that the node answers a batch with,
-- which asks for the uncles from index 0 on, once for each hash.
abbrev pub Fetches : Rpc → RpcBlock → List Header → Type 0
Fetches rpc body uncles =
    ((body.uncle_hashes ≡ []) × (uncles ≡ []))
    ⊎ ((requests : List Request) × (length requests ≡ length body.uncle_hashes)
        × AskFrom rpc body.hash 0 requests
        × (rpc.batch_headers requests ≡ ok (map found uncles)))

load_uncles-Fetches :
    (rpc : Rpc) (body : RpcBlock) {uncles : List Header}
    → load_uncles rpc body ≡ ok uncles
    → Fetches rpc body uncles
unfolding load_uncles
load_uncles-Fetches rpc body e = elim (Bool-cases (is_nil body.uncle_hashes)) [
  | inl empty ↦ inl ((is_nil_iff body.uncle_hashes).0 empty, sym (ok-injective (rw empty at e)))
  | inr full ↦
      (let requests = uncle_requests rpc body.hash 0 body.uncle_hashes in
        let (answers, h, e1) = >>=-eq-ok (rpc.batch_headers requests) _ (rw full at e) in
        inr (
          requests,
          length-uncle_requests rpc body.hash 0 body.uncle_hashes,
          uncle_requests-AskFrom rpc body.hash 0 0 body.uncle_hashes refl,
          h
              ∙ ap (λ (l : List (Result GoError (Option Header))). ok l)
                  (uncles_answered-found answers e1),
        ))
]

length-map-found : (uncles : List Header) → length (map found uncles) ≡ length uncles
length-map-found [] = refl
length-map-found (u ∷ us) = ap suc (length-map-found us)

length-Fetches :
    (rpc : Rpc) (body : RpcBlock) (uncles : List Header)
    → AnswersEach rpc
    → Fetches rpc body uncles
    → length uncles ≡ length body.uncle_hashes
length-Fetches rpc body uncles each (inl (none_named, none)) = rw (none_named, none) refl
length-Fetches rpc body uncles each (inr (requests, one_each, ask, answered)) =
    sym (length-map-found uncles) ∙ each requests (map found uncles) answered ∙ one_each

-- If the node answers each request of a batch, GetUncles returns as many headers as the block names hashes
-- of uncles, and they are what the node answered to requests for the uncles of the block at the indices
-- from 0 on, in their order; and it returns them only where the header and the body agree on whether there
-- are uncles, and on whether there are transactions.
pub get_uncles-Agree :
    (empty_uncle_hash empty_root_hash : Hash) (rpc : Rpc) (head : Header) (body : RpcBlock)
    {uncles : List Header}
    → AnswersEach rpc
    → get_uncles empty_uncle_hash empty_root_hash rpc head body ≡ ok uncles
    → (length uncles ≡ length body.uncle_hashes)
      × Fetches rpc body uncles
      × Agree head.uncle_hash empty_uncle_hash body.uncle_hashes
      × Agree head.tx_hash empty_root_hash body.transactions
unfolding get_uncles
get_uncles-Agree empty_uncle_hash empty_root_hash rpc head body each e =
    let (u, h, e1) = >>=-eq-ok (verify_lists empty_uncle_hash empty_root_hash head body) _ e in
    let (uncles_agree, txs_agree) =
      verify_lists-Agree empty_uncle_hash empty_root_hash head body h in
    let fetched = load_uncles-Fetches rpc body e1 in
    (length-Fetches rpc body _ each fetched, fetched, uncles_agree, txs_agree)
