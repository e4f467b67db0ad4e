-- ===== src/Client/Tracer/Marks.antt =====
-- client/client.go and client/tracer.go: which calls `FlattenTraces` and `Call.init` list, and their
-- marks.
use mesh_geth_sdk.Base.{
  ℕ, suc, ◌+◌, ◌≡◌, refl, ap, Bool-cases, inl, inr, Bool, true, false, ◌||◌, List, [], ◌∷◌, ◌++◌,
  arith, length, length-append, map, All, All-append,
}
use mesh_geth_sdk.Base.Text.{is_empty}
use mesh_geth_sdk.Client.Data.{FlatCall, Call, call, Calls, none_left, more}
use mesh_geth_sdk.Client.Tracer.{
  flatten, inherit, inherit_revert, flatten_children, flatten_traces, init_children, init,
}
use mathlib.Core.List.{map-append}

-- The number of calls of a tree.
abbrev pub size_children : Calls → ℕ
size_children none_left = 0
size_children (more (call c children) rest) = suc (size_children children) + size_children rest

abbrev pub size : Call → ℕ
size (call c children) = suc (size_children children)

-- Which calls are reverted, in preorder: those that are themselves, or below one that is.
abbrev pub marks_children : Bool → Calls → List Bool
marks_children above none_left = []
marks_children above (more (call c children) rest) =
    ((above || c.revert) ∷ marks_children (above || c.revert) children) ++ marks_children above rest

abbrev pub marks : Call → List Bool
marks (call c children) = c.revert ∷ marks_children c.revert children

abbrev pub reverted : FlatCall → Bool
reverted c = c.revert

revert-inherit : (p c : FlatCall) → (inherit p c).revert ≡ (p.revert || c.revert)
unfolding inherit
revert-inherit p c = ground arith

revert-inherit_revert : (p c : FlatCall) → (inherit_revert p c).revert ≡ (p.revert || c.revert)
unfolding inherit_revert
revert-inherit_revert p c = ground arith

flatten_children-marks :
    (p : FlatCall) (cs : Calls)
    → map reverted (flatten_children p cs []) ≡ marks_children p.revert cs
unfolding flatten_children
flatten_children-marks p none_left = refl
flatten_children-marks p (more (call c children) rest) = simp (
  map-append,
  flatten_children-marks (inherit p c) children,
  flatten_children-marks p rest,
  revert-inherit,
)

init_children-marks :
    (p : FlatCall) (cs : Calls) → map reverted (init_children p cs) ≡ marks_children p.revert cs
unfolding init_children
init_children-marks p none_left = refl
init_children-marks p (more (call c children) rest) = simp (
  map-append,
  init_children-marks (inherit_revert p c) children,
  init_children-marks p rest,
  revert-inherit_revert,
)

-- The calls of a tree, each before those below it.
abbrev pub preorder_children : Calls → List FlatCall
preorder_children none_left = []
preorder_children (more (call c children) rest) =
    (c ∷ preorder_children children) ++ preorder_children rest

abbrev pub preorder : Call → List FlatCall
preorder (call c children) = c ∷ preorder_children children

-- A call but for its mark and its message.
abbrev pub unmarked : FlatCall → FlatCall
unmarked c = record c { revert = false; error_message = "" }

unmarked-inherit : (p c : FlatCall) → unmarked (inherit p c) ≡ unmarked c
unfolding inherit
unmarked-inherit p c = elim (Bool-cases p.revert) [ inl h ↦ rw h refl | inr h ↦ rw h refl ]

flatten_children-preorder :
    (p : FlatCall) (cs : Calls)
    → map unmarked (flatten_children p cs []) ≡ map unmarked (preorder_children cs)
unfolding flatten_children
flatten_children-preorder p none_left = refl
flatten_children-preorder p (more (call c children) rest) = simp (
  map-append,
  flatten_children-preorder (inherit p c) children,
  flatten_children-preorder p rest,
  unmarked-inherit,
)

length-flatten_children :
    (p : FlatCall) (cs : Calls) → length (flatten_children p cs []) ≡ size_children cs
unfolding flatten_children
length-flatten_children p none_left = refl
length-flatten_children p (more (call c children) rest) = omega (
  arith,
  length-append (inherit p c ∷ flatten_children (inherit p c) children [])
      (flatten_children p rest []),
  length-flatten_children (inherit p c) children,
  length-flatten_children p rest,
)

-- Flattening a tree from the empty list lists the calls of the tree in preorder, each once and with all its
-- fields but the mark and the message; and a call is marked reverted exactly if it was, or if a call above
-- it was.
pub flatten_traces-marks :
    (t : Call)
    → (length (flatten_traces t []) ≡ size t)
      × (map unmarked (flatten_traces t []) ≡ map unmarked (preorder t))
      × (map reverted (flatten_traces t []) ≡ marks t)
unfolding flatten_traces
flatten_traces-marks (call c children) = (
  omega (arith, length-flatten_children c children),
  ap (λ l. unmarked c ∷ l) (flatten_children-preorder c children),
  rw (flatten_children-marks c children),
)

-- `Call.init` and `FlattenTraces` agree on which calls are reverted.
pub init-flatten_traces-reverted :
    (t : Call) → map reverted (init t) ≡ map reverted (flatten_traces t [])
unfolding init flatten_traces
init-flatten_traces-reverted (call c children) =
    rw (init_children-marks c children, flatten_children-marks c children)

-- A reverted call with a message.
abbrev pub Explained : FlatCall → Type 0
Explained c = (c.revert ≡ true) × (is_empty c.error_message ≡ false)

inherit-Explained : (p c : FlatCall) → Explained p → Explained (inherit p c)
unfolding inherit
inherit-Explained p c h = ground arith

flatten_children-Explained :
    (p : FlatCall) (cs : Calls) → Explained p → All Explained (flatten_children p cs [])
unfolding flatten_children
flatten_children-Explained p none_left h = tt
flatten_children-Explained p (more (call c children) rest) h =
    All-append Explained (inherit p c ∷ flatten_children (inherit p c) children [])
      (flatten_children p rest [])
      (
        inherit-Explained p c h,
        flatten_children-Explained (inherit p c) children (inherit-Explained p c h),
      )
      (flatten_children-Explained p rest h)

-- If the root call is reverted with an error message, then every call of the flattened tree is
-- reverted, and has an error message.
pub flatten_traces-Explained :
    (t : Call) → Explained (flatten t) → All Explained (flatten_traces t [])
unfolding flatten_traces flatten
flatten_traces-Explained (call c children) h = (h, flatten_children-Explained c children h)
