-- ===== src/Cache/Markers.antt =====
-- The markers and flags of a test that the cache stores (node_of is of crates/rpytest/src/cache/mod.rs,
-- add_marker of crates/rpytest-core/src/inventory/nodes.rs).
use rpytest.Common.{
  ◌≡◌, refl, ap, ◌∙◌, String, str_eq, true, false, ◌||◌, List, [], ◌∷◌, ◌++◌, arith, Bool-cases,
  inl, inr,
}
use mathlib.Core.Path.{subst}
use rpytest.Common.TextLaws.{same_text}
use rpytest.Inventory.{TestNode, new, add_marker, has_marker, contains, build_keywords}
use rpytest.Cache.{TestNodeInfo, add_markers, bare_node, node_of}

contains-append :
    (ts us : List String) (t : String) → contains (ts ++ us) t ≡ (contains ts t || contains us t)
contains-append [] us t = refl
contains-append (x ∷ ts) us t = ground (arith, contains-append ts us t)

-- The flags are those of the markers.
abbrev pub IsFlagged : TestNode → Type 0
IsFlagged n =
    (n.skip ≡ (contains n.markers "skip" || contains n.markers "skipif"))
    × (n.xfail ≡ contains n.markers "xfail")

absorbed :
    (ts : List String) (m t : String)
    → contains ts m ≡ true
    → contains ts t ≡ (contains ts t || str_eq m t)
absorbed ts m t e = elim (Bool-cases (str_eq m t)) [
  | inl p ↦
      let same = subst (λ x. contains ts x ≡ true) (same_text m t p) e in ground (arith, same, p)
  | inr p ↦ ground (arith, p)
]

contains-add_marker :
    (m : String) (n : TestNode) (t : String)
    → contains (add_marker m n).markers t ≡ (contains n.markers t || str_eq m t)
unfolding add_marker
contains-add_marker m n t = elim (Bool-cases (contains n.markers m)) [
  | inl e ↦ rw e (absorbed n.markers m t e)
  | inr e ↦ rw e (contains-append n.markers (m ∷ []) t ∙ ground arith)
]

add_marker-IsFlagged : (m : String) (n : TestNode) → IsFlagged n → IsFlagged (add_marker m n)
unfolding add_marker
add_marker-IsFlagged m n h = elim (Bool-cases (contains n.markers m)) [
  | inl e ↦ rw e h
  | inr e ↦ rw e (
    ground (
      arith,
      h.0,
      contains-append n.markers (m ∷ []) "skip",
      contains-append n.markers (m ∷ []) "skipif",
    ),
    ground (arith, h.1, contains-append n.markers (m ∷ []) "xfail"),
  )
]

add_markers-IsFlagged :
    (ms : List String) (n : TestNode) → IsFlagged n → IsFlagged (add_markers ms n)
add_markers-IsFlagged [] n h = h
add_markers-IsFlagged (m ∷ ms) n h =
    add_markers-IsFlagged ms (add_marker m n) (add_marker-IsFlagged m n h)

contains-add_markers :
    (ms : List String) (n : TestNode) (t : String)
    → contains (add_markers ms n).markers t ≡ (contains n.markers t || contains ms t)
contains-add_markers [] n t = ground arith
contains-add_markers (m ∷ ms) n t =
    ground (arith, contains-add_markers ms (add_marker m n) t, contains-add_marker m n t)

bare_node-IsFlagged : (info : TestNodeInfo) → IsFlagged (bare_node info)
unfolding bare_node new
bare_node-IsFlagged info = (refl, refl)

bare_node-unmarked :
    (info : TestNodeInfo) (t : String) → contains (bare_node info).markers t ≡ false
unfolding bare_node new
bare_node-unmarked info t = refl

-- The test that the cache keeps of what was collected has just the collected markers; it is to be
-- skipped if they have "skip" or "skipif", and expected to fail if they have "xfail". What the collected
-- flags say does not matter.
pub node_of-marks :
    (info : TestNodeInfo)
    → ((t : String) → has_marker (node_of info) t ≡ contains info.markers t)
      × ((node_of info).skip ≡ (contains info.markers "skip" || contains info.markers "skipif"))
      × ((node_of info).xfail ≡ contains info.markers "xfail")
unfolding node_of build_keywords has_marker
node_of-marks info =
    let marks = contains-add_markers info.markers (bare_node info) in
    let flags = add_markers-IsFlagged info.markers (bare_node info) (bare_node-IsFlagged info) in
    (
      λ t. marks t ∙ ap (λ p. p || contains info.markers t) (bare_node-unmarked info t),
      flags.0
          ∙ ground (
            arith,
            marks "skip",
            marks "skipif",
            bare_node-unmarked info "skip",
            bare_node-unmarked info "skipif",
          ),
      flags.1 ∙ ground (arith, marks "xfail", bare_node-unmarked info "xfail"),
    )
