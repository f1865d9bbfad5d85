-- ===== src/IpTree/Arena.antt =====
-- What it means that an arena holds a trie, and that the operations on one edge implement those of
-- the trie.
use matchy.Base.{
  ℕ, zero, suc, ◌≤◌, ◌<◌, ◌≡◌, refl, sym, ap, subst, ◌∙◌, ◌≢◌, arith, List, length, get_elem?, set,
  some, Result, ok, get_elem?-set_self, get_elem?-set_ne, get_elem?_lt, length-set, Bool-cases, inl,
  inr, ltb,
}
use matchy.IpTree.{
  NodePointer, Node, entry, node, index_node, set_edge, child, set_child, backfill_child,
  backfill_less_specific,
}
use matchy.IpTree.Trie.{
  Trie, void, leaf, branch, ptr, All, Avoids, Separate, Height, fill, All-fill,
}

abbrev pub node_of : Trie → Trie → Node
node_of l r = record { left = ptr l; right = ptr r }

-- Each branch of the trie is the node of its id.
abbrev pub Holds : List Node → Trie → Type 0
Holds ns void = Unit
Holds ns (leaf o e) = Unit
Holds ns (branch i l r) = (get_elem? ns i ≡ some (node_of l r)) × Holds ns l × Holds ns r

pub Holds-frame :
    (ns ns' : List Node) (t : Trie)
    → All (λ j. get_elem? ns' j ≡ get_elem? ns j) t
    → Holds ns t
    → Holds ns' t
Holds-frame ns ns' void a h = tt
Holds-frame ns ns' (leaf o e) a h = tt
Holds-frame ns ns' (branch i l r) a h =
    (cc, Holds-frame ns ns' l a.1 h.1, Holds-frame ns ns' r a.2 h.2)

-- The ids of a trie are indices of the arena that holds it.
pub Holds-below : (ns : List Node) (t : Trie) → Holds ns t → All (λ j. j < length ns) t
Holds-below ns void h = tt
Holds-below ns (leaf o e) h = tt
Holds-below ns (branch i l r) h =
    (get_elem?_lt ns i h.0, Holds-below ns l h.1, Holds-below ns r h.2)

-- `ns'` is `ns` after an operation that may change the node `i` and the nodes of `t`.
pub record Frame (ns ns' : List Node) (i : ℕ) (t : Trie) : Type 0 where
  pub same : (j : ℕ) → j < length ns → j ≢ i → Avoids j t → get_elem? ns' j ≡ get_elem? ns j
  pub grows : length ns ≤ length ns'

-- What a frame leaves alone still holds its trie.
pub Frame-Holds :
    {ns ns' : List Node} {i : ℕ} {t : Trie}
    → Frame ns ns' i t
    → (u : Trie) → Avoids i u
    → All (λ j. Avoids j t) u
    → Holds ns u
    → Holds ns' u
Frame-Holds f void ne av h = tt
Frame-Holds f (leaf o e) ne av h = tt
Frame-Holds {ns = ns} f (branch j l r) ne av h = (
  f.same j (get_elem?_lt ns j h.0) ne.0 av.0 ∙ h.0,
  Frame-Holds f l ne.1 av.1 h.1,
  Frame-Holds f r ne.2 av.2 h.2,
)

-- The operation on one half of a branch, then the one on the other.
pub Frame-trans :
    {ns ns₁ ns₂ : List Node} {i : ℕ} {l r : Trie}
    → Frame ns ns₁ i l
    → Frame ns₁ ns₂ i r
    → Frame ns ns₂ i (branch i l r)
Frame-trans f g = record {
  same = λ j b ne av. let h = f.grows in g.same j (omega arith) ne av.2 ∙ f.same j b ne av.1;
  grows = let h = f.grows in let k = g.grows in omega arith;
}

-- After an operation on the trie at node `i`: the node now holds `t'`.
pub record TrieDone (ns ns' : List Node) (i : ℕ) (t t' : Trie) : Type 0 where
  pub holds : Holds ns' t'
  pub frame : Frame ns ns' i t

-- After an operation on the edge of node `i` at a bit: the edge leads to `t'`.
pub record EdgeDone (ns ns' : List Node) (i : ℕ) (n : Node) (bit : ℕ) (t t' : Trie) : Type 0 where
  pub at : get_elem? ns' i ≡ some (set_child n bit (ptr t'))
  pub holds : Holds ns' t'
  pub frame : Frame ns ns' i t

-- What the operations on an edge may assume.
pub record Edge (ns : List Node) (i : ℕ) (n : Node) (bit : ℕ) (t : Trie) : Type 0 where
  pub at : get_elem? ns i ≡ some n
  pub leads : child n bit ≡ ptr t
  pub holds : Holds ns t
  pub separate : Separate t
  pub outside : Avoids i t

pub index_node_lem :
    (ns : List Node) (i : ℕ) {n : Node} → get_elem? ns i ≡ some n → index_node ns i ≡ ok n
unfolding index_node
index_node_lem ns i at = rw (at, index_node)

pub set_child_same : (n : Node) (bit : ℕ) → set_child n bit (child n bit) ≡ n
set_child_same n bit = ground arith

-- Writing the edge gives a node that no longer counts the old subtree.
module _ (ns : List Node) (i : ℕ) (n : Node) (bit : ℕ) (at : get_elem? ns i ≡ some n) where
  pub set_edge_lem : (p : NodePointer) → set_edge ns i bit p ≡ ok (set ns i (set_child n bit p))
  unfolding set_edge index_node
  set_edge_lem p = rw (at, index_node)

  pub set_edge-EdgeDone :
      (t : Trie) (o e : ℕ)
      → EdgeDone ns (set ns i (set_child n bit (entry o e))) i n bit t (leaf o e)
  set_edge-EdgeDone t o e = record {
    at = get_elem?-set_self ns i _ (get_elem?_lt ns i at);
    holds = tt;
    frame = record {
      same = λ j b ne av. get_elem?-set_ne ns i j _ (λ q. ne (sym q));
      grows = omega (arith, length-set ns i (set_child n bit (entry o e)));
    };
  }

  pub keep-EdgeDone : (t : Trie) → child n bit ≡ ptr t → Holds ns t → EdgeDone ns ns i n bit t t
  keep-EdgeDone t leads h = record {
    at = at ∙ ap some (sym (subst (λ p. set_child n bit p ≡ n) leads (set_child_same n bit)));
    holds = h;
    frame = record { same = λ j b ne av. refl; grows = omega arith };
  }

-- An operation on the subtree that an edge leads to, whose root keeps its id.
pub through-EdgeDone :
    {ns ns' : List Node} {i : ℕ} {n : Node} {bit c : ℕ} {l r t' : Trie}
    → Edge ns i n bit (branch c l r)
    → ptr t' ≡ node c
    → TrieDone ns ns' c (branch c l r) t'
    → EdgeDone ns ns' i n bit (branch c l r) t'
through-EdgeDone {ns} {i} {n} {bit} {c} {l} {r} e same_root d = record {
  at =
      d.frame.same i (get_elem?_lt ns i e.at) (λ q. e.outside.0 (sym q)) e.outside
      ∙ e.at
      ∙ ap some (sym (set_child_same n bit) ∙ ap (set_child n bit) (e.leads ∙ sym same_root));
  holds = d.holds;
  frame = record {
    same = λ j b ne av. d.frame.same j b (λ q. av.0 (sym q)) av;
    grows = d.frame.grows;
  };
}

module _ (offset len : ℕ) where
  -- `f` is a call of the backfill that does what it should at the root of `t`.
  abbrev Fills : (List Node → ℕ → Result (List Node)) → Trie → Type 0
  Fills f void = Unit
  Fills f (leaf o e) = Unit
  Fills f (branch i l r) =
      (ns : List Node)
      → Holds ns (branch i l r)
      → (ns' : List Node) × (f ns i ≡ ok ns')
        × TrieDone ns ns' i (branch i l r) (fill offset len (branch i l r))
        × (length ns' ≡ length ns)

  abbrev EdgeFilled : List Node → ℕ → Node → ℕ → Trie → Result (List Node) → Type 0
  EdgeFilled ns i n bit t result =
      (ns' : List Node) × (result ≡ ok ns')
      × EdgeDone ns ns' i n bit t (fill offset len t)
      × (length ns' ≡ length ns)

  backfill_child_lem :
      (f : List Node → ℕ → Result (List Node)) (ns : List Node) (i : ℕ) (n : Node) (bit : ℕ)
      (t : Trie)
      → Fills f t
      → Edge ns i n bit t
      → EdgeFilled ns i n bit t (backfill_child f ns i bit (ptr t) offset len)
  unfolding backfill_child fill
  backfill_child_lem f ns i n bit void fills e = (
    _,
    set_edge_lem ns i n bit e.at _,
    set_edge-EdgeDone ns i n bit e.at void offset len,
    length-set ns i _,
  )
  backfill_child_lem f ns i n bit (leaf o existing) fills e = elim (Bool-cases (ltb existing len)) [
    | inl less ↦ rw less (
      _,
      set_edge_lem ns i n bit e.at _,
      set_edge-EdgeDone ns i n bit e.at (leaf o existing) offset len,
      length-set ns i _,
    )
    | inr more ↦
        rw more (ns, refl, keep-EdgeDone ns i n bit e.at (leaf o existing) e.leads tt, refl)
  ]
  backfill_child_lem f ns i n bit (branch c l r) fills e =
      let (ns', runs, done, size) = fills ns e.holds in
      (ns', runs, through-EdgeDone e refl done, size)

  -- Enough fuel: the backfill ends, and fills the trie.
  pub backfill_less_specific_lem :
      (fuel : ℕ) (t : Trie)
      → Height fuel t
      → Separate t
      → Fills (backfill_less_specific fuel offset len) t
  unfolding backfill_less_specific fill
  backfill_less_specific_lem zero void high s = tt
  backfill_less_specific_lem zero (leaf o e) high s = tt
  backfill_less_specific_lem zero (branch i l r) high s = absurd high
  backfill_less_specific_lem (suc fuel) void high s = tt
  backfill_less_specific_lem (suc fuel) (leaf o e) high s = tt
  backfill_less_specific_lem (suc fuel) (branch i l r) high (il, ir, lr, rl, sl, sr) = λ ns h.
      let rec = backfill_less_specific fuel offset len in
      let (ns₁, run₁, done₁, size₁) =
        backfill_child_lem rec ns i (node_of l r) 0 l (backfill_less_specific_lem fuel l high.0 sl)
          (record { at = h.0; leads = refl; holds = h.1; separate = sl; outside = il }) in
      let l' = fill offset len l in
      let (ns₂, run₂, done₂, size₂) =
        backfill_child_lem rec ns₁ i (node_of l' r) 1 r
          (backfill_less_specific_lem fuel r high.1 sr)
          (record {
            at = done₁.at;
            leads = refl;
            holds = Frame-Holds done₁.frame r ir rl h.2;
            separate = sr;
            outside = ir;
          }) in
      (
        ns₂,
        rw (index_node_lem ns i h.0, run₁) run₂,
        record {
          holds = (
            done₂.at,
            Frame-Holds done₂.frame l' (All-fill _ offset len l il) (All-fill _ offset len l lr)
                done₁.holds,
            done₂.holds,
          );
          frame = Frame-trans done₁.frame done₂.frame;
        },
        size₂ ∙ size₁,
      )
