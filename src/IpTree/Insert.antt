-- ===== src/IpTree/Insert.antt =====
-- `insert_bits_u128` on the arena implements insertion into the trie.
use matchy.Base.{
  ℕ, zero, suc, ◌+◌, ◌^◌, ◌%◌, ◌<◌, ◌≡◌, refl, sym, ap, ◌∙◌, ◌≢◌, arith, List, length, get_elem?,
  [], ◌∷◌, ◌++◌, set, some, ok, get_elem?-set_self, get_elem?-set_ne, get_elem?_lt, length-set, leb,
  Bool-cases, inl, inr, length-append, get_elem?-append_left, get_elem?-append_end, set-append_end,
}
use matchy.IpTree.{Node, entry, empty, node, set_child, place, descend, new_empty, max_height}
use matchy.IpTree.Trie.{Trie, void, leaf, branch, ptr, Height, put, opened, next_id}
use matchy.IpTree.Arena.{
  Holds, EdgeDone, Edge, set_child_same, through-EdgeDone, set_edge_lem, set_edge-EdgeDone,
  keep-EdgeDone, backfill_less_specific_lem,
}

pub Height-mono : (h : ℕ) (t : Trie) → Height h t → Height (suc h) t
Height-mono h void a = tt
Height-mono h (leaf o e) a = tt
Height-mono zero (branch i l r) a = absurd a
Height-mono (suc h) (branch i l r) a = (Height-mono h l a.0, Height-mono h r a.1)

pub place_lem :
    (offset len : ℕ) (ns : List Node) (i : ℕ) (n : Node) (bit : ℕ) (t : Trie)
    → Height max_height t
    → Edge ns i n bit t
    → (ns' : List Node) × (place ns i bit (ptr t) offset len ≡ ok ns')
      × EdgeDone ns ns' i n bit t (put offset len t)
      × (length ns' ≡ length ns)
unfolding place put
place_lem offset len ns i n bit void high e = (
  _,
  set_edge_lem ns i n bit e.at _,
  set_edge-EdgeDone ns i n bit e.at void offset len,
  length-set ns i _,
)
place_lem offset len ns i n bit (leaf o existing) high e = elim (Bool-cases (leb existing len)) [
  | inl less ↦ rw less (
    _,
    set_edge_lem ns i n bit e.at _,
    set_edge-EdgeDone ns i n bit e.at (leaf o existing) offset len,
    length-set ns i _,
  )
  | inr more ↦ rw more (ns, refl, keep-EdgeDone ns i n bit e.at (leaf o existing) e.leads tt, refl)
]
place_lem offset len ns i n bit (branch c l r) high e =
    let (ns', runs, done, size) =
      backfill_less_specific_lem offset len max_height (branch c l r) high e.separate ns e.holds in
    (ns', runs, through-EdgeDone e refl done, size)

-- The id of the branch that an edge is opened to.
abbrev pub root : ℕ → Trie → ℕ
root n void = n
root n (leaf o e) = n
root n (branch c l r) = c

pub record Opened (ns ns' : List Node) (i : ℕ) (n : Node) (bit : ℕ) (t : Trie) : Type 0 where
  pub at : get_elem? ns' i ≡ some (set_child n bit (node (root (length ns) t)))
  pub holds : Holds ns' (opened (length ns) t)
  pub same : (j : ℕ) → j < length ns → j ≢ i → get_elem? ns' j ≡ get_elem? ns j
  pub size : length ns' ≡ next_id (length ns) t

-- A write to an allocated node, and then the write of the edge to it.
module _ (ns : List Node) (i : ℕ) (n : Node) (bit : ℕ) (at : get_elem? ns i ≡ some n) where
  allocated-at : (m : Node) → get_elem? (ns ++ m ∷ []) i ≡ some n
  allocated-at m = get_elem?-append_left ns (m ∷ []) i (get_elem?_lt ns i at) ∙ at

  pub allocated-Opened :
      (m : Node) (t : Trie)
      → root (length ns) t ≡ length ns
      → next_id (length ns) t ≡ length ns + 1
      → (get_elem? (set (ns ++ m ∷ []) i (set_child n bit (node (length ns)))) (length ns) ≡ some m
          → Holds
              (set (ns ++ m ∷ []) i (set_child n bit (node (length ns))))
              (opened (length ns) t))
      → Opened ns (set (ns ++ m ∷ []) i (set_child n bit (node (length ns)))) i n bit t
  allocated-Opened m t id next holds =
      let inside = get_elem?_lt ns i at in
      let all = ns ++ m ∷ [] in
      let grown : length all ≡ length ns + 1 = length-append ns (m ∷ []) in
      record {
        at = rw id (get_elem?-set_self all i _ (omega arith));
        holds =
            holds
              (get_elem?-set_ne all i (length ns) _ (λ q. omega arith) ∙ get_elem?-append_end ns m);
        same = λ j b ne.
            get_elem?-set_ne all i j _ (λ q. ne (sym q)) ∙ get_elem?-append_left ns (m ∷ []) j b;
        size = omega (arith, length-set all i (set_child n bit (node (length ns))));
      }

  descend_void :
      length ns < 2 ^ 32
      → (ns' : List Node) × (descend ns i bit empty ≡ ok (ns', length ns))
        × Opened ns ns' i n bit void
  unfolding descend
  descend_void room =
      let id : length ns % 2 ^ 32 ≡ length ns = omega arith in
      rw id (
        _,
        rw (
            set_edge_lem (ns ++ new_empty ∷ []) i n bit (allocated-at new_empty)
              (node (length ns))),
        allocated-Opened new_empty void refl refl (λ q. (q, tt, tt)),
      )

  descend_leaf :
      (o e : ℕ)
      → length ns < 2 ^ 32
      → (ns' : List Node) × (descend ns i bit (entry o e) ≡ ok (ns', length ns))
        × Opened ns ns' i n bit (leaf o e)
  unfolding descend
  descend_leaf o e room =
      let id : length ns % 2 ^ 32 ≡ length ns = omega arith in
      let half : Node = record { left = entry o e; right = empty } in
      let both : Node = record { left = entry o e; right = entry o e } in
      rw id (
        _,
        rw (
          set_edge_lem (ns ++ new_empty ∷ []) (length ns) new_empty 0
              (get_elem?-append_end ns new_empty) (entry o e),
          set-append_end ns new_empty half,
          set_edge_lem (ns ++ half ∷ []) (length ns) half 1 (get_elem?-append_end ns half)
              (entry o e),
          set-append_end ns half both,
          set_edge_lem (ns ++ both ∷ []) i n bit (allocated-at both) (node (length ns)),
        ),
        allocated-Opened both (leaf o e) refl refl (λ q. (q, tt, tt)),
      )

pub descend_lem :
    (ns : List Node) (i : ℕ) (n : Node) (bit : ℕ) (t : Trie)
    → length ns < 2 ^ 32
    → Edge ns i n bit t
    → (ns' : List Node) × (descend ns i bit (ptr t) ≡ ok (ns', root (length ns) t))
      × Opened ns ns' i n bit t
descend_lem ns i n bit void room e = descend_void ns i n bit e.at room
descend_lem ns i n bit (leaf o x) room e = descend_leaf ns i n bit e.at o x room
descend_lem ns i n bit (branch c l r) room e =
    unfold descend in
    (
      ns,
      refl,
      record {
        at = e.at ∙ ap some (sym (set_child_same n bit) ∙ ap (set_child n bit) e.leads);
        holds = e.holds;
        same = λ j b ne. refl;
        size = refl;
      },
    )
