-- ===== src/IpTree/Loop.antt =====
-- The loop of `insert_bits_u128` implements `ins`, by induction on the bits of the prefix that are
-- left.
use matchy.Base.{
  ℕ, zero, suc, ◌+◌, ◌^◌, ◌≤◌, ◌<◌, ◌≡◌, refl, sym, ap, ◌∙◌, ◌≢◌, arith, ◌==◌, List, length, true,
  false, some, ok, get_elem?_lt, Bool-cases, inl, inr, ==_iff,
}
use matchy.IpTree.{Node, node, set_child, max_height, bit_at, insert_loop}
use matchy.IpTree.Trie.{
  Trie, void, leaf, branch, ptr, Avoids, Separate, Height, ins, opened, next_id, change,
}
use matchy.IpTree.Arena.{node_of, Holds, Frame-Holds, EdgeDone, Edge, TrieDone, index_node_lem}
use matchy.IpTree.Insert.{Height-mono, place_lem, root, Opened, descend_lem}

-- Opening an edge.
module _ (n : ℕ) where
  opened-Separate : (t : Trie) → Separate t → Separate (opened n t)
  opened-Separate void s = (tt, tt, tt, tt, tt, tt)
  opened-Separate (leaf o e) s = (tt, tt, tt, tt, tt, tt)
  opened-Separate (branch c l r) s = s

  Avoids-opened : (j : ℕ) (t : Trie) → j < n → Avoids j t → Avoids j (opened n t)
  Avoids-opened j void b a = (λ q. omega arith, tt, tt)
  Avoids-opened j (leaf o e) b a = (λ q. omega arith, tt, tt)
  Avoids-opened j (branch c l r) b a = a

  root-ne : (j : ℕ) (t : Trie) → j < n → Avoids j t → j ≢ root n t
  root-ne j void b a = λ q. omega arith
  root-ne j (leaf o e) b a = λ q. omega arith
  root-ne j (branch c l r) b a = λ q. a.0 (sym q)

abbrev left_half : Trie → Trie
left_half void = void
left_half (leaf o e) = leaf o e
left_half (branch c l r) = l

abbrev right_half : Trie → Trie
right_half void = void
right_half (leaf o e) = leaf o e
right_half (branch c l r) = r

opened-branch : (n : ℕ) (t : Trie) → opened n t ≡ branch (root n t) (left_half t) (right_half t)
opened-branch n void = refl
opened-branch n (leaf o e) = refl
opened-branch n (branch c l r) = refl

halves-Height : (h : ℕ) (t : Trie) → Height h t → Height h (left_half t) × Height h (right_half t)
halves-Height h void a = (tt, tt)
halves-Height h (leaf o e) a = (tt, tt)
halves-Height zero (branch c l r) a = absurd a
halves-Height (suc h) (branch c l r) a = (Height-mono h l a.0, Height-mono h r a.1)

next_id-room : (n : ℕ) (t : Trie) → (n ≤ next_id n t) × (next_id n t ≤ n + 1)
next_id-room n void = omega arith
next_id-room n (leaf o e) = omega arith
next_id-room n (branch c l r) = omega arith

ptr-change :
    (bit : ℕ) (f : Trie → Trie) (c : ℕ) (l r : Trie) → ptr (change bit f (branch c l r)) ≡ node c
ptr-change bit f c l r = ground arith

module _ (bits len offset : ℕ) where
  -- What the loop does at an edge with `rounds` bits left after it.
  abbrev pub Inserts : ℕ → Type 0
  Inserts rounds =
      (ns : List Node) (i : ℕ) (n : Node) (depth : ℕ) (t : Trie)
      → depth + suc rounds ≡ len
      → Height max_height t
      → length ns + rounds ≤ 2 ^ 32
      → Edge ns i n (bit_at bits depth) t
      → (ns' : List Node) × (insert_loop (suc rounds) ns i depth bits len offset ≡ ok ns')
        × EdgeDone ns ns' i n (bit_at bits depth) t
            (ins rounds (length ns) (depth + 1) bits len offset t)
        × (length ns' ≤ length ns + rounds)

  -- The loop at a branch, from the loop at the edge that it takes.
  module _ (rounds : ℕ) (ih : Inserts rounds) (ns : List Node) (c depth : ℕ) (l r : Trie)
      (left : depth + suc rounds ≡ len) (high : Height max_height l × Height max_height r)
      (room : length ns + rounds ≤ 2 ^ 32) (h : Holds ns (branch c l r))
      (s : Separate (branch c l r)) where
    pub at_branch :
        (ns' : List Node) × (insert_loop (suc rounds) ns c depth bits len offset ≡ ok ns')
        × TrieDone ns ns' c (branch c l r) (
            change
              (bit_at bits depth)
              (ins rounds (length ns) (depth + 1) bits len offset)
              (branch c l r))
        × (length ns' ≤ length ns + rounds)
    at_branch =
        let (cl, cr, lr, rl, sl, sr) = s in
        elim (Bool-cases (bit_at bits depth == 0)) [
          | inl zero_bit ↦
              let (ns', runs, done, size) = ih ns c (node_of l r) depth l left high.0 room (record {
                at = h.0;
                leads = rw zero_bit;
                holds = h.1;
                separate = sl;
                outside = cl;
              }) in
              (
                ns',
                runs,
                rw zero_bit (record {
                  holds = (rw zero_bit at done.at, done.holds, Frame-Holds done.frame r cr rl h.2);
                  frame = record {
                    same = λ j b ne av. done.frame.same j b ne av.1;
                    grows = done.frame.grows;
                  };
                }),
                size,
              )
          | inr one_bit ↦
              let (ns', runs, done, size) = ih ns c (node_of l r) depth r left high.1 room (record {
                at = h.0;
                leads = rw one_bit;
                holds = h.2;
                separate = sr;
                outside = cr;
              }) in
              (
                ns',
                runs,
                rw one_bit (record {
                  holds = (rw one_bit at done.at, Frame-Holds done.frame l cl lr h.1, done.holds);
                  frame = record {
                    same = λ j b ne av. done.frame.same j b ne av.2;
                    grows = done.frame.grows;
                  };
                }),
                size,
              )
        ]

  -- The operation below an edge that the loop has opened, seen from the edge.
  Opened-EdgeDone :
      (ns ns₁ ns' : List Node) (i : ℕ) (n : Node) (bit : ℕ) (t t' : Trie)
      → Edge ns i n bit t
      → Opened ns ns₁ i n bit t
      → ptr t' ≡ node (root (length ns) t)
      → TrieDone ns₁ ns'
          (root (length ns) t)
          (branch (root (length ns) t) (left_half t) (right_half t))
          t'
      → EdgeDone ns ns' i n bit t t'
  Opened-EdgeDone ns ns₁ ns' i n bit t t' e o root_ptr done =
      let size = o.size in
      let grown = next_id-room (length ns) t in
      let grows = done.frame.grows in
      let inside = get_elem?_lt ns i e.at in
      record {
        at =
            done.frame.same i (omega arith) (root-ne (length ns) i t inside e.outside)
              (rw (opened-branch (length ns) t) at (Avoids-opened (length ns) i t inside e.outside))
            ∙ o.at
            ∙ ap some (ap (set_child n bit) (sym root_ptr));
        holds = done.holds;
        frame = record {
          same = λ j b ne av.
              done.frame.same j (omega arith) (root-ne (length ns) j t b av)
                (rw (opened-branch (length ns) t) at (Avoids-opened (length ns) j t b av))
              ∙ o.same j b ne;
          grows = omega arith;
        };
      }

  ins-suc :
      (rounds n m depth : ℕ) (t : Trie)
      → m ≡ next_id n t
      → ins (suc rounds) n depth bits len offset t
        ≡ change
            (bit_at bits depth)
            (ins rounds m (depth + 1) bits len offset)
            (branch (root n t) (left_half t) (right_half t))
  unfolding ins
  ins-suc rounds n m depth t next = rw (next, opened-branch n t)

  -- The loop opens edge after edge, and places the entry at the last one.
  pub insert_loop_lem : (rounds : ℕ) → Inserts rounds
  unfolding insert_loop ins
  insert_loop_lem zero ns i n depth t left high room e =
      let last : (depth + 1 == len) ≡ true = (==_iff (depth + 1) len).1 (omega arith) in
      let (ns', runs, done, size) = place_lem offset len ns i n (bit_at bits depth) t high e in
      (ns', rw (index_node_lem ns i e.at, last, e.leads) runs, done, omega arith)
  insert_loop_lem (suc rounds) ns i n depth t left high room e =
      let more : (depth + 1 == len) ≡ false = ground arith in
      let (ns₁, opens, o) = descend_lem ns i n (bit_at bits depth) t (omega arith) e in
      let shape = opened-branch (length ns) t in
      let size = o.size in
      let grown = next_id-room (length ns) t in
      let (ns', runs, done, size') =
        at_branch rounds (insert_loop_lem rounds) ns₁ (root (length ns) t) (depth + 1) (left_half t)
          (right_half t) (omega arith) (halves-Height max_height t high) (omega arith)
          (rw shape at o.holds) (rw shape at (opened-Separate (length ns) t e.separate)) in
      (
        ns',
        rw (index_node_lem ns i e.at, more, e.leads, opens) runs,
        rw (ins-suc rounds (length ns) (length ns₁) (depth + 1) t size) (
            Opened-EdgeDone ns ns₁ ns' i n (bit_at bits depth) t _ e o
              (ptr-change (bit_at bits (depth + 1))
                (ins rounds (length ns₁) (depth + 1 + 1) bits len offset) _ (left_half t)
                (right_half t))
              done),
        omega arith,
      )
