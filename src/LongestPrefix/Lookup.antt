-- ===== src/LongestPrefix/Lookup.antt =====
-- A table of prefixes, built, serialised and looked up: `lookup` answers by longest match.
use matchy.Base.{
  ℕ, ◌+◌, ◌^◌, ◌≤◌, ◌<◌, ◌≡◌, ◌∙◌, arith, List, ◌++◌, length, Option, some, none, true, false, Bool,
  ok, subst, get_elem?_lt, get_elem?-append_left, ◌==◌,
}
use matchy.Mmdb.Types.{RecordSize}
use matchy.Mmdb.Types
use matchy.Mmdb.Tree.{SearchTree, LookupResult}
use matchy.IpTree.{IpVersion, v4, v6, bit_at}
use matchy.IpTree.Trie.{Trie, void, leaf, branch}
use matchy.IpTree.Find.{find}
use matchy.IpTree.Routes.{Route, LongestMatch, Offers, AtMost, Uncovered}
use matchy.IpTree.Table.{Fit, total_len, Built, insert_routes-Built}
use matchy.IpTree.Build.{build}
use matchy.LongestPrefix.Records.{header_of, limit, HoldsNode, read_record-bytes}
use matchy.LongestPrefix.Written.{value, value-lt, build_lem}
use matchy.LongestPrefix.Walk.{locate, Reads}
use matchy.IpTree.Bounds.{AllInRange-get}

-- The answer is the data offset of a longest prefix of the address, and `none` where there is none.
abbrev pub Answers : List Route → ℕ → Option LookupResult → Type 0
Answers rs a none = Uncovered rs a
Answers rs a (some r) = (len : ℕ) × Offers rs a r.data_offset len × AtMost rs a len

-- Two searches that branch on the same bit.
both_sides :
    {X Y : Type 0} (P : X → Type 0) (Q : Y → Type 0) (x x' : X) (y y' : Y)
    → (P x → Q y)
    → (P x' → Q y')
    → (b : Bool) → P (elim b [ true ↦ x | false ↦ x' ])
    → Q (elim b [ true ↦ y | false ↦ y' ])
both_sides P Q x x' y y' f g true h = f h
both_sides P Q x x' y y' f g false h = g h

-- `locate` and `find` agree on the entry.
pub locate-find :
    (rs : List Route) (a depth : ℕ) (t : Trie)
    → LongestMatch rs a (find t a depth)
    → Answers rs a (locate t a depth)
unfolding locate find
locate-find rs a depth void h = h
locate-find rs a depth (leaf o e) h = (e, h.0, h.1)
locate-find rs a depth (branch i l r) h =
    both_sides (LongestMatch rs a) (Answers rs a) (find l a (depth + 1)) (find r a (depth + 1))
      (locate l a (depth + 1)) (locate r a (depth + 1)) (locate-find rs a (depth + 1) l)
      (locate-find rs a (depth + 1) r) (bit_at a depth == 0) h

-- The reader's name for the version of a tree.
abbrev pub version_of : IpVersion → Types.IpVersion
version_of v4 = Types.v4
version_of v6 = Types.v6

-- A table that was built and serialised, in front of the rest of a file.
pub record Database (size : RecordSize) (v : IpVersion) (d : ℕ) (rs : List Route) (rest : List ℕ)
    : Type 0 where
  pub built : Built size v d rs
  pub bytes : List ℕ
  pub builds : build built.tree ≡ ok (bytes, length built.tree.nodes)
  pub reads :
      Reads
        (record {
          bytes = bytes ++ rest;
          header = header_of size (version_of v) (length built.tree.nodes);
        })
        built.tree.nodes

-- The reader's view of it.
abbrev pub search_tree :
    {size : RecordSize} {v : IpVersion} {d : ℕ} {rs : List Route} {rest : List ℕ}
    → Database size v d rs rest
    → SearchTree
search_tree {size} {v} {rest} db = record {
  bytes = db.bytes ++ rest;
  header = header_of size (version_of v) (length db.built.tree.nodes);
}

-- A table that fits the record size has a database.
pub database :
    (size : RecordSize) (v : IpVersion) (d : ℕ) (rs : List Route) (rest : List ℕ)
    → Fit v d rs
    → 17 + total_len rs + d < limit size
    → limit size ≤ 2 ^ 32
    → Database size v d rs rest
database size v d rs rest fit room small =
    let built = insert_routes-Built size v d rs fit (omega arith) in
    let bound = built.nodes_bound in
    let nodes = built.tree.nodes in
    let fits : length nodes + 16 + d < limit size = omega arith in
    let (bytes, builds, size_is, at) =
      build_lem built.tree d built.ranged (rw built.records fits) in
    record {
      built = built;
      bytes = bytes;
      builds = builds;
      reads = λ i n e.
          let (hl, hr) = AllInRange-get (length nodes) d i nodes e built.ranged in
          read_record-bytes size (version_of v) (bytes ++ rest) (length nodes) i _ _
            (get_elem?_lt nodes i e)
            (λ m b g.
              let held =
                subst
                  (λ s.
                    HoldsNode s bytes i (value (length nodes) n.left)
                      (value (length nodes) n.right))
                  built.records (at i n e) m b g in
              get_elem?-append_left bytes rest _ (get_elem?_lt bytes _ held) ∙ held)
            (value-lt size (length nodes) d fits n.left hl)
            (value-lt size (length nodes) d fits n.right hr);
    }
