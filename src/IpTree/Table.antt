-- ===== src/IpTree/Table.antt =====
-- A whole history of insertions into a new tree.
use matchy.Base.{
  ℕ, ◌+◌, ◌^◌, ◌≤◌, ◌<◌, ◌≡◌, refl, ◌∙◌, arith, List, [], ◌∷◌, length, Result, ok, ◌>>=◌,
}
use matchy.Mmdb.Types.{RecordSize}
use matchy.IpTree.{IpTreeBuilder, IpVersion, v4, v6, max_depth, insert_bits_u128, new_v4, new_v6}
use matchy.IpTree.Trie.{Trie, void}
use matchy.IpTree.Find.{find}
use matchy.IpTree.Bounds.{Ranged, insert_loop-Keeps}
use matchy.Base.{leb, guard, >>=-eq-ok, ap, sym}
use matchy.Base.Results.{invalid_pattern}
use matchy.IpTree.{insert_loop}
use matchy.IpTree.Routes.{Route, Implements, insert_bits-Implements}

-- The calls of `insert_bits_u128`, the last one first.
unfoldable pub insert_routes : IpTreeBuilder → List Route → Result IpTreeBuilder
insert_routes b [] = ok b
insert_routes b (r ∷ rs) = do b' ← insert_routes b rs; insert_bits_u128 b' r.bits r.len r.offset

abbrev pub new_tree : RecordSize → IpVersion → IpTreeBuilder
new_tree size v4 = new_v4 size
new_tree size v6 = new_v6 size

-- Prefixes that the tree accepts, with data offsets up to `d`. A prefix of length 0 is not one: it
-- has no edge.
abbrev pub Fit : IpVersion → ℕ → List Route → Type 0
Fit v d [] = Unit
Fit v d (r ∷ rs) = (0 < r.len) × (r.len ≤ max_depth v) × (r.offset ≤ d) × Fit v d rs

abbrev pub total_len : List Route → ℕ
total_len [] = 0
total_len (r ∷ rs) = r.len + total_len rs

pub new-Implements : (size : RecordSize) (v : IpVersion) → Implements (new_tree size v) [] void void
unfolding find
new-Implements size v4 = record {
  holds = (refl, tt, tt);
  separate = (tt, tt, tt, tt, tt, tt);
  height = (tt, tt);
  answers = λ a. ground arith;
  ipv4 = λ h. absurd h;
  high = λ h. refl;
  short = λ h. (tt, tt);
}
new-Implements size v6 = record {
  holds = (refl, tt, tt);
  separate = (tt, tt, tt, tt, tt, tt);
  height = (tt, tt);
  answers = λ a. ground arith;
  ipv4 = λ h. absurd h;
  high = λ h. refl;
  short = λ h. (tt, tt);
}

new-version : (size : RecordSize) (v : IpVersion) → (new_tree size v).ip_version ≡ v
new-version size v4 = refl
new-version size v6 = refl

new-nodes : (size : RecordSize) (v : IpVersion) → length (new_tree size v).nodes ≡ 1
new-nodes size v4 = refl
new-nodes size v6 = refl

new-size : (size : RecordSize) (v : IpVersion) → (new_tree size v).record_size ≡ size
new-size size v4 = refl
new-size size v6 = refl

pub new-Ranged : (size : RecordSize) (v : IpVersion) (d : ℕ) → Ranged d (new_tree size v).nodes
new-Ranged size v4 d = (tt, tt, tt)
new-Ranged size v6 d = (tt, tt, tt)

-- A successful call replaces the arena and nothing else.
insert_bits_inv :
    (b b' : IpTreeBuilder) (bits len offset : ℕ)
    → insert_bits_u128 b bits len offset ≡ ok b'
    → (insert_loop len b.nodes 0 0 bits len offset ≡ ok b'.nodes) × (b'.record_size ≡ b.record_size)
unfolding insert_bits_u128
insert_bits_inv b b' bits len offset e =
    let (_, _, rest) = >>=-eq-ok (guard (leb len (max_depth b.ip_version)) invalid_pattern) _ e in
    let (ns, run, done) = >>=-eq-ok (insert_loop len b.nodes 0 0 bits len offset) _ rest in
    let same : record b { nodes = ns } ≡ b' = cc in
    (
      run ∙ ap (λ (z : IpTreeBuilder). ok z.nodes) same,
      sym (ap (λ (z : IpTreeBuilder). z.record_size) same),
    )

-- A call that succeeds keeps the arena in range: node ids stay below its length, and data offsets up to
-- `d`, where the offset of the call is at most `d` and the arena was in range. The arena does not shrink.
pub insert_bits-Ranged :
    (d : ℕ) (b b' : IpTreeBuilder) (bits len offset : ℕ)
    → offset ≤ d
    → Ranged d b.nodes
    → insert_bits_u128 b bits len offset ≡ ok b'
    → Ranged d b'.nodes × (length b.nodes ≤ length b'.nodes)
insert_bits-Ranged d b b' bits len offset small ranged e =
    let (run, _) = insert_bits_inv b b' bits len offset e in
    insert_loop-Keeps d bits len offset small len b.nodes 0 0 ranged b'.nodes run

-- What a history of insertions gives.
pub record Built (size : RecordSize) (v : IpVersion) (d : ℕ) (rs : List Route) : Type 0 where
  pub tree : IpTreeBuilder
  pub left : Trie
  pub right : Trie
  pub runs : insert_routes (new_tree size v) rs ≡ ok tree
  pub implements : Implements tree rs left right
  pub ranged : Ranged d tree.nodes
  pub version : tree.ip_version ≡ v
  pub records : tree.record_size ≡ size
  pub nodes_bound : length tree.nodes ≤ 1 + total_len rs

-- Every history of prefixes that fit succeeds, and the tree answers each address by longest match.
pub insert_routes-Built :
    (size : RecordSize) (v : IpVersion) (d : ℕ) (rs : List Route)
    → Fit v d rs
    → 1 + total_len rs ≤ 2 ^ 32
    → Built size v d rs
unfolding insert_routes
insert_routes-Built size v d [] fit room = record {
  tree = new_tree size v;
  left = void;
  right = void;
  runs = refl;
  implements = new-Implements size v;
  ranged = new-Ranged size v d;
  version = new-version size v;
  records = new-size size v;
  nodes_bound = omega (arith, new-nodes size v);
}
insert_routes-Built size v d (r ∷ rs) (pos, le, small, fit) room =
    let before = insert_routes-Built size v d rs fit (omega arith) in
    let bound = before.nodes_bound in
    let (b', l', r', runs, implements, _, same, grown) =
      insert_bits-Implements before.tree rs before.left before.right r before.implements pos
        (rw before.version le) (omega arith) in
    let (_, size_same) = insert_bits_inv before.tree b' r.bits r.len r.offset runs in
    record {
      tree = b';
      left = l';
      right = r';
      runs = rw before.runs runs;
      implements = implements;
      ranged =
          (insert_bits-Ranged d before.tree b' r.bits r.len r.offset small before.ranged runs).0;
      version = same ∙ before.version;
      records = size_same ∙ before.records;
      nodes_bound = omega arith;
    }
