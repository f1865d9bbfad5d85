-- ===== src/AhoCorasick/Imaging.antt =====
-- Reading what a state wrote (src/ac_offset.rs, `serialize` and `find_transition`): its node, its
-- transitions in each encoding, and its ids.
use matchy.Base.{
  ℕ, zero, suc, ◌+◌, ◌*◌, ◌%◌, ◌^◌, ◌≤◌, ◌<◌, ◌≡◌, refl, ap, ◌∙◌, subst, arith, ◌==◌, leb, List, [],
  ◌∷◌, ◌++◌, true, length, take, drop, get_elem?, some,
}
use Prim.Native.Nat.{min}
use matchy.Base.LittleEndian.{
  to_le_bytes, from_le_bytes, from_le_bytes-to_le_bytes, length-to_le_bytes,
}
use matchy.Base.Holds.{Holds, Holds-left, Holds-right, drop-Holds}
use matchy.Base.Orders.{Member, here, later}
use matchy.AhoCorasick.{BuilderState}
use matchy.AhoCorasick.Search.{
  AcNodeHot, AcAutomaton, u32_at, node_of, fits, read_node, read_edges, read_ids,
}
use matchy.AhoCorasick.Serialize.{StateKind, kind_byte, edge_bytes, target_bytes, node_bytes}
use matchy.AhoCorasick.Placing.{all_edge_bytes, all_id_bytes}

pub u32_at-Holds :
    (buffer : List ℕ) (c x : ℕ)
    → x < 2 ^ 32
    → Holds buffer c (to_le_bytes 4 x)
    → u32_at buffer c ≡ x
unfolding u32_at to_le_bytes
u32_at-Holds buffer c x small h =
    let (rest, split) = drop-Holds buffer c (to_le_bytes 4 x) h in
    ap (λ l. from_le_bytes (take 4 l)) split ∙ from_le_bytes-to_le_bytes 4 x small

abbrev pub node_with : StateKind → ℕ → BuilderState → ℕ → ℕ → ℕ → AcNodeHot
node_with kind c st e f p = record {
  state_kind = kind_byte kind;
  one_char = c;
  edge_count = min (length st.transitions) 255;
  pattern_count = min (length st.outputs) 255;
  edges_offset = e;
  failure_offset = f;
  patterns_offset = p;
}

-- The fields of a node.
pub node_of-node_bytes :
    (kind : StateKind) (c : ℕ) (st : BuilderState) (e f p : ℕ) (rest : List ℕ)
    → e < 2 ^ 32
    → f < 2 ^ 32
    → p < 2 ^ 32
    → node_of (node_bytes kind c st e f p ++ rest) ≡ some (node_with kind c st e f p)
unfolding node_of node_bytes u32_at to_le_bytes
node_of-node_bytes kind c st e f p rest small_e small_f small_p =
    fields (from_le_bytes-to_le_bytes 4 e small_e) (from_le_bytes-to_le_bytes 4 f small_f)
      (from_le_bytes-to_le_bytes 4 p small_p)
  where
    fields :
        {x y z : ℕ}
        → x ≡ e
        → y ≡ f
        → z ≡ p
        → some (node_with kind c st x y z) ≡ some (node_with kind c st e f p)
    fields ex ey ez = rw (ex, ey, ez) refl

pub Holds-target_bytes :
    (ts buffer : List ℕ) (c i v : ℕ)
    → get_elem? ts i ≡ some v
    → Holds buffer c (target_bytes ts)
    → Holds buffer (c + i * 4) (to_le_bytes 4 v)
unfolding target_bytes
Holds-target_bytes [] buffer c i v found h = absurd (cc)
Holds-target_bytes (t ∷ ts) buffer c zero v found h =
    let this : t ≡ v = cc in
    let e : c ≡ c + 0 * 4 = omega arith in
    subst (λ n. Holds buffer n (to_le_bytes 4 v)) e
      (subst (λ x. Holds buffer c (to_le_bytes 4 x)) this
        (Holds-left buffer c (to_le_bytes 4 t) (target_bytes ts) h))
Holds-target_bytes (t ∷ ts) buffer c (suc i) v found h =
    let size = length-to_le_bytes 4 t in
    let e : c + length (to_le_bytes 4 t) + i * 4 ≡ c + suc i * 4 = omega arith in
    subst (λ n. Holds buffer n (to_le_bytes 4 v)) e
      (Holds-target_bytes ts buffer (c + length (to_le_bytes 4 t)) i v found
        (Holds-right buffer c (to_le_bytes 4 t) (target_bytes ts) h))

module _ (automaton : AcAutomaton) (even : automaton.address % 4 ≡ 0) where
  pub fits-true :
      (c size : ℕ) → c % 4 ≡ 0 → c + size ≤ length automaton.buffer → fits automaton c size ≡ true
  unfolding fits
  fits-true c size even_c room =
      let a : ((automaton.address + c) % 4 == 0) ≡ true = ground arith in
      let b : leb (c + size) (length automaton.buffer) ≡ true = ground arith in rw (a, b) refl

  pub read_node-node_bytes :
      (c : ℕ) (kind : StateKind) (char : ℕ) (st : BuilderState) (e f p : ℕ)
      → c % 4 ≡ 0
      → e < 2 ^ 32
      → f < 2 ^ 32
      → p < 2 ^ 32
      → Holds automaton.buffer c (node_bytes kind char st e f p)
      → read_node automaton c ≡ some (node_with kind char st e f p)
  unfolding read_node
  read_node-node_bytes c kind char st e f p even_c small_e small_f small_p h =
      let (rest, split) = drop-Holds automaton.buffer c (node_bytes kind char st e f p) h in
      let size : length (node_bytes kind char st e f p) ≡ 16 =
        unfold node_bytes in (unfold to_le_bytes in refl) in
      let room = h.room in
      let fit = fits-true c 16 even_c (omega arith) in
      rw fit (ap node_of split ∙ node_of-node_bytes kind char st e f p rest small_e small_f small_p)

  read_edges-on :
      (count c ch t : ℕ) (es : List (ℕ × ℕ))
      → fits automaton c 8 ≡ true
      → from_le_bytes (take 1 (drop c automaton.buffer)) ≡ ch
      → u32_at automaton.buffer (c + 4) ≡ t
      → read_edges count automaton (c + 8) ≡ some es
      → read_edges (suc count) automaton c ≡ some ((ch, t) ∷ es)
  unfolding read_edges
  read_edges-on count c ch t es fit char target rest = rw (fit, rest, char, target) refl

  pub read_edges-all_edge_bytes :
      (es : List (ℕ × ℕ)) (c : ℕ)
      → c % 4 ≡ 0
      → ((ch t : ℕ) → Member {A = ℕ × ℕ} (ch, t) es → t < 2 ^ 32)
      → Holds automaton.buffer c (all_edge_bytes es)
      → read_edges (length es) automaton c ≡ some es
  unfolding all_edge_bytes
  read_edges-all_edge_bytes [] c even_c small h = unfold read_edges in refl
  read_edges-all_edge_bytes ((ch, t) ∷ es) c even_c small h =
      let bytes = edge_bytes (ch, t) in
      let mine = Holds-left automaton.buffer c bytes (all_edge_bytes es) h in
      let size : length bytes ≡ 8 = unfold edge_bytes in (unfold to_le_bytes in refl) in
      let rest =
        subst (λ n. Holds automaton.buffer (c + n) (all_edge_bytes es)) size
          (Holds-right automaton.buffer c bytes (all_edge_bytes es) h) in
      let room = mine.room in
      let (behind_it, split) = drop-Holds automaton.buffer c bytes mine in
      let char : from_le_bytes (take 1 (drop c automaton.buffer)) ≡ ch =
        ap (λ l. from_le_bytes (take 1 l)) split ∙ first_byte ch t behind_it in
      let target =
        u32_at-Holds automaton.buffer (c + 4) t (small ch t here) (target_part c ch t mine) in
      read_edges-on (length es) c ch t es (fits-true c 8 even_c (omega arith)) char target
        (read_edges-all_edge_bytes es (c + 8) (omega arith) (λ d u m. small d u (later m)) rest)
    where
      first_byte :
          (ch t : ℕ) (rest : List ℕ) → from_le_bytes (take 1 (edge_bytes (ch, t) ++ rest)) ≡ ch
      first_byte ch t rest =
          let sum : ch + 256 * 0 ≡ ch = omega arith in
          unfold edge_bytes in (unfold from_le_bytes in sum)

      target_part :
          (c ch t : ℕ)
          → Holds automaton.buffer c (edge_bytes (ch, t))
          → Holds automaton.buffer (c + 4) (to_le_bytes 4 t)
      target_part c ch t h =
          Holds-right automaton.buffer c (ch ∷ 0 ∷ 0 ∷ 0 ∷ []) (to_le_bytes 4 t)
            (unfold edge_bytes in h)

  pub read_ids-all_id_bytes :
      (ids : List ℕ) (c : ℕ)
      → ((id : ℕ) → Member id ids → id < 2 ^ 32)
      → Holds automaton.buffer c (all_id_bytes ids)
      → read_ids (length ids) automaton.buffer c ≡ ids
  unfolding all_id_bytes read_ids
  read_ids-all_id_bytes [] c small h = refl
  read_ids-all_id_bytes (id ∷ ids) c small h =
      let first =
        u32_at-Holds automaton.buffer c id (small id here)
          (Holds-left automaton.buffer c (to_le_bytes 4 id) (all_id_bytes ids) h) in
      let rest =
        subst (λ n. Holds automaton.buffer (c + n) (all_id_bytes ids)) (length-to_le_bytes 4 id)
          (Holds-right automaton.buffer c (to_le_bytes 4 id) (all_id_bytes ids) h) in
      let ih = read_ids-all_id_bytes ids (c + 4) (λ i m. small i (later m)) rest in
      ap (λ x. x ∷ read_ids (length ids) automaton.buffer (c + 4)) first ∙ ap (λ l. id ∷ l) ih
