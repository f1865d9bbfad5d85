-- ===== src/IpTree/Backfill.antt =====
-- `backfill_less_specific` of src/ip_tree_builder.rs on the subtree that a node id leads to.
use matchy.Base.{ℕ, ◌<◌, ◌≡◌, List, length, get_elem?, sym, ok}
use matchy.IpTree.{Node, backfill_less_specific}
use matchy.IpTree.Trie.{Trie, branch, Avoids, Separate, Height, fill}
use matchy.IpTree.Arena.{Holds, backfill_less_specific_lem}

-- On an arena that holds a subtree at node `i`, no higher than the fuel and with no id twice, the backfill
-- ends. It fills the subtree: void edges get the entry, and entries with a shorter prefix are replaced. No
-- node is added, and the nodes outside the subtree stay.
pub backfill_less_specific-fill :
    (offset len fuel : ℕ) (ns : List Node) (i : ℕ) (l r : Trie)
    → Height fuel (branch i l r)
    → Separate (branch i l r)
    → Holds ns (branch i l r)
    → (j : ℕ) → j < length ns
    → Avoids j (branch i l r)
    → (ns' : List Node) × (backfill_less_specific fuel offset len ns i ≡ ok ns')
      × Holds ns' (fill offset len (branch i l r))
      × (length ns' ≡ length ns)
      × (get_elem? ns' j ≡ get_elem? ns j)
backfill_less_specific-fill offset len fuel ns i l r high separate holds j below outside =
    let (ns', runs, done, size) =
      backfill_less_specific_lem offset len fuel (branch i l r) high separate ns holds in
    (ns', runs, done.holds, size, done.frame.same j below (λ e. outside.0 (sym e)) outside)
