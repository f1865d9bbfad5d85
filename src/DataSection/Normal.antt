-- ===== src/DataSection/Normal.antt =====
-- Values that hold other values: how deep they are, which can be written, and what a reader finds of them.
use matchy.Base.{
  ℕ, suc, ◌≤◌, ◌<◌, ◌≡◌, refl, ap, ◌∙◌, arith, List, ltb, if◌then◌else◌, Bool-cases, inl, inr,
}
use matchy.DataSection.{
  DataValue, string, map, array, Items, nil, cons, Fields, end, field, count_items, count_fields,
  before,
}
use matchy.DataSection.Sizes.{max_size}
use matchy.DataSection.RoundTrip.{IsFlat}
use matchy.DataSection.Entries.{
  Absent, Distinct, place_field, sort_fields, collect, Distinct-sort_fields, collect-Distinct,
}

abbrev pub larger : ℕ → ℕ → ℕ
larger a b = if ltb a b then b else a

pub larger_le : (a b n : ℕ) → larger a b ≤ n → (a ≤ n) × (b ≤ n)
larger_le a b n h = ground arith

-- How deep maps and arrays are nested, what a reader finds of a value (the entries of maps in the order of
-- their keys), and which values can be written: arrays have at most 28 elements, and the keys of a map are
-- strings that differ.
abbrev mutual
  pub depth : DataValue → ℕ
  depth (map m) = suc (depth_fields m)
  depth (array a) = suc (depth_items a)
  depth v = 0

  pub depth_items : Items → ℕ
  depth_items nil = 0
  depth_items (cons v vs) = larger (depth v) (depth_items vs)

  pub depth_fields : Fields → ℕ
  depth_fields end = 0
  depth_fields (field k v fs) = larger (depth v) (depth_fields fs)

abbrev mutual
  pub normal : DataValue → DataValue
  normal (map m) = map (sort_fields (normal_fields m))
  normal (array a) = array (normal_items a)
  normal v = v

  pub normal_items : Items → Items
  normal_items nil = nil
  normal_items (cons v vs) = cons (normal v) (normal_items vs)

  pub normal_fields : Fields → Fields
  normal_fields end = end
  normal_fields (field k v fs) = field k (normal v) (normal_fields fs)

abbrev mutual
  pub Storable : DataValue → Type 0
  Storable (map m) = (count_fields m < max_size) × Distinct m × StorableFields m
  Storable (array a) = (count_items a < 29) × StorableItems a
  Storable v = IsFlat v

  pub StorableItems : Items → Type 0
  StorableItems nil = Unit
  StorableItems (cons v vs) = Storable v × StorableItems vs

  pub StorableFields : Fields → Type 0
  StorableFields end = Unit
  StorableFields (field k v fs) = IsFlat (string k) × Storable v × StorableFields fs

normal-place_field :
    (k : List ℕ) (v : DataValue) (fs : Fields)
    → normal_fields (place_field k v fs) ≡ place_field k (normal v) (normal_fields fs)
normal-place_field k v end = refl
normal-place_field k v (field l w fs) = elim (Bool-cases (before k l)) [
  | inl h ↦ rw h refl
  | inr h ↦ rw h (ap (field l (normal w)) (normal-place_field k v fs))
]

pub normal-sort_fields :
    (fs : Fields) → normal_fields (sort_fields fs) ≡ sort_fields (normal_fields fs)
normal-sort_fields end = refl
normal-sort_fields (field k v fs) =
    normal-place_field k v (sort_fields fs) ∙ ap (place_field k (normal v)) (normal-sort_fields fs)

Absent-normal : (k : List ℕ) (fs : Fields) → Absent k fs → Absent k (normal_fields fs)
Absent-normal k end new = tt
Absent-normal k (field l w fs) (other, new) = (other, Absent-normal k fs new)

pub Distinct-normal : (fs : Fields) → Distinct fs → Distinct (normal_fields fs)
Distinct-normal end all = tt
Distinct-normal (field k v fs) (new, all) = (Absent-normal k fs new, Distinct-normal fs all)

-- The sorted entries are found in their order.
pub collect-sorted :
    (m : Fields)
    → Distinct m
    → collect (normal_fields (sort_fields m)) end ≡ sort_fields (normal_fields m)
collect-sorted m all =
    ap (λ fs. collect fs end) (normal-sort_fields m)
    ∙ collect-Distinct (sort_fields (normal_fields m))
        (Distinct-sort_fields (normal_fields m) (Distinct-normal m all))
