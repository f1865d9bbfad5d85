-- ===== src/DataSection/Entries.antt =====
-- The entries of a map: in the order of their keys, and collected from a run of entries as
-- `HashMap::insert` does it.
use matchy.Base.{
  ℕ, suc, ◌≡◌, refl, sym, ap, subst, ◌∙◌, arith, List, [], ◌∷◌, false, if◌then◌else◌, Bool-cases,
  inl, inr,
}
use matchy.Base.Bytes.{same_bytes}
use matchy.DataSection.{
  DataValue, Fields, end, field, count_fields, before, insert_pair, sort_by_key, encode_fields,
  encode_to_buffer,
}
use matchy.DataSection.Decode.{insert_field}

-- `sort_by_key`, on the entries themselves.
abbrev pub place_field : List ℕ → DataValue → Fields → Fields
place_field k v end = field k v end
place_field k v (field l w fs) =
    if before k l then field k v (field l w fs) else field l w (place_field k v fs)

abbrev pub sort_fields : Fields → Fields
sort_fields end = end
sort_fields (field k v fs) = place_field k v (sort_fields fs)

-- A statement about each entry.
abbrev pub Each : (List ℕ → DataValue → Type 0) → Fields → Type 0
Each P end = Unit
Each P (field k v fs) = P k v × Each P fs

-- A key that no entry has, and entries of which no two have the same key.
abbrev pub Absent : List ℕ → Fields → Type 0
Absent k fs = Each (λ l w. same_bytes k l ≡ false) fs

abbrev pub Distinct : Fields → Type 0
Distinct end = Unit
Distinct (field k v fs) = Absent k fs × Distinct fs

-- The entries with something made of each value.
abbrev pub pairs_by {ℓ} : {A : Type ℓ} → (DataValue → A) → Fields → List (List ℕ × A)
pairs_by make end = []
pairs_by make (field k v fs) = (k, make v) ∷ pairs_by make fs

-- Making and sorting commute.
module _ {ℓ} {A : Type ℓ} (make : DataValue → A) where
  insert_pair-place_field :
      (k : List ℕ) (v : DataValue) (fs : Fields)
      → insert_pair (k, make v) (pairs_by make fs) ≡ pairs_by make (place_field k v fs)
  insert_pair-place_field k v end = refl
  insert_pair-place_field k v (field l w fs) = elim (Bool-cases (before k l)) [
    | inl h ↦ rw h refl
    | inr h ↦ rw h (ap (λ r. (l, make w) ∷ r) (insert_pair-place_field k v fs))
  ]

  pub sort_by_key-pairs_by :
      (fs : Fields) → sort_by_key (pairs_by make fs) ≡ pairs_by make (sort_fields fs)
  sort_by_key-pairs_by end = refl
  sort_by_key-pairs_by (field k v fs) =
      ap (insert_pair (k, make v)) (sort_by_key-pairs_by fs)
      ∙ insert_pair-place_field k v (sort_fields fs)

encode_fields-pairs_by : (fs : Fields) → encode_fields fs ≡ pairs_by encode_to_buffer fs
unfolding encode_to_buffer
encode_fields-pairs_by end = refl
encode_fields-pairs_by (field k v fs) =
    ap (λ r. (k, encode_to_buffer v) ∷ r) (encode_fields-pairs_by fs)

pub sort_by_key-encode_fields :
    (fs : Fields) → sort_by_key (encode_fields fs) ≡ encode_fields (sort_fields fs)
sort_by_key-encode_fields fs =
    ap sort_by_key (encode_fields-pairs_by fs)
    ∙ sort_by_key-pairs_by encode_to_buffer fs
    ∙ sym (encode_fields-pairs_by (sort_fields fs))

count-place_field :
    (k : List ℕ) (v : DataValue) (fs : Fields)
    → count_fields (place_field k v fs) ≡ suc (count_fields fs)
count-place_field k v end = refl
count-place_field k v (field l w fs) = elim (Bool-cases (before k l)) [
  | inl h ↦ rw h refl
  | inr h ↦ rw h (ap suc (count-place_field k v fs))
]

pub count-sort_fields : (fs : Fields) → count_fields (sort_fields fs) ≡ count_fields fs
count-sort_fields end = refl
count-sort_fields (field k v fs) =
    count-place_field k v (sort_fields fs) ∙ ap suc (count-sort_fields fs)

-- What holds of each entry holds in any order.
module _ (P : List ℕ → DataValue → Type 0) where
  Each-place_field :
      (k : List ℕ) (v : DataValue) (fs : Fields) → P k v → Each P fs → Each P (place_field k v fs)
  Each-place_field k v end p all = (p, tt)
  Each-place_field k v (field l w fs) p (q, all) = elim (Bool-cases (before k l)) [
    | inl h ↦ rw h (p, (q, all))
    | inr h ↦ rw h (q, Each-place_field k v fs p all)
  ]

  pub Each-sort_fields : (fs : Fields) → Each P fs → Each P (sort_fields fs)
  Each-sort_fields end all = tt
  Each-sort_fields (field k v fs) (p, all) =
      Each-place_field k v (sort_fields fs) p (Each-sort_fields fs all)

same_bytes_sym : (s t : List ℕ) → same_bytes s t ≡ same_bytes t s
same_bytes_sym [] [] = refl
same_bytes_sym [] (d ∷ t) = refl
same_bytes_sym (c ∷ s) [] = refl
same_bytes_sym (c ∷ s) (d ∷ t) = ground (arith, same_bytes_sym s t)

Distinct-place_field :
    (k : List ℕ) (v : DataValue) (fs : Fields)
    → Absent k fs
    → Distinct fs
    → Distinct (place_field k v fs)
Distinct-place_field k v end new all = (tt, tt)
Distinct-place_field k v (field l w fs) (other, new) (apart, all) = elim (Bool-cases (before k l)) [
  | inl h ↦ rw h ((other, new), (apart, all))
  | inr h ↦ rw h (
    Each-place_field (λ m u. same_bytes l m ≡ false) k v fs (same_bytes_sym l k ∙ other) apart,
    Distinct-place_field k v fs new all,
  )
]

pub Distinct-sort_fields : (fs : Fields) → Distinct fs → Distinct (sort_fields fs)
Distinct-sort_fields end all = tt
Distinct-sort_fields (field k v fs) (new, all) =
    Distinct-place_field k v (sort_fields fs)
      (Each-sort_fields (λ l w. same_bytes k l ≡ false) fs new) (Distinct-sort_fields fs all)

-- The entries inserted one after the other.
abbrev pub collect : Fields → Fields → Fields
collect end m = m
collect (field k v fs) m = collect fs (insert_field k v m)

abbrev join : Fields → Fields → Fields
join end gs = gs
join (field k v fs) gs = field k v (join fs gs)

join-end : (fs : Fields) → join fs end ≡ fs
join-end end = refl
join-end (field k v fs) = ap (field k v) (join-end fs)

join_assoc : (fs gs hs : Fields) → join (join fs gs) hs ≡ join fs (join gs hs)
join_assoc end gs hs = refl
join_assoc (field k v fs) gs hs = ap (field k v) (join_assoc fs gs hs)

module _ (P : List ℕ → DataValue → Type 0) (k : List ℕ) (v : DataValue) (fs : Fields) where
  joined_part : (m : Fields) → Each P (join m (field k v fs)) → P k v
  joined_part end all = all.0
  joined_part (field l w m) all = joined_part m all.1

-- A new key goes to the end.
insert_field-new :
    (k : List ℕ) (v : DataValue) (m fs : Fields)
    → Distinct (join m (field k v fs))
    → insert_field k v m ≡ join m (field k v end)
insert_field-new k v end fs all = refl
insert_field-new k v (field l w m) fs (apart, all) =
    let other : same_bytes k l ≡ false =
      same_bytes_sym k l ∙ joined_part (λ x u. same_bytes l x ≡ false) k v fs m apart in
    rw other (ap (field l w) (insert_field-new k v m fs all))

collect-join : (fs m : Fields) → Distinct (join m fs) → collect fs m ≡ join m fs
collect-join end m all = sym (join-end m)
collect-join (field k v fs) m all =
    let joined = join_assoc m (field k v end) fs in
    ap (collect fs) (insert_field-new k v m fs all)
    ∙ collect-join fs (join m (field k v end)) (subst Distinct (sym joined) all)
    ∙ joined

pub collect-Distinct : (fs : Fields) → Distinct fs → collect fs end ≡ fs
collect-Distinct fs all = collect-join fs end all
