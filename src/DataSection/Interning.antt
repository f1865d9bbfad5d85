-- ===== src/DataSection/Interning.antt =====
-- Values encoded with interning: what the decoder finds of them.
use matchy.Base.{ℕ, suc, ◌^◌, ◌≤◌, ◌≡◌, refl, ◌∙◌, arith, List, length, length-append, ok}
use matchy.DataSection.{
  DataValue, string, Items, nil, cons, Fields, end, field, count_items, count_fields,
  encode_to_buffer,
}
use matchy.DataSection.Decode.{
  decode_at, decode, decode_items, decode_entries, resolve_pointers, resolve_items, resolve_fields,
}
use matchy.DataSection.RoundTrip.{IsFlat, read_flat}
use matchy.DataSection.Entries.{Each, collect}
use matchy.DataSection.Normal.{depth, normal, normal_items, normal_fields, depth_items, larger_le}
use matchy.DataSection.Encoder.{
  DataEncoder, push_bytes, encode_value_interned, encode_items_interned,
}
use matchy.DataSection.Extends.{
  Extends, Extends-refl, Extends-trans, Extends-append, Stands-Extends, end-Stands, CacheHolds,
  intern_string-Step,
}

pub record Found (k : ℕ) (buffer : List ℕ) (cursor behind : ℕ) (v : DataValue) : Type 0 where
  pub raw : DataValue
  pub decoded : decode_at (suc (suc (suc k))) buffer 0 cursor ≡ ok (raw, behind)
  pub resolved : resolve_pointers (suc (suc (suc k))) buffer 0 raw ≡ ok (normal v)

pub record FoundItems (k : ℕ) (buffer : List ℕ) (cursor behind : ℕ) (vs : Items) : Type 0 where
  pub raws : Items
  pub decoded :
      decode_items (decode_at (suc (suc (suc k))) buffer 0) (count_items vs) cursor
      ≡ ok (raws, behind)
  pub resolved :
      resolve_items (resolve_pointers (suc (suc (suc k))) buffer 0) raws ≡ ok (normal_items vs)

abbrev pub SameKeys : Fields → Fields → Type 0
SameKeys end end = Unit
SameKeys end (field l w gs) = ⊥
SameKeys (field k v fs) end = ⊥
SameKeys (field k v fs) (field l w gs) = (k ≡ l) × SameKeys fs gs

pub record FoundFields (k : ℕ) (buffer : List ℕ) (cursor behind : ℕ) (fs : Fields) : Type 0 where
  pub raws : Fields
  pub same : SameKeys raws fs
  pub decoded :
      (m : Fields)
      → decode_entries
          (decode_at (suc (suc (suc k))) buffer 0)
          (decode (suc (suc (suc k))) buffer 0)
          (count_fields fs)
          cursor
          m
        ≡ ok (collect raws m, behind)
  pub resolved :
      resolve_fields (resolve_pointers (suc (suc (suc k))) buffer 0) raws ≡ ok (normal_fields fs)

-- From one encoder to the next: the buffer grows, the cache still holds, and `F` is found between the ends.
pub record Step (F : ℕ → List ℕ → ℕ → ℕ → Type 0) (deep : ℕ → Type 0) (e e' : DataEncoder)
    : Type 0 where
  pub grows : Extends e.buffer e'.buffer
  pub same_map : e'.dedup_map ≡ e.dedup_map
  pub cached : length e'.buffer ≤ 2 ^ 32 → CacheHolds e → CacheHolds e'
  pub found :
      length e'.buffer ≤ 2 ^ 32
      → CacheHolds e
      → (buffer : List ℕ) → Extends e'.buffer buffer
      → (k : ℕ) → deep k
      → F k buffer (length e.buffer) (length e'.buffer)

abbrev pub ValueStep : DataValue → DataEncoder → DataEncoder → Type 0
ValueStep v e e' = Step (λ k b c d. Found k b c d v) (λ k. depth v ≤ k) e e'

abbrev pub Works : DataValue → Type 0
Works v = (e : DataEncoder) → ValueStep v e (encode_value_interned v e)

abbrev pub ItemsStep : Items → DataEncoder → DataEncoder → Type 0
ItemsStep vs e e' = Step (λ k b c d. FoundItems k b c d vs) (λ k. depth_items vs ≤ k) e e'

abbrev pub FieldsStep : Fields → DataEncoder → DataEncoder → Type 0
FieldsStep fs e e' =
    Step (λ k b c d. FoundFields k b c d fs) (λ k. Each (λ l v. depth v ≤ k) fs) e e'

-- Bytes that are appended leave the cache as it was.
pub push-cached : (bs : List ℕ) (e : DataEncoder) → CacheHolds e → CacheHolds (push_bytes bs e)
push-cached bs e cache t o there =
    let (st, flat) = cache t o there in (Stands-Extends (Extends-append e.buffer bs) st, flat)

-- Values that are encoded as without interning.
pub push-Step :
    (v : DataValue) (e : DataEncoder)
    → IsFlat v
    → ((k : ℕ) (buffer : List ℕ) → resolve_pointers (suc k) buffer 0 v ≡ ok (normal v))
    → ValueStep v e (push_bytes (encode_to_buffer v) e)
push-Step v e flat resolved = record {
  grows = Extends-append e.buffer (encode_to_buffer v);
  same_map = refl;
  cached = λ room. push-cached (encode_to_buffer v) e;
  found = λ room cache buffer g k deep. record {
    raw = v;
    decoded = rw (length-append e.buffer (encode_to_buffer v)) (
        read_flat (suc (suc k)) 0 buffer (length e.buffer) v flat
          (Stands-Extends g (end-Stands e.buffer (encode_to_buffer v))));
    resolved = resolved (suc (suc k)) buffer;
  };
}

pub string-Step : (s : List ℕ) → IsFlat (string s) → Works (string s)
unfolding encode_value_interned
string-Step s flat e =
    let step = intern_string-Step s e flat in
    record {
      grows = step.grows;
      same_map = step.same_map;
      cached = step.cached;
      found = λ room cache buffer g k deep.
          let f = step.found room cache buffer g k in
          record { raw = f.raw; decoded = f.decoded; resolved = f.resolved };
    }

pub items-end : (e : DataEncoder) → ItemsStep nil e (encode_items_interned nil e)
unfolding encode_value_interned decode_items resolve_items
items-end e = record {
  grows = Extends-refl e.buffer;
  same_map = refl;
  cached = λ room cache. cache;
  found = λ room cache buffer g k deep. record { raws = nil; decoded = refl; resolved = refl };
}

pub items-more :
    (v : DataValue) (vs : Items)
    → Works v
    → ((e : DataEncoder) → ItemsStep vs e (encode_items_interned vs e))
    → (e : DataEncoder) → ItemsStep (cons v vs) e (encode_items_interned (cons v vs) e)
unfolding encode_value_interned decode_items resolve_items
items-more v vs first further e =
    let a = first e in
    let b = further (encode_value_interned v e) in
    let room_a : length (encode_items_interned vs (encode_value_interned v e)).buffer ≤ 2 ^ 32
        → length (encode_value_interned v e).buffer ≤ 2 ^ 32 =
      λ room. let l = b.grows.room in omega arith in
    record {
      grows = Extends-trans a.grows b.grows;
      same_map = b.same_map ∙ a.same_map;
      cached = λ room cache. b.cached room (a.cached (room_a room) cache);
      found = λ room cache buffer g k deep.
          let (head, tail) = larger_le (depth v) (depth_items vs) k deep in
          let f = a.found (room_a room) cache buffer (Extends-trans b.grows g) k head in
          let h = b.found room (a.cached (room_a room) cache) buffer g k tail in
          record {
            raws = cons f.raw h.raws;
            decoded = rw (f.decoded, h.decoded) refl;
            resolved = rw (f.resolved, h.resolved) refl;
          };
    }
