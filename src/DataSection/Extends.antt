-- ===== src/DataSection/Extends.antt =====
-- Buffers that grow at the end, and the strings that stand in them while values are encoded.
use matchy.Base.{
  ℕ, suc, ◌+◌, ◌-◌, ◌^◌, ◌%◌, ◌≤◌, ◌<◌, ◌≡◌, refl, sym, subst, ◌∙◌, arith, List, [], ◌∷◌, ◌++◌,
  length, length-append, append-nil, true, false, leb, ok, err, some, none, get_elem?,
  get_elem?-append_left, get_elem?_lt, if◌then◌else◌, Bool-cases, Option-cases, inl, inr, Option,
  Bool,
}
use matchy.Base.Bytes.{same_bytes, same_bytes-eq}
use matchy.DataSection.{
  DataValue, pointer, string, encode_pointer, encode_string, encode_to_buffer, encode_with_size,
}
use matchy.DataSection.Decode.{byte_at, decode_at, decode, resolve_pointers, key_of}
use matchy.DataSection.Buffer.{Stands, middle-Stands}
use matchy.DataSection.RoundTrip.{IsFlat, read_flat}
use matchy.DataSection.Encoder.{DataEncoder, get, push_bytes, intern_string}

pub record Extends (short long : List ℕ) : Type 0 where
  pub at : (i b : ℕ) → byte_at short i ≡ ok b → byte_at long i ≡ ok b
  pub room : length short ≤ length long

pub Extends-refl : (b : List ℕ) → Extends b b
Extends-refl b = record { at = λ i x e. e; room = omega arith }

pub Extends-trans : {a b c : List ℕ} → Extends a b → Extends b c → Extends a c
Extends-trans f g = record {
  at = λ i x e. g.at i x (f.at i x e);
  room = let l = f.room in let r = g.room in omega arith;
}

pub Stands-Extends :
    {short long : List ℕ} {cursor : ℕ} {bs : List ℕ}
    → Extends short long
    → Stands short cursor bs
    → Stands long cursor bs
Stands-Extends g s = record {
  at = λ k b e. g.at _ b (s.at k b e);
  room = let l = s.room in let r = g.room in omega arith;
}

found_byte : (b : List ℕ) (i x : ℕ) → byte_at b i ≡ ok x → get_elem? b i ≡ some x
unfolding byte_at
found_byte b i x e = elim (Option-cases (get_elem? b i)) [
  | inl h ↦ absurd (let bad : err _ ≡ ok x = rw (byte_at, h) at e in cc)
  | inr (y, h) ↦ let same : ok y ≡ ok x = rw (byte_at, h) at e in cc
]

pub Extends-append : (b more : List ℕ) → Extends b (b ++ more)
unfolding byte_at
Extends-append b more = record {
  at = λ i x e.
      let h = found_byte b i x e in
      let there : get_elem? (b ++ more) i ≡ some x =
        get_elem?-append_left b more i (get_elem?_lt b i h) ∙ h in
      rw (byte_at, there) refl;
  room = omega (arith, length-append b more);
}

pub end-Stands : (b bs : List ℕ) → Stands (b ++ bs) (length b) bs
end-Stands b bs = subst (λ l. Stands (b ++ l) (length b) bs) (append-nil bs) (middle-Stands b bs [])

abbrev pub CacheHolds : DataEncoder → Type 0
CacheHolds e =
    (s : List ℕ) (o : ℕ)
    → get s e.string_cache ≡ some o
    → Stands e.buffer o (encode_string s) × IsFlat (string s)

-- What the decoder finds between two cursors where the string was encoded: the string, or a pointer to it.
pub record FoundString (k : ℕ) (buffer : List ℕ) (cursor behind : ℕ) (s : List ℕ) : Type 0 where
  pub raw : DataValue
  pub decoded : decode_at (suc (suc (suc k))) buffer 0 cursor ≡ ok (raw, behind)
  pub resolved : resolve_pointers (suc (suc (suc k))) buffer 0 raw ≡ ok (string s)
  pub key : key_of (decode (suc (suc (suc k))) buffer 0) raw ≡ ok s

pub record StringStep (s : List ℕ) (e e' : DataEncoder) : Type 0 where
  pub grows : Extends e.buffer e'.buffer
  pub same_map : e'.dedup_map ≡ e.dedup_map
  pub cached : length e'.buffer ≤ 2 ^ 32 → CacheHolds e → CacheHolds e'
  pub found :
      length e'.buffer ≤ 2 ^ 32
      → CacheHolds e
      → (buffer : List ℕ) → Extends e'.buffer buffer
      → (k : ℕ) → FoundString k buffer (length e.buffer) (length e'.buffer) s

module _ (k : ℕ) (buffer : List ℕ) (s : List ℕ) (flat : IsFlat (string s)) where
  plain_string :
      (cursor behind : ℕ)
      → Stands buffer cursor (encode_string s)
      → behind ≡ cursor + length (encode_string s)
      → FoundString k buffer cursor behind s
  unfolding encode_to_buffer decode_at
  plain_string cursor behind st end = record {
    raw = string s;
    decoded = rw end (read_flat (suc (suc k)) 0 buffer cursor (string s) flat st);
    resolved = refl;
    key = refl;
  }

  -- The string that a pointer leads to.
  followed :
      (o : ℕ)
      → Stands buffer o (encode_string s)
      → decode (suc (suc (suc k))) buffer 0 o ≡ ok (string s)
  unfolding encode_to_buffer decode_at
  followed o st =
      let above : leb 0 o ≡ true = ground arith in
      let same : o - 0 ≡ o = omega arith in
      let there = read_flat (suc k) 0 buffer o (string s) flat st in rw (above, same, there) refl

  pointed_string :
      (cursor behind o : ℕ)
      → Stands buffer o (encode_string s)
      → o < 2 ^ 32
      → Stands buffer cursor (encode_pointer o)
      → behind ≡ cursor + length (encode_pointer o)
      → FoundString k buffer cursor behind s
  unfolding encode_to_buffer decode_at
  pointed_string cursor behind o st small sp end = record {
    raw = pointer o;
    decoded = rw end (read_flat (suc (suc k)) 0 buffer cursor (pointer o) small sp);
    resolved = followed o st;
    key = rw (followed o st) refl;
  }

length-encode_string : (s : List ℕ) → 0 < length (encode_string s)
unfolding encode_string encode_with_size
length-encode_string s = omega arith

-- The cache after one more string has been put into it.
cache_more :
    (s : List ℕ) (e : DataEncoder)
    → IsFlat (string s)
    → length (e.buffer ++ encode_string s) ≤ 2 ^ 32
    → CacheHolds e
    → (t : List ℕ) (o : ℕ) → get t ((s, length e.buffer % 2 ^ 32) ∷ e.string_cache) ≡ some o
    → Stands (e.buffer ++ encode_string s) o (encode_string t) × IsFlat (string t)
cache_more s e flat room cache t o there = elim (Bool-cases (same_bytes t s)) [
  | inl h ↦
      let same = same_bytes-eq t s h in
      let place : length e.buffer % 2 ^ 32 ≡ o = let got = rw h at there in cc in
      let at : length e.buffer ≡ o =
        omega (arith, place, length-append e.buffer (encode_string s), length-encode_string s) in
      let st = end-Stands e.buffer (encode_string s) in rw (same, sym at) (st, flat)
  | inr h ↦
      let (st, old) = cache t o (rw h at there) in
      (Stands-Extends (Extends-append e.buffer (encode_string s)) st, old)
]

step-plain :
    (s : List ℕ) (e : DataEncoder)
    → IsFlat (string s)
    → StringStep s e (push_bytes (encode_string s) e)
step-plain s e flat = record {
  grows = Extends-append e.buffer (encode_string s);
  same_map = refl;
  cached = λ room cache t o there.
      let (st, old) = cache t o there in
      (Stands-Extends (Extends-append e.buffer (encode_string s)) st, old);
  found = λ room cache buffer g k.
      plain_string k buffer s flat (length e.buffer) _
        (Stands-Extends g (end-Stands e.buffer (encode_string s)))
        (length-append e.buffer (encode_string s));
}

step-new :
    (s : List ℕ) (e : DataEncoder)
    → IsFlat (string s)
    → StringStep s e (record e {
      buffer = e.buffer ++ encode_string s;
      string_cache = (s, length e.buffer % 2 ^ 32) ∷ e.string_cache;
    })
step-new s e flat = record {
  grows = Extends-append e.buffer (encode_string s);
  same_map = refl;
  cached = λ room cache. cache_more s e flat room cache;
  found = λ room cache buffer g k.
      plain_string k buffer s flat (length e.buffer) _
        (Stands-Extends g (end-Stands e.buffer (encode_string s)))
        (length-append e.buffer (encode_string s));
}

step-old :
    (s : List ℕ) (e : DataEncoder) (o : ℕ)
    → get s e.string_cache ≡ some o
    → StringStep s e (push_bytes (encode_pointer o) e)
step-old s e o there =
    let grown = Extends-append e.buffer (encode_pointer o) in
    record {
      grows = grown;
      same_map = refl;
      cached = λ room cache t p q. let (st, old) = cache t p q in (Stands-Extends grown st, old);
      found = λ room cache buffer g k.
          let (st, flat) = cache s o there in
          let r = st.room in
          let below : o < 2 ^ 32 =
            omega (arith, r, length-encode_string s, length-append e.buffer (encode_pointer o)) in
          pointed_string k buffer s flat (length e.buffer) _ o
            (Stands-Extends g (Stands-Extends grown st)) below
            (Stands-Extends g (end-Stands e.buffer (encode_pointer o)))
            (length-append e.buffer (encode_pointer o));
    }

-- The encoder afterwards, by the flag and by what the cache holds.
step-by :
    (s : List ℕ) (e : DataEncoder) (flag : Bool) (old : Option ℕ)
    → IsFlat (string s)
    → get s e.string_cache ≡ old
    → StringStep s e (
        if flag
        then elim old [
          | some existing_offset ↦ push_bytes (encode_pointer existing_offset) e
          | none ↦ record e {
            buffer = e.buffer ++ encode_string s;
            string_cache = (s, length e.buffer % 2 ^ 32) ∷ e.string_cache;
          }
        ]
        else push_bytes (encode_string s) e)
step-by s e false old flat there = step-plain s e flat
step-by s e true none flat there = step-new s e flat
step-by s e true (some o) flat there = step-old s e o there

pub intern_string-Step :
    (s : List ℕ) (e : DataEncoder) → IsFlat (string s) → StringStep s e (intern_string s e)
unfolding intern_string
intern_string-Step s e flat = step-by s e e.intern_strings (get s e.string_cache) flat refl
