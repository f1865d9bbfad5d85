-- ===== src/Glob/Form.antt =====
-- The segments of a parsed pattern: literals are not empty and do not touch, classes have items, ranges
-- run upwards.
use matchy.Base.{
  ℕ, zero, suc, ◌≤◌, ◌≡◌, refl, sym, ap, ◌∙◌, subst, arith, List, [], ◌∷◌, ◌++◌, length, Bool, true,
  false, not, Result, ok, err, ◌>>=◌, append-nil, append_assoc,
}
use matchy.Glob.{GlobSegment, literal, star, question, char_class, is_empty}
use matchy.Glob.Parse.{
  Token, segment, plain, next_token, flush_literal, push, parse_loop, optimize_loop,
  optimize_segments, parse,
}
use matchy.Glob.Total.{Sane, Sane->>=, GoodSegment, GoodToken, next_token-Sane}

-- Segments in form, behind a literal or not.
abbrev pub Formed : Bool → List GlobSegment → Type 0
Formed behind [] = Unit
Formed behind (literal lit ∷ segs) = (behind ≡ false) × (is_empty lit ≡ false) × Formed true segs
Formed behind (star ∷ segs) = Formed false segs
Formed behind (question ∷ segs) = Formed false segs
Formed behind (char_class items negated ∷ segs) =
    GoodSegment (char_class items negated) × Formed false segs

-- Whether a literal stands at the end.
abbrev pub ends : Bool → List GlobSegment → Bool
ends behind [] = behind
ends behind (literal lit ∷ segs) = ends true segs
ends behind (star ∷ segs) = ends false segs
ends behind (question ∷ segs) = ends false segs
ends behind (char_class items negated ∷ segs) = ends false segs

Formed-append :
    (b : Bool) (xs ys : List GlobSegment)
    → Formed b xs
    → Formed (ends b xs) ys
    → Formed b (xs ++ ys)
Formed-append b [] ys h k = k
Formed-append b (literal lit ∷ xs) ys h k = (h.0, h.1, Formed-append true xs ys h.2 k)
Formed-append b (star ∷ xs) ys h k = Formed-append false xs ys h k
Formed-append b (question ∷ xs) ys h k = Formed-append false xs ys h k
Formed-append b (char_class items negated ∷ xs) ys h k = (h.0, Formed-append false xs ys h.1 k)

ends-append : (b : Bool) (xs ys : List GlobSegment) → ends b (xs ++ ys) ≡ ends (ends b xs) ys
ends-append b [] ys = refl
ends-append b (literal lit ∷ xs) ys = ends-append true xs ys
ends-append b (star ∷ xs) ys = ends-append false xs ys
ends-append b (question ∷ xs) ys = ends-append false xs ys
ends-append b (char_class items negated ∷ xs) ys = ends-append false xs ys

GoodSegment-Formed : (b : Bool) (s : GlobSegment) → GoodSegment s → Formed b (s ∷ [])
GoodSegment-Formed b (literal lit) g = absurd g
GoodSegment-Formed b star g = tt
GoodSegment-Formed b question g = tt
GoodSegment-Formed b (char_class items negated) g = (g, tt)

GoodSegment-ends : (b : Bool) (s : GlobSegment) → GoodSegment s → ends b (s ∷ []) ≡ false
GoodSegment-ends b (literal lit) g = absurd g
GoodSegment-ends b star g = refl
GoodSegment-ends b question g = refl
GoodSegment-ends b (char_class items negated) g = refl

-- Between two rounds of the loop the segments are in form, and none at the end is a literal.
abbrev Open : List GlobSegment → Type 0
Open segs = Formed false segs × (ends false segs ≡ false)

flush_literal-Formed :
    (buf : List ℕ) (segs : List GlobSegment) → Open segs → Formed false (flush_literal buf segs)
flush_literal-Formed [] segs (h, e) = h
flush_literal-Formed (c ∷ buf) segs (h, e) =
    Formed-append false segs (literal (c ∷ buf) ∷ []) h (e, refl, tt)

push-Open :
    (buf : List ℕ) (segs : List GlobSegment) (s : GlobSegment)
    → Open segs
    → GoodSegment s
    → Open (flush_literal buf segs ++ s ∷ [])
push-Open buf segs s o g =
    let flushed = flush_literal buf segs in
    (
      Formed-append false flushed (s ∷ []) (flush_literal-Formed buf segs o)
          (GoodSegment-Formed (ends false flushed) s g),
      ends-append false flushed (s ∷ []) ∙ GoodSegment-ends (ends false flushed) s g,
    )

-- What follows one token.
parse_round :
    (n : ℕ) (buf : List ℕ) (segs : List GlobSegment)
    (next : List ℕ → List ℕ → List GlobSegment → Result (List GlobSegment))
    → ((rest buf' : List ℕ) (segs' : List GlobSegment)
        → length rest ≤ n
        → Open segs'
        → Sane (Formed false) (next rest buf' segs'))
    → Open segs
    → (token : Token) (rest : List ℕ) → GoodToken n (token, rest)
    → Sane (Formed false) (next rest (push token buf segs).0 (push token buf segs).1)
parse_round n buf segs next ih o (segment s) rest (g, less) =
    ih rest [] (flush_literal buf segs ++ s ∷ []) less (push-Open buf segs s o g)
parse_round n buf segs next ih o (plain d) rest less = ih rest (buf ++ d ∷ []) segs less o

parse_loop-Sane :
    (fuel : ℕ) (cs buf : List ℕ) (segs : List GlobSegment)
    → length cs ≤ fuel
    → Open segs
    → Sane (Formed false) (parse_loop fuel cs buf segs)
unfolding parse_loop
parse_loop-Sane zero [] buf segs le o = flush_literal-Formed buf segs o
parse_loop-Sane (suc fuel) [] buf segs le o = flush_literal-Formed buf segs o
parse_loop-Sane zero (c ∷ cs) buf segs le o = absurd (omega arith)
parse_loop-Sane (suc fuel) (c ∷ cs) buf segs le o =
    Sane->>= (GoodToken (length cs)) (Formed false) (next_token c cs) _ (next_token-Sane c cs)
      (λ (token, rest) good.
        parse_round (length cs) buf segs (parse_loop fuel)
          (λ rest' buf' segs' less o'. parse_loop-Sane fuel rest' buf' segs' (omega arith) o') o
          token rest good)

-- On segments in form the second pass finds nothing to merge.
optimize_loop-Formed :
    (segs : List GlobSegment) (buf : List ℕ) (done : List GlobSegment)
    → Formed (not (is_empty buf)) segs
    → optimize_loop segs buf done ≡ flush_literal buf done ++ segs
unfolding optimize_loop
optimize_loop-Formed [] buf done h = sym (append-nil (flush_literal buf done))
optimize_loop-Formed (literal lit ∷ segs) (c ∷ buf) done h = absurd (let e = h.0 in cc)
optimize_loop-Formed (literal [] ∷ segs) [] done h = absurd (let e = h.1 in cc)
optimize_loop-Formed (literal (c ∷ lit) ∷ segs) [] done h =
    optimize_loop-Formed segs (c ∷ lit) done h.2 ∙ append_assoc done (literal (c ∷ lit) ∷ []) segs
optimize_loop-Formed (star ∷ segs) buf done h =
    optimize_loop-Formed segs [] (flush_literal buf done ++ star ∷ []) h
    ∙ append_assoc (flush_literal buf done) (star ∷ []) segs
optimize_loop-Formed (question ∷ segs) buf done h =
    optimize_loop-Formed segs [] (flush_literal buf done ++ question ∷ []) h
    ∙ append_assoc (flush_literal buf done) (question ∷ []) segs
optimize_loop-Formed (char_class items negated ∷ segs) buf done h =
    optimize_loop-Formed segs [] (flush_literal buf done ++ char_class items negated ∷ []) h.1
    ∙ append_assoc (flush_literal buf done) (char_class items negated ∷ []) segs

-- `optimize_segments` changes nothing on segments in form.
pub optimize_segments-Formed :
    (segs : List GlobSegment) → Formed false segs → optimize_segments segs ≡ segs
optimize_segments-Formed segs h = optimize_loop-Formed segs [] [] h

-- `parse` ends for every pattern: it returns segments in form, with literals that are neither empty nor
-- adjacent and classes that have items and ranges that run upwards, or it fails with `InvalidPattern`. It
-- never panics.
pub parse-Sane : (pattern : List ℕ) → Sane (Formed false) (parse pattern)
unfolding parse
parse-Sane pattern =
    Sane->>= (Formed false) (Formed false) (parse_loop (length pattern) pattern [] []) _
      (parse_loop-Sane (length pattern) pattern [] [] (omega arith) (tt, refl))
      (λ segs h. subst (Formed false) (sym (optimize_segments-Formed segs h)) h)

-- The second pass of `parse` never changes what the first one found: with and without it the result is
-- the same.
pub parse-first_pass :
    (pattern : List ℕ) → parse pattern ≡ parse_loop (length pattern) pattern [] []
unfolding parse
parse-first_pass pattern =
    unchanged (parse_loop (length pattern) pattern [] [])
      (parse_loop-Sane (length pattern) pattern [] [] (omega arith) (tt, refl))
  where
    unchanged :
        (r : Result (List GlobSegment))
        → Sane (Formed false) r
        → (r >>= λ segs. ok (optimize_segments segs)) ≡ r
    unchanged (ok segs) h = ap ok (optimize_segments-Formed segs h)
    unchanged (err e) h = refl
