-- ===== src/Glob/Print.antt =====
-- Writing segments back as a pattern, with every character of a literal escaped.
use matchy.Base.{
  ℕ, zero, suc, ◌≤◌, ◌≡◌, refl, sym, ap, ◌∙◌, subst, arith, List, [], ◌∷◌, ◌++◌, length, true,
  false, not, ok, ◌>>=◌, ◌↔◌, append-nil, append_assoc,
}
use matchy.Glob.{
  MatchMode, GlobSegment, literal, star, question, char_class, GlobPattern, is_empty, matches,
}
use matchy.Glob.Parse.{
  next_token, flush_literal, parse_loop, parse, new, escape_char, star_char, question_char,
}
use matchy.Glob.Matching.{Same, Matches}
use matchy.Glob.Budget.{matches_iff}
use matchy.Glob.Form.{Formed, parse-first_pass}

abbrev pub escaped : List ℕ → List ℕ
escaped [] = []
escaped (c ∷ cs) = escape_char ∷ c ∷ escaped cs

-- Classes have no escapes, and are left out.
abbrev pub print : List GlobSegment → List ℕ
print [] = []
print (literal lit ∷ segs) = escaped lit ++ print segs
print (star ∷ segs) = star_char ∷ print segs
print (question ∷ segs) = question_char ∷ print segs
print (char_class items negated ∷ segs) = print segs

abbrev pub ClassFree : List GlobSegment → Type 0
ClassFree [] = Unit
ClassFree (literal lit ∷ segs) = ClassFree segs
ClassFree (star ∷ segs) = ClassFree segs
ClassFree (question ∷ segs) = ClassFree segs
ClassFree (char_class items negated ∷ segs) = ⊥

-- Reading an escaped literal puts its characters into the buffer.
parse_loop-escaped :
    (lit rest : List ℕ) (fuel : ℕ) (buf : List ℕ) (done : List GlobSegment)
    → length (escaped lit ++ rest) ≤ fuel
    → (fuel' : ℕ) × (length rest ≤ fuel')
      × (parse_loop fuel (escaped lit ++ rest) buf done ≡ parse_loop fuel' rest (buf ++ lit) done)
unfolding parse_loop next_token
parse_loop-escaped [] rest fuel buf done le =
    (fuel, le, ap (λ b. parse_loop fuel rest b done) (sym (append-nil buf)))
parse_loop-escaped (c ∷ lit) rest zero buf done le = absurd (omega arith)
parse_loop-escaped (c ∷ lit) rest (suc fuel) buf done le =
    let (fuel', less, runs) = parse_loop-escaped lit rest fuel (buf ++ c ∷ []) done (omega arith) in
    (fuel', less, runs ∙ ap (λ b. parse_loop fuel' rest b done) (append_assoc buf (c ∷ []) lit))

parse_loop-print :
    (segs : List GlobSegment) (fuel : ℕ) (buf : List ℕ) (done : List GlobSegment)
    → length (print segs) ≤ fuel
    → ClassFree segs
    → Formed (not (is_empty buf)) segs
    → parse_loop fuel (print segs) buf done ≡ ok (flush_literal buf done ++ segs)
unfolding parse_loop next_token
parse_loop-print [] fuel buf done le free h = ap ok (sym (append-nil (flush_literal buf done)))
parse_loop-print (literal lit ∷ segs) fuel (c ∷ buf) done le free h = absurd (let e = h.0 in cc)
parse_loop-print (literal [] ∷ segs) fuel [] done le free h = absurd (let e = h.1 in cc)
parse_loop-print (literal (c ∷ lit) ∷ segs) fuel [] done le free h =
    let (fuel', less, runs) = parse_loop-escaped (c ∷ lit) (print segs) fuel [] done le in
    runs
    ∙ parse_loop-print segs fuel' (c ∷ lit) done less free h.2
    ∙ ap ok (append_assoc done (literal (c ∷ lit) ∷ []) segs)
parse_loop-print (star ∷ segs) zero buf done le free h = absurd (omega arith)
parse_loop-print (star ∷ segs) (suc fuel) buf done le free h =
    parse_loop-print segs fuel [] (flush_literal buf done ++ star ∷ []) (omega arith) free h
    ∙ ap ok (append_assoc (flush_literal buf done) (star ∷ []) segs)
parse_loop-print (question ∷ segs) zero buf done le free h = absurd (omega arith)
parse_loop-print (question ∷ segs) (suc fuel) buf done le free h =
    parse_loop-print segs fuel [] (flush_literal buf done ++ question ∷ []) (omega arith) free h
    ∙ ap ok (append_assoc (flush_literal buf done) (question ∷ []) segs)
parse_loop-print (char_class items negated ∷ segs) fuel buf done le free h = absurd free

-- Parsing the text of segments that are in form and have no class gives the segments back.
pub parse-print :
    (segs : List GlobSegment) → ClassFree segs → Formed false segs → parse (print segs) ≡ ok segs
parse-print segs free h =
    parse-first_pass (print segs)
    ∙ parse_loop-print segs (length (print segs)) [] [] (omega arith) free h

-- The text alone matches a literal of it, up to case where the mode says so.
Matches-literal :
    (mode : MatchMode) (lit text : List ℕ)
    → Matches mode (literal lit ∷ []) text ↔ Same mode lit text
Matches-literal mode lit text = (
  (λ (front, rest, split, same, end).
      let whole : front ≡ text =
        sym (append-nil front) ∙ ap (λ r. front ++ r) (sym end) ∙ sym split in
      subst (Same mode lit) whole same),
  (λ same. (text, [], sym (append-nil text), same, refl)),
)

-- A pattern made from a text by escaping each of its characters is accepted by `new`, and `matches` returns
-- `true` for that text alone, up to ASCII case in the mode `CaseInsensitive`. The text is not empty.
pub new-escaped :
    (mode : MatchMode) (c : ℕ) (cs text : List ℕ)
    → (p : GlobPattern) × (new (escaped (c ∷ cs)) mode ≡ ok p)
      × ((matches p text ≡ true) ↔ Same mode (c ∷ cs) text)
unfolding new
new-escaped mode c cs text =
    let lit = c ∷ cs in
    let p : GlobPattern = record {
      pattern = escaped lit;
      segments = literal lit ∷ [];
      mode = mode;
    } in
    let printed : print (literal lit ∷ []) ≡ escaped lit = append-nil (escaped lit) in
    let parsed : parse (escaped lit) ≡ ok (literal lit ∷ []) =
      ap parse (sym printed) ∙ parse-print (literal lit ∷ []) tt (refl, refl, tt) in
    let right = matches_iff p text (omega arith) in
    let whole = Matches-literal mode lit text in
    (
      p,
      ap
          (λ r. r >>= λ segments.
            ok (record { pattern = escaped lit; segments = segments; mode = mode }))
          parsed,
      ((λ m. whole.0 (right.0 m)), (λ s. right.1 (whole.1 s))),
    )
