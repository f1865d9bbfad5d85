-- ===== src/Glob/Examples.antt =====
-- Patterns parsed and matched.
use matchy.Base.{ℕ, ◌≡◌, refl, arith, List, [], ◌∷◌, true, false, ok, ◌↔◌}
use matchy.Glob.{
  MatchMode, case_sensitive, case_insensitive, range, GlobSegment, literal, star, question,
  char_class, GlobPattern, matches, to_ascii_lowercase,
}
use matchy.Glob.Parse.{
  parse, new, parse_loop, next_token, class_token, class_loop, class_step, complete_range, negation,
  optimize_loop,
}
use matchy.Glob.Matching.{Matches, Same, Verdict, Exhausted, matches-Verdict}
use matchy.Glob.Budget.{matches_iff}
use matchy.Glob.Folding.{lowered, matches-lowered}
use matchy.Glob.Form.{Formed, parse-Sane, parse-first_pass}
use matchy.Glob.Total.{Sane}
use matchy.Glob.Print.{parse-print, new-escaped}

-- "*.[a-c]?"
abbrev text_pattern : List ℕ
text_pattern = 42 ∷ 46 ∷ 91 ∷ 97 ∷ 45 ∷ 99 ∷ 93 ∷ 63 ∷ []

abbrev segments : List GlobSegment
segments = star ∷ literal (46 ∷ []) ∷ char_class (range 97 99 ∷ []) false ∷ question ∷ []

parse-text_pattern : parse text_pattern ≡ ok segments
unfolding parse parse_loop next_token class_token class_loop class_step complete_range negation
    optimize_loop
parse-text_pattern = refl

abbrev pattern_in : MatchMode → GlobPattern
pattern_in mode = record { pattern = text_pattern; segments = segments; mode = mode }

-- "x.BC"
abbrev text : List ℕ
text = 120 ∷ 46 ∷ 66 ∷ 67 ∷ []

matches_iff_example :
    (matches (pattern_in case_insensitive) text ≡ true) ↔ Matches case_insensitive segments text
matches_iff_example = matches_iff (pattern_in case_insensitive) text (omega arith)

matches-text : matches (pattern_in case_insensitive) text ≡ true
unfolding matches to_ascii_lowercase
matches-text = refl

matches-Verdict_example :
    Verdict
      (Matches case_sensitive segments text)
      (Exhausted (pattern_in case_sensitive) text)
      (matches (pattern_in case_sensitive) text)
matches-Verdict_example = matches-Verdict (pattern_in case_sensitive) text

matches-lowered_example :
    matches (pattern_in case_insensitive) (lowered text)
    ≡ matches (pattern_in case_insensitive) text
matches-lowered_example = matches-lowered (pattern_in case_insensitive) text refl

parse-Sane_example : Sane (Formed false) (parse text_pattern)
parse-Sane_example = parse-Sane text_pattern

parse-first_pass_example : parse text_pattern ≡ parse_loop 8 text_pattern [] []
parse-first_pass_example = parse-first_pass text_pattern

-- "*\.?"
parse-print_example : parse (42 ∷ 92 ∷ 46 ∷ 63 ∷ []) ≡ ok (star ∷ literal (46 ∷ []) ∷ question ∷ [])
parse-print_example = parse-print (star ∷ literal (46 ∷ []) ∷ question ∷ []) tt (refl, refl, tt)

new-escaped_example :
    (p : GlobPattern) × (new (92 ∷ 42 ∷ 92 ∷ 97 ∷ []) case_sensitive ≡ ok p)
    × ((matches p (42 ∷ 97 ∷ []) ≡ true) ↔ Same case_sensitive (42 ∷ 97 ∷ []) (42 ∷ 97 ∷ []))
new-escaped_example = new-escaped case_sensitive 42 (97 ∷ []) (42 ∷ 97 ∷ [])
