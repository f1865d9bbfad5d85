-- ===== src/Glob/Parse.antt =====
-- Parsing of a glob pattern (`parse`, `optimize_segments` and `new` of src/glob.rs).
use matchy.Base.{
  ℕ, zero, suc, ltb, ◌==◌, if◌then◌else◌, List, [], ◌∷◌, ◌++◌, length, Option, none, some, Bool,
  true, false, not, ◌&&◌, ◌||◌, Result, ok, err, ◌>>=◌, ◌>>◌, guard,
}
use matchy.Base.Results.{Error, invalid_pattern, panic, out_of_fuel}
use matchy.Glob.{
  MatchMode, CharClassItem, char, range, GlobSegment, literal, star, question, char_class,
  GlobPattern,
}

-- The characters with a meaning.
abbrev pub star_char : ℕ
star_char = 42

abbrev pub question_char : ℕ
question_char = 63

abbrev pub open_char : ℕ
open_char = 91

abbrev pub close_char : ℕ
close_char = 93

abbrev pub escape_char : ℕ
escape_char = 92

abbrev pub dash_char : ℕ
dash_char = 45

abbrev pub bang_char : ℕ
bang_char = 33

abbrev pub caret_char : ℕ
caret_char = 94

abbrev pub is_some : Option ℕ → Bool
is_some none = false
is_some (some c) = true

abbrev pub no_items : List CharClassItem → Bool
no_items [] = true
no_items (item ∷ items) = false

-- `if let Some(ch) = prev_char { class_items.push(CharClassItem::Char(ch)) }`
abbrev pub push_prev : List CharClassItem → Option ℕ → List CharClassItem
push_prev items none = items
push_prev items (some c) = items ++ char c ∷ []

-- `chars.peek().is_some() && chars.peek() != Some(&']')`
abbrev pub range_goes_on : List ℕ → Bool
range_goes_on [] = false
range_goes_on (c ∷ cs) = not (c == close_char)

-- What one round of the loop over a class does: it ends, goes on with `class_items`, `prev_char` and
-- `expect_range_end`, or fails.
pub data ClassStep : Type 0 where
  finished : List CharClassItem → ClassStep
  goes_on : List CharClassItem → Option ℕ → Bool → ClassStep
  failed : Error → ClassStep

-- The end of a range; `prev_char.unwrap()` panics on `None`.
unfoldable pub complete_range : List CharClassItem → Option ℕ → ℕ → ClassStep
complete_range items none end = failed panic
complete_range items (some start) end =
    if ltb end start
    then failed invalid_pattern
    else goes_on (items ++ range start end ∷ []) none false

unfoldable pub class_step : ℕ → List ℕ → List CharClassItem → Option ℕ → Bool → ClassStep
unfolding complete_range
class_step c cs items prev expect =
    if c == close_char && (not (no_items items) || is_some prev)
    then finished (push_prev items prev)
    else if c == dash_char && is_some prev && range_goes_on cs
    then goes_on items prev true
    else if expect
    then complete_range items prev c
    else goes_on (push_prev items prev) (some c) false

-- The items of the class, and the characters behind it.
unfoldable pub class_loop :
    List ℕ → List CharClassItem → Option ℕ → Bool → Result (List CharClassItem × List ℕ)
unfolding class_step
class_loop [] items prev expect = err invalid_pattern
class_loop (c ∷ cs) items prev expect = elim (class_step c cs items prev expect) [
  | finished items' ↦ ok (items', cs)
  | goes_on items' prev' expect' ↦ class_loop cs items' prev' expect'
  | failed e ↦ err e
]

-- Whether the class is negated, and its characters.
unfoldable pub negation : List ℕ → Bool × List ℕ
negation [] = (false, [])
negation (c ∷ cs) = if c == bang_char || c == caret_char then (true, cs) else (false, c ∷ cs)

-- What one round of the loop over the pattern reads: a segment, or a character of a literal.
pub data Token : Type 0 where
  segment : GlobSegment → Token
  plain : ℕ → Token

unfoldable pub class_token : List ℕ → Result (Token × List ℕ)
unfolding class_loop negation
class_token cs = do
  (items, rest) ← class_loop (negation cs).1 [] none false
  guard (not (no_items items)) invalid_pattern
  ok (segment (char_class items (negation cs).0), rest)

abbrev pub escaped_token : List ℕ → Result (Token × List ℕ)
escaped_token [] = err invalid_pattern
escaped_token (c ∷ cs) = ok (plain c, cs)

unfoldable pub next_token : ℕ → List ℕ → Result (Token × List ℕ)
unfolding class_token
next_token c cs =
    if c == star_char
    then ok (segment star, cs)
    else if c == question_char
    then ok (segment question, cs)
    else if c == open_char
    then class_token cs
    else if c == escape_char
    then escaped_token cs
    else ok (plain c, cs)

-- `flush_literal`
abbrev pub flush_literal : List ℕ → List GlobSegment → List GlobSegment
flush_literal [] segs = segs
flush_literal (c ∷ buf) segs = segs ++ literal (c ∷ buf) ∷ []

-- The buffer and the segments after a token.
abbrev pub push : Token → List ℕ → List GlobSegment → List ℕ × List GlobSegment
push (segment s) buf segs = ([], flush_literal buf segs ++ s ∷ [])
push (plain c) buf segs = (buf ++ c ∷ [], segs)

-- `while let Some(ch) = chars.next()`; each round takes a character, so the length of the pattern is
-- enough fuel.
unfoldable pub parse_loop : ℕ → List ℕ → List ℕ → List GlobSegment → Result (List GlobSegment)
unfolding next_token
parse_loop fuel [] buf segs = ok (flush_literal buf segs)
parse_loop zero (c ∷ cs) buf segs = err out_of_fuel
parse_loop (suc fuel) (c ∷ cs) buf segs = do
  (token, rest) ← next_token c cs
  parse_loop fuel rest (push token buf segs).0 (push token buf segs).1

-- The loop of `optimize_segments`.
unfoldable pub optimize_loop : List GlobSegment → List ℕ → List GlobSegment → List GlobSegment
optimize_loop [] buf optimized = flush_literal buf optimized
optimize_loop (literal s ∷ segs) buf optimized = optimize_loop segs (buf ++ s) optimized
optimize_loop (star ∷ segs) buf optimized =
    optimize_loop segs [] (flush_literal buf optimized ++ star ∷ [])
optimize_loop (question ∷ segs) buf optimized =
    optimize_loop segs [] (flush_literal buf optimized ++ question ∷ [])
optimize_loop (char_class items negated ∷ segs) buf optimized =
    optimize_loop segs [] (flush_literal buf optimized ++ char_class items negated ∷ [])

abbrev pub optimize_segments : List GlobSegment → List GlobSegment
optimize_segments segs = optimize_loop segs [] []

unfoldable pub parse : List ℕ → Result (List GlobSegment)
unfolding parse_loop optimize_loop
parse pattern = do
  segments ← parse_loop (length pattern) pattern [] []
  ok (optimize_segments segments)

-- `GlobPattern::new`
unfoldable pub new : List ℕ → MatchMode → Result GlobPattern
unfolding parse
new pattern mode = do
  segments ← parse pattern
  ok (record { pattern = pattern; segments = segments; mode = mode })
