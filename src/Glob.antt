-- ===== src/Glob.antt =====
-- Glob patterns (src/glob.rs): segments, and the backtracking matcher with its step budget. A string
-- is the list of its characters, a character its code point; a byte offset of the source that stands at a
-- character boundary is the list of the characters that remain.
pub mod Classes
pub mod Matching
pub mod Budget
pub mod Folding
pub mod Parse
pub mod Total
pub mod Form
pub mod Print
mod Examples
use matchy.Base.{
  ℕ, zero, suc, ◌+◌, ◌-◌, ltb, leb, ◌==◌, if◌then◌else◌, List, [], ◌∷◌, length, drop, Bool, true,
  false, not, ◌&&◌, ◌||◌,
}

pub data MatchMode : Type 0 where
  case_sensitive case_insensitive : MatchMode

-- `Char(c)` and `Range(start, end)`
pub data CharClassItem : Type 0 where
  char : ℕ → CharClassItem
  range : ℕ → ℕ → CharClassItem

pub data GlobSegment : Type 0 where
  literal : List ℕ → GlobSegment
  star question : GlobSegment
  char_class : List CharClassItem → Bool → GlobSegment

pub record GlobPattern : Type 0 where
  pub pattern : List ℕ
  pub segments : List GlobSegment
  pub mode : MatchMode

-- `char::to_ascii_lowercase` and `char::eq_ignore_ascii_case`
unfoldable pub to_ascii_lowercase : ℕ → ℕ
to_ascii_lowercase c = if leb 65 c && leb c 90 then c + 32 else c

abbrev pub eq_ignore_ascii_case : ℕ → ℕ → Bool
eq_ignore_ascii_case a b = to_ascii_lowercase a == to_ascii_lowercase b

-- The three normalisations of a character under `match self.mode`.
abbrev pub normalized : MatchMode → ℕ → ℕ
normalized case_sensitive c = c
normalized case_insensitive c = to_ascii_lowercase c

-- `remaining.starts_with(lit)`
unfoldable pub starts_with : List ℕ → List ℕ → Bool
starts_with text [] = true
starts_with [] (l ∷ ls) = false
starts_with (c ∷ cs) (l ∷ ls) = if c == l then starts_with cs ls else false

-- `for text_char in remaining.chars()`: whether all compared equal, the rest of the literal, and the
-- number of characters matched.
unfoldable pub compare_loop : List ℕ → List ℕ → ℕ → Bool × List ℕ × ℕ
compare_loop [] lit matched = (true, lit, matched)
compare_loop (c ∷ cs) [] matched = (true, [], matched)
compare_loop (c ∷ cs) (l ∷ ls) matched =
    let rest = compare_loop cs ls (matched + 1) in
    if eq_ignore_ascii_case l c then rest else (false, ls, matched)

abbrev pub is_empty : List ℕ → Bool
is_empty [] = true
is_empty (c ∷ cs) = false

-- Whether the literal stands at the front of the text, and how far it reaches.
unfoldable pub literal_at : MatchMode → List ℕ → List ℕ → Bool × ℕ
unfolding starts_with compare_loop
literal_at case_sensitive lit text = (starts_with text lit, length lit)
literal_at case_insensitive lit text =
    let (matches, rest, matched) = compare_loop text lit 0 in (matches && is_empty rest, matched)

abbrev pub item_has : MatchMode → ℕ → CharClassItem → Bool
item_has mode c (char d) = normalized mode c == normalized mode d
item_has mode c (range start end) =
    leb (normalized mode start) (normalized mode c) && leb (normalized mode c) (normalized mode end)

-- `chars.iter().any(..)`
unfoldable pub in_class : MatchMode → ℕ → List CharClassItem → Bool
in_class mode c [] = false
in_class mode c (item ∷ items) = item_has mode c item || in_class mode c items

abbrev pub class_has : MatchMode → List CharClassItem → Bool → ℕ → Bool
class_has mode items negated c =
    if negated then not (in_class mode c items) else in_class mode c items

-- A call of the matcher on the rest of the segments: the result and the steps that remain.
abbrev pub Call : Type 0
Call = List ℕ → ℕ → Bool × ℕ

-- The loop of `*`: the rest of the pattern is tried here, then at each later character.
unfoldable pub star_loop : Call → List ℕ → ℕ → Bool × ℕ
star_loop call [] steps = call [] steps
star_loop call (c ∷ cs) steps = elim (call (c ∷ cs) steps).0 [
  | true ↦ (true, (call (c ∷ cs) steps).1)
  | false ↦ star_loop call cs (call (c ∷ cs) steps).1
]

-- What a literal does once its comparison has been made.
unfoldable pub after_literal : Call → Bool × ℕ → List ℕ → ℕ → Bool × ℕ
after_literal call (true, advance) text steps = call (drop advance text) steps
after_literal call (false, advance) text steps = (false, steps)

-- What a segment for one character does when `steps` have been left after its own.
unfoldable pub first_char : (ℕ → Bool) → Call → List ℕ → ℕ → Bool × ℕ
first_char accepts call [] steps = (false, steps)
first_char accepts call (c ∷ cs) steps = elim (accepts c) [
  | true ↦ call cs steps
  | false ↦ (false, steps)
]

unfoldable pub matches_impl : MatchMode → List GlobSegment → List ℕ → ℕ → Bool × ℕ
unfolding star_loop first_char after_literal literal_at in_class
matches_impl mode segs text zero = (false, 0)
matches_impl mode [] text (suc steps) = (is_empty text, steps)
matches_impl mode (literal lit ∷ segs) text (suc steps) =
    after_literal (matches_impl mode segs) (literal_at mode lit text) text steps
matches_impl mode (question ∷ segs) text (suc steps) =
    first_char (λ c. true) (matches_impl mode segs) text steps
matches_impl mode (char_class items negated ∷ segs) text (suc steps) =
    first_char (class_has mode items negated) (matches_impl mode segs) text steps
matches_impl mode (star ∷ []) text (suc steps) = (true, steps)
matches_impl mode (star ∷ seg ∷ segs) text (suc steps) =
    star_loop (matches_impl mode (seg ∷ segs)) text steps

-- The budget of one call of `matches`.
abbrev pub max_steps : ℕ
max_steps = 100000

unfoldable pub matches : GlobPattern → List ℕ → Bool
unfolding matches_impl
matches p text = (matches_impl p.mode p.segments text max_steps).0
