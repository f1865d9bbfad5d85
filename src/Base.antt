-- ===== src/Base.antt =====
-- The names that the other modules share: the libraries', passed on, and those of the children.
pub mod Tests
pub mod Lists
pub mod Results
pub mod Bits
pub mod Bytes
pub mod LittleEndian
pub mod Orders
pub mod Holds
pub use Tests.{ltb, leb, ◌==◌, if◌then◌else◌, ltb→lt, lt→ltb, leb→le, ==_iff, tests}
pub use Tests.{Bool-cases, Option-cases}
pub use Lists.{
  length, get_elem?, set, take, drop, replicate, get_elem?-replicate_below, append-nil,
  append_assoc, length-append, length-set,
}
pub use Lists.{get_elem?-set_self, get_elem?-set_ne, length-replicate}
pub use Lists.{
  get_elem?_lt, get_elem?-append_left, get_elem?-append_right, get_elem?-append_end, set-append_end,
}
pub use Lists.{take-append-drop, length-take_le, take-append, drop-append}
pub use Results.{Error, Result, ok, err, ◌>>=◌, ◌>>◌, guard, >>=-eq-ok}
pub use Prim.Native.Nat.{ℕ, zero, suc, ◌+◌, ◌-◌, ◌*◌, ◌/◌, ◌%◌, ◌^◌, ◌≤◌, ◌<◌}
pub use mathlib.Core.Path.{◌≡◌, refl, sym, ap, ◌∙◌, subst}
pub use mathlib.Core.Logic.{◌≢◌, ◌↔◌, ◌⊎◌, inl, inr}
pub use mathlib.Core.Bool.{Bool, true, false, not, ◌&&◌, ◌||◌}
pub use mathlib.Core.Option.{Option, none, some}
pub use mathlib.Core.List.{List, [], ◌∷◌, ◌++◌, map}
pub use native.Mathlib.Omega.{arith}
unfoldable pub use native.Mathlib.Decide.{dec_lt, ℕ_discrete}
