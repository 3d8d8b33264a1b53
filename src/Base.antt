-- ===== src/Base.antt =====
-- Names that every module shares: the libraries', passed on, and the helpers of two children.
-- Go strings and byte slices are `Text`: lists of native numbers, one for each byte or rune.
mod Tests
mod Lists
mod Errors
mod Sets
mod Order
mod Arrays
pub use Tests.*
unfoldable pub use Lists.{text_eq}
pub use Lists.*
pub use Errors.*
unfoldable pub use Sets.{mem, add, lookup}
pub use Sets.*
unfoldable pub use Order.{text_lt, insert_text, sort_texts, decimal_onto, decimal, join}
pub use Order.*
pub use Arrays.*
pub use Prim.Native.Nat.{ℕ, zero, suc, ◌+◌, ◌-◌, ◌*◌, ◌/◌, ◌%◌, ◌^◌, ◌≤◌, ◌<◌}
pub use Prim.Native.String.{String}
pub use mathlib.Core.Path.{◌≡◌, refl, sym, ap, ◌∙◌}
pub use mathlib.Core.Logic.{◌≢◌, ◌↔◌, ◌⊎◌, inl, inr}
pub use mathlib.Core.Bool.{Bool, true, false, not, ◌&&◌, ◌||◌}
pub use mathlib.Core.Option.{Option, none, some}
pub use mathlib.Core.List.{List, [], ◌∷◌, ◌++◌, map}
pub use native.Mathlib.Omega.{arith}
