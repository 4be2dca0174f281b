-- ===== src/Base.antt =====
-- Names that every component shares: the libraries', passed on, and those of the modules below.
mod Tests
mod Lists
mod Splice
mod Bits
mod BitTests
mod Xor
mod Endian
mod Int
pub use Tests.*
pub use Lists.*
pub use Splice.*
pub use Bits.*
pub use BitTests.*
pub use Xor.*
pub use Endian.*
pub use Int.*
pub use Prim.Native.Nat.{
  ℕ, zero, suc, ◌+◌, ◌-◌, ◌*◌, ◌/◌, ◌%◌, ◌^◌, ◌≤◌, ◌<◌, max, min, bit_and, bit_or, bit_xor,
}
pub use mathlib.Core.Path.{◌≡◌, refl, sym, ap, subst, ◌∙◌}
pub use mathlib.Core.Logic.{◌≢◌, ◌↔◌, ◌⊎◌, inl, inr}
pub use mathlib.Core.Bool.{Bool, true, false, not, ◌&&◌, ◌||◌}
pub use mathlib.Core.Option.{Option, none, some}
pub use mathlib.Core.List.{List, [], ◌∷◌, ◌++◌, append-nil, append_assoc}
pub use native.Mathlib.Omega.{arith}
