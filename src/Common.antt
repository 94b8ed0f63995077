-- ===== src/Common.antt =====
-- The names that the modules share: the libraries', passed on, and those of three children.
mod Tests
mod Bits
mod Int
mod Lists
pub use Tests.*
pub use Bits.{bit_and-le, bit_xor-lt, bit_xor_comm, bit_xor_twice}
pub use Int.{ℤ, pos, negsuc, Sign, neg, nil, plus, sign, opposite, is_neg, is_plus}
pub use Lists.*
pub use Prim.Native.Nat.{ℕ, zero, suc, ◌+◌, ◌-◌, ◌*◌, ◌/◌, ◌%◌, ◌^◌, ◌≤◌, ◌<◌, bit_xor, bit_and}
pub use mathlib.Core.Path.{◌≡◌, refl, sym, ap, ◌∙◌}
pub use mathlib.Core.Logic.{◌≢◌, ◌↔◌, ◌⊎◌, inl, inr}
pub use mathlib.Core.Bool.{Bool, true, false, not, ◌&&◌, ◌||◌}
pub use mathlib.Core.Option.{Option, none, some}
pub use mathlib.Core.List.{List, [], ◌∷◌, ◌++◌}
pub use native.Mathlib.Omega.{arith}
