-- ===== src/Common.antt =====
-- The names that the other modules share: the libraries', passed on, and those of the children.
mod Tests
mod Lists
mod Assoc
mod Int
mod Bits
mod Bytes
pub use Tests.*
pub use Lists.*
unfoldable pub use Assoc.{find, store, erase_key}
pub use Assoc.{
  find-store_self, find-store_ne, find-erase_key_self, find-erase_key_ne, All-store, All-erase_key,
  All-found,
}
pub use Int.*
unfoldable pub use Bits.{has_bit, with_bit, without_bit}
pub use Bits.{
  high_bit, has_bit-with_bit, with_bit_bounds, has_bit-without_bit, without_bit_bounds,
  has_bit-zero,
}
unfoldable pub use Bytes.{slice, blit}
pub use Bytes.{
  slice-blit_end, slice_all, length-slice, length-blit, slice-blit_self, slice-blit_apart,
}
pub use Prim.Native.Nat.{ℕ, zero, suc, ◌+◌, ◌-◌, ◌*◌, ◌/◌, ◌%◌, ◌^◌, ◌≤◌, ◌<◌}
pub use mathlib.Core.Path.{◌≡◌, refl, sym, ap, subst, ◌∙◌}
pub use mathlib.Core.Logic.{◌≢◌, ◌↔◌, ◌⊎◌, inl, inr}
pub use mathlib.Core.Bool.{Bool, true, false, not, ◌&&◌, ◌||◌}
pub use mathlib.Core.Option.{Option, none, some}
pub use mathlib.Core.List.{List, [], ◌∷◌, ◌++◌, map}
pub use native.Mathlib.Omega.{arith}
