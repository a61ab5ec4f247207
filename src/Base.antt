-- ===== src/Base.antt =====
-- Names that every module shares: the libraries' names passed on, Boolean tests, lists measured and
-- indexed by the native numbers, and byte buffers.
pub mod Tests
pub mod Lists
pub mod Buffer
pub mod Results
pub mod Int
pub mod Maps
pub mod Orders
pub mod Splits
pub use Results.{◌>>=◌, ◌>>◌, guard, Yields, Yields->>=, Yields-if, Yields-guard}
pub use Tests.{ltb, leb, ◌==◌, if◌then◌else◌, ltb→lt, lt→ltb, leb→le, le→leb, ==_iff, tests}
pub use Tests.{Bool-cases, Option-cases}
pub use Lists.{
  length, get_elem?, get_or, set, take, drop, replicate, All, All-append, length-append,
  length-take, length-drop, length-replicate,
}
pub use Buffer.{
  Bytes, u16, u32, u64, u64_sub, length-slice, slice_cong, be16_cong, be32_cong, copy_n_cong,
}
unfoldable pub use Buffer.{slice, copy_n, be16, be32}
pub use Prim.Native.Nat.{ℕ, zero, suc, ◌+◌, ◌-◌, ◌*◌, ◌/◌, ◌%◌, ◌^◌, ◌≤◌, ◌<◌, min, max}
pub use mathlib.Core.Path.{◌≡◌, refl, sym, ap, ◌∙◌}
pub use mathlib.Core.Logic.{◌≢◌, ◌↔◌, ◌⊎◌, inl, inr}
pub use mathlib.Core.Bool.{Bool, true, false, not, ◌&&◌, ◌||◌}
pub use mathlib.Core.Option.{Option, none, some}
pub use mathlib.Core.List.{List, [], ◌∷◌, ◌++◌, map}
pub use native.Mathlib.Omega.{arith}
