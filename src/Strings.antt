-- ===== src/Strings.antt =====
-- The functions of Go's package strings that the program calls, and their laws.
mod Defs
mod Trim
mod Index
unfoldable pub use Defs.{
  is_space, trim_left, is_empty, trim_right, trim_space, upper_byte, to_upper, lower_byte, to_lower,
  has_prefix, has_suffix, index, contains, byte_in, index_any,
}
pub use Defs.{push_trimmed, shift}
pub use Trim.*
pub use Index.*
