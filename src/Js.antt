-- ===== src/Js.antt =====
-- The parts of JavaScript that the TypeScript sources lean on: strings as lists of character
-- codes, `slice`, `startsWith`, `parseInt` of hexadecimal text, and the rounding of a whole
-- number to a double.
mod Hex
pub mod Number
pub mod Decimal
unfoldable pub use Hex.*
