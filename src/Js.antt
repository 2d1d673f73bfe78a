-- ===== src/Js.antt =====
-- What the source uses of the language's own library: texts and sets of texts.
mod Strings
mod Split
mod Sets
mod Decimal
unfoldable pub use Strings.*
unfoldable pub use Split.*
unfoldable pub use Decimal.*
unfoldable pub use Sets.*
