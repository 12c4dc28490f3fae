-- ===== src/Examples.antt =====
-- Tests and examples: concrete crates, and the properties at concrete tokens.
mod Codecs
pub mod Ciphers
mod Items
pub mod Sample
mod Computed
mod Reads
mod Writes
mod Texts
mod Refusals
mod Tool
mod Piped
mod Strict
mod Shown
