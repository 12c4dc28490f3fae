-- ===== src/Tests.antt =====
-- The unit tests of the repository, each as the proposition that its assertions hold, and that they
-- do at concrete crates.
mod Fixtures
mod Grammar
mod Tables
mod Encodings
mod Keys
mod Sealing
mod Halves
mod Tokens
mod Bare
