-- ===== src/Utilities.antt =====
-- utilities: the op codes of compiled path patterns, and the trie over sequences of strings.
pub mod OpCode
pub mod Trie
