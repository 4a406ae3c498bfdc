-- ===== src/HttpRule.antt =====
-- internal/httprule: path templates, their parser and their compiler.
pub mod Template
pub mod Chars
pub mod Tokenize
pub mod Parse
pub mod Compile
