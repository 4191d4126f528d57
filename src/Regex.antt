-- ===== src/Regex.antt =====
-- Regular expressions as the program tests them: patterns anchored by ^ and $, over code units.
-- `Lang` is the language of a pattern; `matches` decides it by derivatives.
pub mod Defs
pub mod Matching
pub mod Classes
