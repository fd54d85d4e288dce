-- ===== src/DebugInfo.antt =====
-- The debug information of a function, in quickJS/src/main/cpp/quickjs/quickjs.c: the numbers that the
-- table of line numbers is written in, and the line and column of a place in the source text.
pub mod Leb128
pub mod LineCol
pub mod Pc2line
