-- ===== src/Cutils.antt =====
-- The helpers of quickJS/src/main/cpp/quickjs/cutils.c and cutils.h.
pub mod DynBuf
pub mod Utf8
pub mod Sort
pub mod Strings
