-- ===== src/Lib.antt =====
-- GGJS: an Android demo that runs JavaScript by the QuickJS engine in its tree. This library
-- models parts of the engine's C code, under quickJS/src/main/cpp/quickjs, as executable
-- functions and proves that they are correct. The bridge to Java, the application and the rest
-- of the engine are not modelled.
--
-- The engine compiles a source text (quickjs.c) to bytecode and interprets it. The parts here
-- stand below that: the big integers of the language are arrays of limbs (quickjs.c); strings go
-- in and out as UTF-8 (cutils.c); bytecode, its debug information and much else are collected in
-- a growing buffer (cutils.c); the places in the source text that the debug information records
-- come from a cache (quickjs.c); character classes of regular expressions are sets of code
-- points (libunicode.c).
--
-- BigInt/Limb.antt: js_limb_t and js_dlimb_t, arrays of limbs and the integer that one stands
--   for. BigInt/Mp.antt: mp_add, mp_sub, mp_neg, mp_mul1, mp_div1, mp_add_mul1, mp_sub_mul1,
--   mp_mul_basecase, mp_shl, mp_shr. BigInt/Repr.antt: js_bigint_sign, js_bigint_normalize1,
--   js_bigint_normalize. BigInt/Arith.antt: js_bigint_new, js_bigint_extend, js_bigint_add,
--   js_bigint_neg. BigInt/Convert.antt: js_bigint_set_si to js_bigint_new_di,
--   js_bigint_get_si_sat, js_bigint_not. BigInt/Compare.antt: js_bigint_cmp. BigInt/Shift.antt:
--   js_bigint_shl, js_bigint_shr. BigInt/Multiply.antt: js_bigint_mul. BigInt/Logic.antt:
--   js_bigint_logic. BigInt/Power.antt: js_bigint_pow. A JSBigInt is the list of its limbs, the
--   lowest first, in two's complement.
-- Cutils/Utf8.antt: unicode_to_utf8 and unicode_from_utf8 of cutils.c. Cutils/Strings.antt:
--   pstrcpy, pstrcat, strstart and has_suffix of cutils.c. Cutils/DynBuf.antt: DynBuf and the
--   dbuf_* functions of cutils.c and cutils.h; the memory is a list of bytes, and an access
--   outside it is a fault.
-- Cutils/Sort.antt: heapsortx and med3 of cutils.c; Cutils/Sort/Quick.antt: rqsort;
--   Cutils/Sort/Exchange.antt: the exchange functions and exchange_func. The sorts run on an
--   array of elements with the comparison `cmp` as a parameter; a pointer is an index, and
--   `size` is 1. The exchange functions run on bytes.
-- CharRange.antt: CharRange and the cr_* functions of libunicode.c and libunicode.h; the array
--   of points is a list.
-- DebugInfo/Leb128.antt: dbuf_put_leb128, dbuf_put_sleb128, get_leb128 and get_sleb128 of
--   quickjs.c, which write by the buffer of Cutils/DynBuf.antt. DebugInfo/LineCol.antt:
--   get_line_col and get_line_col_cached of quickjs.c. DebugInfo/Pc2line.antt: add_pc2line_info,
--   compute_pc2line_info and find_line_num of quickjs.c, which use the two.
-- Dtoa.antt: the printers of integers of dtoa.c, from u32toa_len to i64toa_radix, with clz32 and
--   clz64 of cutils.h. A local array of 10 or 41 bytes is the fuel of the loop that fills it,
--   and the loop that would pass its start is a fault.
-- Common.antt and its children: tests, lists, words and signed integers that the parts share.
--
-- Each component's children are named for what they prove, and its module Examples holds the
-- tests. A word of w bits is a natural number with the wrap-around written out; a signed word is
-- the natural number of its bits. Loops are structural recursion on the array or the bytes that
-- they run over, and need no fuel, but for the LEB128 loops: five rounds, enough for seven bits
-- each of a word of 32, and for the loops of the sorts: n + 1 rounds for a walk down a heap of n
-- elements, j - i + 1 for the way up to the pointer j, n for the division of n elements, and 2 n
-- + 2 for the rounds of the outer loop of rqsort, each of which takes a segment from the stack.
-- The search in a table of line numbers takes one round at most for each byte. The theorems on
-- these functions show that the fuel is enough.
--
-- Memory functions are parameters. For the buffer, `realloc_func` is a function of the old
-- memory and the size, which gives memory of that size with the old bytes in front, or nothing.
-- For big integers and for sets of code points a parameter says which sizes are granted. Sizes
-- of sets and the numbers of lines and columns, which are `int` in the code, are taken not to
-- overflow.
pub mod Common
pub mod BigInt
pub mod CharRange
pub mod Cutils
pub mod DebugInfo
pub mod Dtoa
