-- ===== src/Cutils/DynBuf/Examples.antt =====
-- A buffer of a few bytes.
use ggjs.Common.{refl, false, [], ◌∷◌, take, drop, arith}
use ggjs.Cutils.DynBuf.{DynBuf, dbuf_put, dbuf_put_self, dbuf_write}
use ggjs.Cutils.DynBuf.Memory.{IsDynBuf, contents}
use ggjs.Cutils.DynBuf.Zeroing.{zeroing, zeroing-IsRealloc}
use ggjs.Cutils.DynBuf.Put.{Append, dbuf_put-Append}
use ggjs.Cutils.DynBuf.Write.{dbuf_put_self-Append, Overwrite, dbuf_write-Overwrite}

-- Two bytes in memory for three.
abbrev small : DynBuf
small = record { buf = 7 ∷ 8 ∷ 0 ∷ []; size = 2; allocated_size = 3; error = false }

small-IsDynBuf : IsDynBuf small
small-IsDynBuf = record { held = refl; fits = omega arith; bounded = omega arith }

dbuf_put-Append_example : Append zeroing small (1 ∷ 2 ∷ []) (dbuf_put zeroing small (1 ∷ 2 ∷ []))
dbuf_put-Append_example =
    dbuf_put-Append zeroing-IsRealloc small-IsDynBuf (1 ∷ 2 ∷ []) (omega arith)

dbuf_put_self-Append_example :
    Append zeroing small (take 2 (drop 0 (contents small))) (dbuf_put_self zeroing small 0 2)
dbuf_put_self-Append_example =
    dbuf_put_self-Append zeroing-IsRealloc small-IsDynBuf 0 2 (omega arith) (omega arith)

dbuf_write-Overwrite_example :
    Overwrite zeroing small 1 (1 ∷ 2 ∷ 3 ∷ []) (dbuf_write zeroing small 1 (1 ∷ 2 ∷ 3 ∷ []))
dbuf_write-Overwrite_example =
    dbuf_write-Overwrite 1 (1 ∷ 2 ∷ 3 ∷ []) zeroing-IsRealloc small-IsDynBuf (omega arith)
      (omega arith)
