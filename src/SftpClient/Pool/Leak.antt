-- ===== src/SftpClient/Pool/Leak.antt =====
-- `store` under a key that is taken drops the session that was there without closing it.
use kasten_frs_web.Base.{ℕ, ◌≡◌, ◌≢◌, some, arith, nat_beq_iff, Unique, lookup, insert}
use kasten_frs_web.SftpClient.Pool.{key_eq, SessionKey, Handle, PoolEntry, Pool, store}
use kasten_frs_web.SftpClient.Pool.Conservation.{count, total, count-erase}

-- A session that is pooled once and displaced by another under its key is afterwards neither
-- pooled nor closed: nothing can close it any more.
pub store-displaced :
    (key : SessionKey) (old : PoolEntry) (sess : Handle) (now : ℕ) (p : Pool)
    → Unique p.entries
    → lookup key p.entries ≡ some old
    → total old.sess p ≡ 1
    → old.sess ≢ sess
    → total old.sess (store key sess now p) ≡ 0
unfolding store insert count
store-displaced key old sess now p u found once other = ground (
  arith,
  count-erase old.sess key old p.entries u found,
  nat_beq_iff old.sess old.sess,
  nat_beq_iff sess old.sess,
)
