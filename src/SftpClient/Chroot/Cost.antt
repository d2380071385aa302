-- ===== src/SftpClient/Chroot/Cost.antt =====
-- How many directory reads resolveAbsoluteTarget makes.
use kasten_frs_web.Base.{
  ℕ, zero, suc, ◌+◌, ◌≤◌, ◌<◌, ◌≡◌, ◌≢◌, true, List, [], ◌∷◌, arith, Str, length, refl, lt→ltb,
  eq_ne,
}
use kasten_frs_web.SftpClient.{SftpServer, Session, succeeded, probe, counting}
use kasten_frs_web.SftpClient.Chroot.{
  max_chroot_depth, strip, target_parts, discover, use_cached, resolve_absolute_target,
}
use kasten_frs_web.Std.Strings.{slash}

abbrev pub reads : {W : Type 0} → Session (W × ℕ) → ℕ
reads s = s.world.1

module _ {W : Type 0} (srv : SftpServer W) where
  discover-reads :
      (rounds depth : ℕ) (parts : List Str) (s : Session (W × ℕ))
      → reads (discover (counting srv) rounds depth parts s).1 ≤ reads s + rounds
  unfolding discover probe counting
  discover-reads zero depth parts s = omega arith
  discover-reads (suc rounds) depth parts s = ground (
    arith,
    discover-reads rounds (depth + 1) parts s,
    discover-reads rounds (depth + 1) parts (probe (counting srv) (slash ∷ strip depth parts) s).1,
  )

  use_cached-reads :
      (parts : List Str) (s : Session (W × ℕ))
      → reads (use_cached (counting srv) parts s).1 ≤ reads s + (max_chroot_depth + 1)
  unfolding use_cached probe counting
  use_cached-reads parts s = ground (
    arith,
    discover-reads max_chroot_depth 1 parts (record s { chroot_depth = 0 }),
    discover-reads max_chroot_depth 1 parts
        (record ((probe (counting srv) (slash ∷ strip s.chroot_depth parts) s).1) {
          chroot_depth = 0;
        }),
  )

  -- resolveAbsoluteTarget makes at most six reads: one at the cached depth, and one for each depth
  -- from 1 to 5.
  pub resolve_absolute_target-reads :
      (target : Str) (s : Session (W × ℕ))
      → reads (resolve_absolute_target (counting srv) target s).1 ≤ reads s + 6
  unfolding resolve_absolute_target
  resolve_absolute_target-reads target s = ground (
    arith,
    use_cached-reads (target_parts target) s,
    discover-reads max_chroot_depth 1 (target_parts target) s,
  )

  -- Where the cached depth still works, one read is enough and the depth stays.
  pub cached_hit :
      (target : Str) (s : Session (W × ℕ))
      → 1 ≤ s.chroot_depth
      → s.chroot_depth + 1 < length (target_parts target)
      → strip s.chroot_depth (target_parts target) ≢ []
      → succeeded (srv.read_dir (slash ∷ strip s.chroot_depth (target_parts target)) s.world.0).0
        ≡ true
      → let r = resolve_absolute_target (counting srv) target s in
        (r.0 ≡ slash ∷ strip s.chroot_depth (target_parts target))
        × (reads r.1 ≡ reads s + 1)
        × (r.1.chroot_depth ≡ s.chroot_depth)
  unfolding resolve_absolute_target use_cached probe counting
  cached_hit target s d inside some_suffix listed =
      rw (lt→ltb 0 s.chroot_depth d, lt→ltb _ _ inside, eq_ne _ [] some_suffix, listed)
        (refl, refl, refl)
