-- ===== src/SftpClient/Chroot/Outcome.antt =====
-- What resolveAbsoluteTarget returns, and what it leaves on the session.
use kasten_frs_web.Base.{
  ℕ, zero, suc, ◌+◌, ◌≤◌, ◌<◌, ◌≡◌, refl, ◌⊎◌, inl, inr, true, not, ◌&&◌, List, [], ◌∷◌, arith, ltb,
  leb, Bool-cases, ◌==◌, Str, length, nat_eq, text_eq,
}
use kasten_frs_web.SftpClient.{SftpServer, Session, succeeded, probe}
use kasten_frs_web.SftpClient.Chroot.{
  strip, discover, use_cached, target_parts, resolve_absolute_target,
}
use kasten_frs_web.Std.Strings.{slash}

module _ {W : Type 0} (srv : SftpServer W) where
  -- The path that was found is the target without its first `depth` components, the server has just
  -- listed it, and the depth is on the session.
  pub record Resolves (parts : List Str) (r : Str × Session W) : Type 0 where
    pub depth : ℕ
    pub lower : 1 ≤ depth
    pub inside : depth + 1 < length parts
    pub stripped : r.0 ≡ slash ∷ strip depth parts
    pub cached : r.1.chroot_depth ≡ depth
    pub before : W
    pub listed : succeeded ((srv.read_dir r.0 before).0) ≡ true

  -- Either a path was found, or the empty text is returned and no depth is kept.
  abbrev pub Outcome : List Str → Str × Session W → Type 0
  Outcome parts r = Resolves parts r ⊎ ((r.0 ≡ []) × (r.1.chroot_depth ≡ 0))

  discover-Outcome :
      (rounds depth : ℕ) (parts : List Str) (s : Session W)
      → 1 ≤ depth
      → s.chroot_depth ≡ 0
      → Outcome parts (discover srv rounds depth parts s)
  unfolding discover probe
  discover-Outcome zero depth parts s d z = inr (refl, z)
  discover-Outcome (suc rounds) depth parts s d z =
      elim (Bool-cases (leb (length parts) (depth + 1))) [
        | inl e ↦ rw e (inr (refl, z))
        | inr e ↦ elim (Bool-cases (strip depth parts == [])) [
          | inl f ↦ rw (e, f) (discover-Outcome rounds (depth + 1) parts s (omega arith) z)
          | inr f ↦ elim (Bool-cases (probe srv (slash ∷ strip depth parts) s).0) [
            | inl g ↦
                rw (e, f, g)
                  (inl (record {
                    depth = depth;
                    lower = d;
                    inside = ground arith;
                    stripped = refl;
                    cached = refl;
                    before = s.world;
                    listed = g;
                  }))
            | inr g ↦ rw (e, f, g) (discover-Outcome rounds (depth + 1) parts _ (omega arith) z)
          ]
        ]
      ]

  use_cached-Outcome :
      (parts : List Str) (s : Session W)
      → 1 ≤ s.chroot_depth
      → Outcome parts (use_cached srv parts s)
  unfolding use_cached probe
  use_cached-Outcome parts s d =
      elim (Bool-cases
        (ltb (s.chroot_depth + 1) (length parts) && not (strip s.chroot_depth parts == []))) [
          | inr e ↦ rw e (discover-Outcome _ 1 parts _ (omega arith) refl)
          | inl e ↦ elim (Bool-cases (probe srv (slash ∷ strip s.chroot_depth parts) s).0) [
            | inl g ↦
                rw (e, g)
                  (inl (record {
                    depth = s.chroot_depth;
                    lower = d;
                    inside = ground arith;
                    stripped = refl;
                    cached = refl;
                    before = s.world;
                    listed = g;
                  }))
            | inr g ↦ rw (e, g) (discover-Outcome _ 1 parts _ (omega arith) refl)
          ]
        ]

  -- Whatever the server answers, a path that is returned is the target less at least one leading
  -- component, was just listed by the server, and its depth is cached; and when nothing is
  -- returned, no depth is kept.
  pub resolve_absolute_target-Outcome :
      (target : Str) (s : Session W)
      → Outcome (target_parts target) (resolve_absolute_target srv target s)
  unfolding resolve_absolute_target
  resolve_absolute_target-Outcome target s = elim (Bool-cases (ltb 0 s.chroot_depth)) [
    | inl e ↦ rw e (use_cached-Outcome (target_parts target) s (ground arith))
    | inr e ↦ rw e (discover-Outcome _ 1 (target_parts target) s (omega arith) (ground arith))
  ]
