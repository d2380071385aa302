-- ===== src/SftpClient/Chroot/Safety.antt =====
-- A stripped target is a path that validatePath accepts, so the helper can browse to it.
use kasten_frs_web.Base.{
  ℕ, zero, suc, ◌+◌, ◌≤◌, ◌≡◌, refl, ◌≢◌, inl, inr, true, none, List, [], ◌∷◌, arith, Str, drop,
  All, All-drop, sym, subst,
}
use kasten_frs_web.SftpClient.{SftpServer, Session}
use kasten_frs_web.SftpClient.Chroot.{target_parts, resolve_absolute_target}
use kasten_frs_web.SftpClient.Chroot.Outcome.{resolve_absolute_target-Outcome}
use kasten_frs_web.SftpClient.Validate.{validate_path}
use kasten_frs_web.SftpClient.Validate.Meaning.{validate_path_iff, segments_of_parts}
use kasten_frs_web.Std.Paths.{is_rooted}
use kasten_frs_web.Std.Paths.Cleaning.{
  IsPlain, clean_parts, clean_parts-IsPlain, clean_rooted, split_of_parts,
}
use kasten_frs_web.Std.Strings.{slash, split, join}

split-root : split slash (slash ∷ join slash []) ≡ [] ∷ [] ∷ []
unfolding split join
split-root = refl

-- What follows the empty part and the first components of a rooted path are plain parts.
drop-IsPlain :
    (depth : ℕ) (ps : List Str)
    → All IsPlain ps
    → All IsPlain (drop (suc (suc depth)) (split slash (slash ∷ join slash ps)))
drop-IsPlain depth [] h =
    subst (λ ws. All IsPlain (drop (suc (suc depth)) ws)) (sym split-root) (nothing depth)
  where
    nothing : (d : ℕ) → All IsPlain (drop {A = Str} d [])
    nothing zero = tt
    nothing (suc d) = tt
drop-IsPlain depth (p ∷ ps) h = rw (split_of_parts p ps h) (All-drop IsPlain depth ps h.1)

stripped-IsPlain :
    (target : Str) (depth : ℕ)
    → is_rooted target ≡ true
    → 1 ≤ depth
    → All IsPlain (drop (depth + 1) (target_parts target))
stripped-IsPlain target zero h d = absurd (omega arith)
stripped-IsPlain target (suc depth) h d =
    let e : suc depth + 1 ≡ suc (suc depth) = omega arith in
    rw (e, clean_rooted target h)
      (drop-IsPlain depth (clean_parts target) (clean_parts-IsPlain target))

module _ {W : Type 0} (srv : SftpServer W) where
  -- Every path that resolveAbsoluteTarget returns for an absolute target passes validatePath.
  pub validate_path-resolve_absolute_target :
      (target : Str) (s : Session W)
      → is_rooted target ≡ true
      → (resolve_absolute_target srv target s).0 ≢ []
      → validate_path (resolve_absolute_target srv target s).0 ≡ none
  validate_path-resolve_absolute_target target s h found =
      elim (resolve_absolute_target-Outcome srv target s) [
        | inr missed ↦ absurd (found missed.0)
        | inl r ↦ rw r.stripped (
            (validate_path_iff _).1
              (refl, segments_of_parts _ (stripped-IsPlain target r.depth h r.lower)))
      ]
