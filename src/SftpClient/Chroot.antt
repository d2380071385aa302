-- ===== src/SftpClient/Chroot.antt =====
-- resolveAbsoluteTarget of internal/sftpclient/client.go: the chroot prefix of a link's absolute
-- target is stripped by trying depths, and the depth that works is kept on the session.
pub mod Outcome
pub mod Cost
pub mod Safety
use kasten_frs_web.Base.{
  ℕ, zero, suc, ◌+◌, true, false, not, ◌&&◌, List, [], ◌∷◌, ltb, leb, if◌then◌else◌, ◌==◌, Str,
  length, drop, nat_eq, text_eq,
}
use kasten_frs_web.SftpClient.{SftpServer, Session, probe}
use kasten_frs_web.Std.Paths.{clean}
use kasten_frs_web.Std.Strings.{slash, split, join}

abbrev pub max_chroot_depth : ℕ
max_chroot_depth = 5

-- The parts after the first `depth` components; the first part is the empty text before the slash.
abbrev pub strip : ℕ → List Str → Str
strip depth parts = join slash (drop (depth + 1) parts)

abbrev pub target_parts : Str → List Str
target_parts target = split slash (clean target)

module _ {W : Type 0} (srv : SftpServer W) where
  -- The discovery loop, from `depth`, with the rounds that are left.
  unfoldable pub discover : ℕ → ℕ → List Str → Session W → Str × Session W
  discover zero depth parts s = ([], s)
  discover (suc rounds) depth parts s =
      let later = λ (t : Session W). discover rounds (depth + 1) parts t in
      if leb (length parts) (depth + 1)
      then ([], s)
      else if strip depth parts == []
      then later s
      else elim (probe srv (slash ∷ strip depth parts) s).0 [
        | true ↦ (
          slash ∷ strip depth parts,
          record ((probe srv (slash ∷ strip depth parts) s).1) { chroot_depth = depth },
        )
        | false ↦ later (probe srv (slash ∷ strip depth parts) s).1
      ]

  abbrev pub rediscover : List Str → Session W → Str × Session W
  rediscover parts s = discover max_chroot_depth 1 parts (record s { chroot_depth = 0 })

  -- The cached path: one read, and a new discovery if it fails.
  unfoldable pub use_cached : List Str → Session W → Str × Session W
  use_cached parts s =
      if ltb (s.chroot_depth + 1) (length parts) && not (strip s.chroot_depth parts == [])
      then elim (probe srv (slash ∷ strip s.chroot_depth parts) s).0 [
        | true ↦ (
          slash ∷ strip s.chroot_depth parts,
          (probe srv (slash ∷ strip s.chroot_depth parts) s).1,
        )
        | false ↦ rediscover parts (probe srv (slash ∷ strip s.chroot_depth parts) s).1
      ]
      else rediscover parts s

  unfoldable pub resolve_absolute_target : Str → Session W → Str × Session W
  resolve_absolute_target target s =
      if ltb 0 s.chroot_depth
      then use_cached (target_parts target) s
      else discover max_chroot_depth 1 (target_parts target) s
