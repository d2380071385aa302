-- ===== src/SftpClient/Junctions.antt =====
-- ancestorWalkResolve of internal/sftpclient/client.go: a link's base name is looked for in the
-- directory that holds the link and in its ancestors.
pub mod Walk
use kasten_frs_web.Base.{
  ℕ, zero, suc, ◌+◌, true, false, ◌||◌, [], ◌∷◌, if◌then◌else◌, ◌==◌, Str, nat_eq, text_eq,
}
use kasten_frs_web.SftpClient.{SftpServer, Session, probe}
use kasten_frs_web.Std.Paths.{dot, join_path, dir}
use kasten_frs_web.Std.Strings.{slash}

-- The rounds of the loop: its depth goes from 0 to maxJunctionDepth = 4.
abbrev pub walk_rounds : ℕ
walk_rounds = 5

module _ {W : Type 0} (srv : SftpServer W) where
  unfoldable pub walk : ℕ → ℕ → Str → Str → Session W → (Str × ℕ) × Session W
  walk zero depth candidate name s = (([], 0), s)
  walk (suc rounds) depth candidate name s =
      let resolved = join_path (candidate ∷ name ∷ []) in
      let later = λ (t : Session W). walk rounds (depth + 1) (dir candidate) name t in
      elim (probe srv resolved s).0 [
        | true ↦ ((resolved, depth), (probe srv resolved s).1)
        | false ↦
            if candidate == slash ∷ [] || candidate == dot
            then (([], 0), (probe srv resolved s).1)
            else if dir candidate == candidate
            then (([], 0), (probe srv resolved s).1)
            else later (probe srv resolved s).1
      ]

  unfoldable pub ancestor_walk_resolve : Str → Str → Session W → (Str × ℕ) × Session W
  ancestor_walk_resolve parent name s = walk walk_rounds 0 parent name s
