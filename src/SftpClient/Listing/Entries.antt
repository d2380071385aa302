-- ===== src/SftpClient/Listing/Entries.antt =====
-- What an entry of a listing says of the server's answer.
use kasten_frs_web.Base.{
  ℕ, ◌≤◌, Occurs, ◌≡◌, ◌⊎◌, true, false, none, some, List, [], ◌∷◌, Str, str, drop, All,
}
use kasten_frs_web.SftpClient.{FileInfo, SftpServer, succeeded}
use kasten_frs_web.SftpClient.Chroot.{strip, target_parts}
use kasten_frs_web.SftpClient.Listing.{mode_symlink, has_bit, Entry, plain, with_dir}
use kasten_frs_web.SftpClient.Listing.Unreached.{stripped_paths, ancestors, Refused, NotServed}
use kasten_frs_web.SftpClient.Validate.{validate_path}
use kasten_frs_web.Std.Paths.{join_path, is_abs, base}
use kasten_frs_web.Std.Strings.{slash}

-- A name that is not looked for.
abbrev pub IsUnusable : Str → Type 0
IsUnusable b = (b ≡ []) ⊎ (b ≡ str ".") ⊎ (b ≡ str "/") ⊎ (b ≡ str "..")

module _ {W : Type 0} (srv : SftpServer W) where
  -- The server gave no target for a link.
  abbrev pub Unread : Str → Type 0
  Unread link =
      (before : W) × (((srv.read_link link before).0 ≡ none)
        ⊎ ((srv.read_link link before).0 ≡ some []))

  -- A target's base name is no name to look for, or the server has refused it below the directory of
  -- the link and the four above.
  abbrev pub Walked : Str → Str → Type 0
  Walked path target =
      IsUnusable (base target)
      ⊎ All (λ c. Refused srv (join_path (c ∷ base target ∷ []))) (ancestors 5 path)

  -- A target is not absolute, or the server has refused it less one to five leading components.
  abbrev pub Stripped : Str → Type 0
  Stripped target =
      (is_abs target ≡ false)
      ⊎ All (NotServed srv) (stripped_paths 5 (drop 2 (target_parts target)))

  -- A target that the server gave for a link, and that led to nothing.
  abbrev pub Missed : Str → Str → Type 0
  Missed path link =
      (target : Str) × (before : W) × ((srv.read_link link before).0 ≡ some target)
      × Stripped target
      × Walked path target

  -- A link that the server has refused to list, and of which it gave no target or one that led to
  -- nothing.
  abbrev pub Unreached : Str → FileInfo → Type 0
  Unreached path info =
      let link = join_path (path ∷ info.name ∷ []) in
      Refused srv link × (Unread link ⊎ Missed path link)

  -- A path that a link was resolved to: the server gave a target for the link, and the path is the
  -- target, if it is absolute, less some leading components; or the target's base name below the
  -- directory of the link or one of the four above.
  abbrev pub Leads : Str → Str → Str → Type 0
  Leads path link found =
      (target : Str) × (before : W) × ((srv.read_link link before).0 ≡ some target)
      × (((depth : ℕ) × (1 ≤ depth)
            × (is_abs target ≡ true)
            × (found ≡ slash ∷ strip depth (target_parts target)))
          ⊎ ((c : Str) × Occurs c (ancestors 5 path) × (found ≡ join_path (c ∷ base target ∷ []))))

  -- How one entry of the server's answer is shown. `opened` and `followed` are shown as directories
  -- that the server has listed; `unreachable` links stay as they are.
  pub data Provenance (path : Str) (info : FileInfo) (e : Entry) : Type 0 where
    regular : has_bit mode_symlink info.mode ≡ false → e ≡ plain info → Provenance path info e
    opened :
        has_bit mode_symlink info.mode ≡ true
        → (before : W)
        → succeeded (srv.read_dir (join_path (path ∷ info.name ∷ [])) before).0 ≡ true
        → e ≡ with_dir info true []
        → Provenance path info e
    followed :
        has_bit mode_symlink info.mode ≡ true
        → (target : Str) → Leads path (join_path (path ∷ info.name ∷ [])) target
        → validate_path target ≡ none
        → (before : W) → succeeded (srv.read_dir target before).0 ≡ true
        → e ≡ with_dir info true target
        → Provenance path info e
    unreachable :
        has_bit mode_symlink info.mode ≡ true
        → Unreached path info
        → e ≡ plain info
        → Provenance path info e

  -- One entry for each of the server's, in its order.
  abbrev pub Sources : Str → List FileInfo → List Entry → Type 0
  Sources path [] [] = Unit
  Sources path (info ∷ infos) (e ∷ es) = Provenance path info e × Sources path infos es
  Sources path [] (e ∷ es) = ⊥
  Sources path (info ∷ infos) [] = ⊥
