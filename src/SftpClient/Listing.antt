-- ===== src/SftpClient/Listing.antt =====
-- Session.ListDir of internal/sftpclient/client.go, with the entries that it returns.
pub mod Bits
pub mod Guarded
pub mod Entries
pub mod Provenance
pub mod Unreached
use kasten_frs_web.Base.{
  ℕ, ◌+◌, ◌-◌, ◌/◌, ◌%◌, ◌^◌, Bool, true, not, ◌&&◌, Option, none, some, List, [], ◌∷◌,
  if◌then◌else◌, Result, ok, err, ◌==◌, Str, nat_eq, text_eq,
}
use kasten_frs_web.SftpClient.{FileInfo, SftpServer, Session, probe}
use kasten_frs_web.SftpClient.Chroot.{resolve_absolute_target}
use kasten_frs_web.SftpClient.Junctions.{ancestor_walk_resolve}
use kasten_frs_web.SftpClient.Validate.{PathError, validate_path}
use kasten_frs_web.Std.Paths.{dot, dot_dot, join_path, is_abs, base}
use kasten_frs_web.Std.Strings.{slash}

-- os.ModeDir and os.ModeSymlink, as positions in the mode word.
abbrev pub mode_dir : ℕ
mode_dir = 31

abbrev pub mode_symlink : ℕ
mode_symlink = 27

-- mode & (1 << k) != 0, mode | (1 << k) and mode &^ (1 << k).
unfoldable pub has_bit : ℕ → ℕ → Bool
has_bit k m = (m / 2 ^ k) % 2 == 1

unfoldable pub set_bit : ℕ → ℕ → ℕ
unfolding has_bit
set_bit k m = if has_bit k m then m else m + 2 ^ k

unfoldable pub clear_bit : ℕ → ℕ → ℕ
unfolding has_bit
clear_bit k m = if has_bit k m then m - 2 ^ k else m

-- An os.FileInfo in a listing: the library's own, or fileInfoWithDir around it with its flag and
-- its resolved path.
pub data Entry : Type 0 where
  plain : FileInfo → Entry
  with_dir : FileInfo → Bool → Str → Entry

abbrev pub entry_info : Entry → FileInfo
entry_info (plain info) = info
entry_info (with_dir info is_dir resolved) = info

-- Name() is forwarded.
abbrev pub entry_name : Entry → Str
entry_name e = (entry_info e).name

unfoldable pub entry_is_dir : Entry → Bool
entry_is_dir (plain info) = has_bit mode_dir info.mode
entry_is_dir (with_dir info is_dir resolved) = is_dir

unfoldable pub entry_mode : Entry → ℕ
entry_mode (plain info) = info.mode
entry_mode (with_dir info is_dir resolved) =
    if is_dir then set_bit mode_dir info.mode else clear_bit mode_dir info.mode

-- resolvedPathOf of internal/handlers/handlers.go: the empty text for what is not resolved.
abbrev pub resolved_path_of : Entry → Str
resolved_path_of (plain info) = []
resolved_path_of (with_dir info is_dir resolved) = resolved

pub data ListError : Type 0 where
  bad_path : PathError → ListError
  read_failed : ListError

-- A base name that the walk can use.
unfoldable pub is_usable_base : Str → Bool
is_usable_base b = not (b == []) && not (b == dot) && not (b == slash ∷ []) && not (b == dot_dot)

abbrev pub or_failed : {A : Type 0} → Option A → Result ListError A
or_failed none = err read_failed
or_failed (some a) = ok a

abbrev pub or_plain : FileInfo → Str → Entry
or_plain info [] = plain info
or_plain info (x ∷ xs) = with_dir info true (x ∷ xs)

module _ {W : Type 0} (srv : SftpServer W) where
  -- The ancestor walk for the base name of a target.
  unfoldable pub resolve_by_base : Str → FileInfo → Str → Session W → Entry × Session W
  resolve_by_base path info target s =
      if is_usable_base (base target)
      then (
        or_plain info (ancestor_walk_resolve srv path (base target) s).0.0,
        (ancestor_walk_resolve srv path (base target) s).1,
      )
      else (plain info, s)

  abbrev pub take_resolved : Str → FileInfo → Str → Str × Session W → Entry × Session W
  take_resolved path info target ([], s) = resolve_by_base path info target s
  take_resolved path info target (x ∷ xs, s) = (with_dir info true (x ∷ xs), s)

  unfoldable pub resolve_by_target : Str → FileInfo → Str → Session W → Entry × Session W
  resolve_by_target path info target s =
      if is_abs target
      then take_resolved path info target (resolve_absolute_target srv target s)
      else resolve_by_base path info target s

  -- `target, rlErr := s.sftp.ReadLink(joined)`
  unfoldable pub read_link : Str → Session W → Option Str × Session W
  read_link p s = ((srv.read_link p s.world).0, record s { world = (srv.read_link p s.world).1 })

  abbrev pub resolve_link_answer : Str → FileInfo → Option Str × Session W → Entry × Session W
  resolve_link_answer path info (none, s) = (plain info, s)
  resolve_link_answer path info (some [], s) = (plain info, s)
  resolve_link_answer path info (some (x ∷ xs), s) = resolve_by_target path info (x ∷ xs) s

  unfoldable pub resolve_symlink : Str → FileInfo → Session W → Entry × Session W
  resolve_symlink path info s =
      let joined = join_path (path ∷ info.name ∷ []) in
      if (probe srv joined s).0
      then (with_dir info true [], (probe srv joined s).1)
      else resolve_link_answer path info (read_link joined (probe srv joined s).1)

  unfoldable pub list_entry : Str → FileInfo → Session W → Entry × Session W
  list_entry path info s =
      if has_bit mode_symlink info.mode then resolve_symlink path info s else (plain info, s)

  unfoldable pub list_entries : Str → List FileInfo → Session W → List Entry × Session W
  list_entries path [] s = ([], s)
  list_entries path (info ∷ infos) s = (
    (list_entry path info s).0 ∷ (list_entries path infos (list_entry path info s).1).0,
    (list_entries path infos (list_entry path info s).1).1,
  )

  abbrev pub list_answer :
      Str → Option (List FileInfo) → Session W → Result ListError (List Entry) × Session W
  list_answer path none s = (err read_failed, s)
  list_answer path (some infos) s =
      (ok (list_entries path infos s).0, (list_entries path infos s).1)

  unfoldable pub list_dir : Str → Session W → Result ListError (List Entry) × Session W
  list_dir path s = elim (validate_path path) [
    | some e ↦ (err (bad_path e), s)
    | none ↦
        list_answer path (srv.read_dir path s.world).0
          (record s { world = (srv.read_dir path s.world).1 })
  ]

  -- Session.Open, as reading the whole file, and Session.Stat: the path is validated first.
  unfoldable pub open_path : Str → Session W → Result ListError Str × Session W
  open_path path s = elim (validate_path path) [
    | some e ↦ (err (bad_path e), s)
    | none ↦ (
      or_failed (srv.read_file path s.world).0,
      record s { world = (srv.read_file path s.world).1 },
    )
  ]

  unfoldable pub stat_path : Str → Session W → Result ListError FileInfo × Session W
  stat_path path s = elim (validate_path path) [
    | some e ↦ (err (bad_path e), s)
    | none ↦ (or_failed (srv.stat path s.world).0, record s { world = (srv.stat path s.world).1 })
  ]
