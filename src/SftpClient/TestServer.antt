-- ===== src/SftpClient/TestServer.antt =====
-- The file system of internal/sftpclient/testserver.go, which serves a directory over SFTP in tests,
-- over the calls of package os. Its listener, its keys and its SSH channels are left out.
pub mod Rooted
pub mod Paging
use kasten_frs_web.Base.{
  ℕ, Bool, true, false, ◌||◌, List, [], ◌∷◌, ltb, if◌then◌else◌, Result, ok, err, ◌==◌, Str, str,
  length, take, any, nat_eq, text_eq,
}
use kasten_frs_web.SftpClient.{FileInfo}
use kasten_frs_web.SftpClient.Listing.{read_link}
use kasten_frs_web.Std.Paths.{dot, clean, join_path}
use kasten_frs_web.Std.Strings.{slash}

-- The calls of package os, over the state of the disk. A directory's entry comes with what its Info
-- gives, and a file that is opened is known by a number.
pub record Os (W : Type 0) : Type 0 where
  pub read_dir : Str → W → Result Str (List (Result Str FileInfo)) × W
  pub lstat : Str → W → Result Str FileInfo × W
  pub open_file : Str → W → Result Str ℕ × W
  pub open_truncated : Str → W → Result Str ℕ × W
  pub read_link : Str → W → Result Str Str × W

-- fs; of the map of broken directories the keys.
pub record Fs : Type 0 where
  pub root : Str
  pub broken_open_dir : List Str

-- fs.real
unfoldable pub real : Str → Str → Str
real root p =
    if p == [] || p == slash ∷ []
    then root
    else join_path (root ∷ join_path (dot ∷ clean p ∷ []) ∷ [])

-- dirLister
pub record DirLister : Type 0 where
  pub entries : List FileInfo
  pub closed : Bool

-- The entries, up to the first one whose Info fails.
unfoldable pub infos_of : List (Result Str FileInfo) → Result Str (List FileInfo)
infos_of [] = ok []
infos_of (err e ∷ es) = err e
infos_of (ok info ∷ es) = elim (infos_of es) [ err e ↦ err e | ok infos ↦ ok (info ∷ infos) ]

-- dirLister.ListAt, for a slice of some length: what is copied to it, and whether the error is io.EOF.
unfoldable pub list_at : ℕ → ℕ → DirLister → (List FileInfo × Bool) × DirLister
list_at room offset l =
    if l.closed
    then (([], true), l)
    else if offset == 0
    then (
      (take room l.entries, ltb (length (take room l.entries)) room),
      record l { closed = true },
    )
    else (([], true), l)

-- dirLister.Close
unfoldable pub close_lister : DirLister → DirLister
close_lister l = record l { closed = true }

module _ {W : Type 0} (os : Os W) (f : Fs) where
  abbrev pub lister_of : Result Str (List FileInfo) → Result Str DirLister
  lister_of (err e) = err e
  lister_of (ok infos) = ok (record { entries = infos; closed = false })

  abbrev pub listed_dir : Result Str (List (Result Str FileInfo)) × W → Result Str DirLister × W
  listed_dir (err e, w) = (err e, w)
  listed_dir (ok es, w) = (lister_of (infos_of es), w)

  abbrev pub stated : Result Str FileInfo × W → Result Str DirLister × W
  stated (err e, w) = (err e, w)
  stated (ok info, w) = (lister_of (ok (info ∷ [])), w)

  -- fs.Filelist, by the request's method and path; the text of an error is not modelled in full.
  unfoldable pub file_list : Str → Str → W → Result Str DirLister × W
  file_list method path w =
      if method == str "List"
      then if any (λ p. p == path) f.broken_open_dir
        then (err (str "file does not exist"), w)
        else listed_dir (os.read_dir (real f.root path) w)
      else if method == str "Stat"
      then stated (os.lstat (real f.root path) w)
      else (err (str "unsupported method"), w)

  -- fs.Fileread, fs.Filewrite and fs.Readlink; fs.Filecmd does nothing.
  unfoldable pub file_read : Str → W → Result Str ℕ × W
  file_read path w = os.open_file (real f.root path) w

  unfoldable pub file_write : Str → W → Result Str ℕ × W
  file_write path w = os.open_truncated (real f.root path) w

  unfoldable pub read_link_of : Str → W → Result Str Str × W
  read_link_of path w = os.read_link (real f.root path) w
