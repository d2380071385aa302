-- ===== src/Handlers/Archive.antt =====
-- handleDownloadZip of internal/handlers/handlers.go: a directory or a file as a tar archive. The
-- tree that is walked is the server's: it can be endless (a junction that leads back up), and so can
-- the walk, hence the fuel; `none` is a walk that the fuel does not finish.
pub mod Cut
pub mod Escapes
pub mod Fuel
pub mod Invariants
pub mod Names
use kasten_frs_web.Base.{
  ℕ, zero, suc, Bool, true, false, not, ◌&&◌, ◌||◌, Option, none, some, List, [], ◌∷◌, ◌++◌,
  reverse, if◌then◌else◌, Result, ok, err, ◌==◌, Str, str, nat_eq, text_eq,
}
use kasten_frs_web.Handlers.Paths.{sanitize_archive_name}
use kasten_frs_web.Handlers.Server.{
  TarEntry, archive, Reply, Server, State, render_error, parse_frs_query, bad_query,
  session_expired, in_world, pool_get,
}
use kasten_frs_web.Http.{view, Request}
use kasten_frs_web.K8s.{FrsRef}
use kasten_frs_web.SftpClient.{FileInfo}
use kasten_frs_web.SftpClient.Listing.{
  mode_dir, has_bit, Entry, entry_name, entry_is_dir, resolved_path_of,
}
use kasten_frs_web.SftpClient.Pool.{Handle}
use kasten_frs_web.Std.Paths.{clean, join_path}
use kasten_frs_web.Std.Strings.{slash, has_prefix, trim_suffix}

-- The clean form of the path in the archive, and the test that guards against an escape.
abbrev pub archive_path : Str → Str
archive_path rel = clean (slash ∷ rel)

unfoldable pub is_escape : Str → Bool
is_escape rel = not (archive_path rel == slash ∷ []) && has_prefix (archive_path rel) (str "/../")

unfoldable pub entry_name_of : Str → Bool → Str
entry_name_of rel is_dir =
    if archive_path rel == slash ∷ []
    then str "."
    else if is_dir
    then trim_suffix (archive_path rel) (slash ∷ []) ++ (slash ∷ [])
    else archive_path rel

-- What a walk has done: the entries written, the last first, the error that ended it, and the state.
pub record Walk (W : Type 0) : Type 0 where
  pub written : List TarEntry
  pub failed : Option Str
  pub world : W

abbrev pub is_failed : {W : Type 0} → Walk W → Bool
is_failed t = elim t.failed [ none ↦ false | some e ↦ true ]

module _ {W : Type 0} (srv : Server W) (sess : Handle) where
  open srv use {sftp}

  abbrev pub fail : Str → Walk W → W → Walk W
  fail e t w = record t { failed = some e; world = w }

  abbrev pub add : Str → FileInfo → Str → Option Str → Walk W → W → Walk W
  add name info content e t w = record {
    written = record { name = name; info = info; content = content } ∷ t.written;
    failed = e;
    world = w;
  }

  abbrev pub add_opened : Str → FileInfo → Walk W → Result Str ℕ × W → Walk W
  add_opened name info t (err e, w) = add name info [] (some e) t w
  add_opened name info t (ok reader, w) =
      add name info (sftp.copy reader w).0.0 (sftp.copy reader w).0.1 t (sftp.copy reader w).1

  abbrev pub add_headed : Str → Str → Bool → FileInfo → Walk W → Option Str × W → Walk W
  add_headed name abs is_dir info t (some e, w) = fail e t w
  add_headed name abs true info t (none, w) = add name info [] none t w
  add_headed name abs false info t (none, w) = add_opened name info t (sftp.open_file sess abs w)

  abbrev pub add_stated : Str → Str → Bool → Walk W → Result Str FileInfo × W → Walk W
  add_stated rel abs is_dir t (err e, w) = fail e t w
  add_stated rel abs is_dir t (ok info, w) = elim (srv.tar_header info) [
    | some e ↦ fail e t w
    | none ↦
        add_headed (entry_name_of rel is_dir) abs is_dir info t
          (srv.write_header (entry_name_of rel is_dir) info w)
  ]

  -- The inner function `walk`: one entry of the archive.
  unfoldable pub walk_one : Str → Str → Bool → Walk W → Walk W
  walk_one rel abs is_dir t =
      if is_escape rel
      then fail (str "refusing to archive escape") t t.world
      else add_stated rel abs is_dir t (sftp.stat sess abs t.world)

  abbrev pub child_abs : Str → Entry → Str
  child_abs abs e =
      if resolved_path_of e == [] then join_path (abs ∷ entry_name e ∷ []) else resolved_path_of e

  abbrev pub Walker : Type 0
  Walker = Str → Str → Bool → Walk W → Option (Walk W)

  -- The loop over the entries of a directory; an error ends it.
  unfoldable pub walk_children : Walker → Str → Str → List Entry → Walk W → Option (Walk W)
  walk_children rec rel abs [] t = some t
  walk_children rec rel abs (e ∷ es) t =
      elim (rec (join_path (rel ∷ entry_name e ∷ [])) (child_abs abs e) (entry_is_dir e) t) [
        | none ↦ none
        | some u ↦ elim u.failed [ some x ↦ some u | none ↦ walk_children rec rel abs es u ]
      ]

  abbrev pub walk_listed :
      Walker → Str → Str → Walk W → Result Str (List Entry) × W → Option (Walk W)
  walk_listed rec rel abs t (err e, w) = some (fail e t w)
  walk_listed rec rel abs t (ok entries, w) =
      walk_children rec rel abs entries (record t { world = w })

  abbrev pub walk_below : Walker → Str → Str → Bool → Walk W → Option (Walk W)
  walk_below rec rel abs is_dir t =
      if is_failed t || not is_dir
      then some t
      else walk_listed rec rel abs t (sftp.list_dir sess abs t.world)

  -- The inner function `rec`.
  unfoldable pub walk_rec : ℕ → Walker
  walk_rec zero rel abs is_dir t = none
  walk_rec (suc fuel) rel abs is_dir t =
      walk_below (walk_rec fuel) rel abs is_dir (walk_one rel abs is_dir t)

abbrev map_option : {A B : Type 0} → (A → B) → Option A → Option B
map_option f none = none
map_option f (some a) = some (f a)

abbrev pub root_or_slash : Str → Str
root_or_slash p = if p == [] then slash ∷ [] else p

module _ {W : Type 0} (srv : Server W) where
  open srv use {sftp}

  abbrev pub archive_headers : FrsRef → Str → Bool → List (Str × Str)
  archive_headers ref root is_dir =
      (str "Content-Type", str "application/gzip")
      ∷ (
        str "Content-Disposition",
        str "attachment; filename=" ++ (34 ∷ (sanitize_archive_name ref root is_dir ++ (34 ∷ []))),
      )
      ∷ []

  -- The archive is sent as far as it got, also after an error.
  abbrev pub archive_reply : FrsRef → Str → Bool → Walk W → State W → Reply × State W
  archive_reply ref root is_dir t s = (
    record {
      status = 200;
      headers = archive_headers ref root is_dir;
      set_cookies = [];
      content = view (archive (reverse t.written));
    },
    record s { world = t.world },
  )

  abbrev pub zip_stated :
      ℕ → Handle → FrsRef → Str → Result Str FileInfo × State W → Option (Reply × State W)
  zip_stated fuel sess ref root (err e, s) =
      some (render_error 404 (str "FRS path does not exist") e, s)
  zip_stated fuel sess ref root (ok info, s) =
      map_option (λ t. archive_reply ref root (has_bit mode_dir info.mode) t s)
        (walk_rec srv sess fuel root root (has_bit mode_dir info.mode)
          (record { written = []; failed = none; world = s.world }))

  abbrev pub zip_pooled : ℕ → FrsRef → Str → Option Handle × State W → Option (Reply × State W)
  zip_pooled fuel ref root (none, s) = some (session_expired, s)
  zip_pooled fuel ref root (some sess, s) =
      zip_stated fuel sess ref root (in_world (sftp.stat sess root) s)

  abbrev pub zip_parsed :
      ℕ → Request → ℕ → Option (FrsRef × Str) → State W → Option (Reply × State W)
  zip_parsed fuel r now none s = some (bad_query, s)
  zip_parsed fuel r now (some (ref, path)) s =
      zip_pooled fuel ref (root_or_slash path) (pool_get srv ref now r s)

  unfoldable pub handle_download_zip : ℕ → ℕ → Request → State W → Option (Reply × State W)
  handle_download_zip fuel now r s = zip_parsed fuel r now (parse_frs_query r) s
