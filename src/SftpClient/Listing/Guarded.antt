-- ===== src/SftpClient/Listing/Guarded.antt =====
-- No request of the session's reaches the server for a path that validatePath refuses.
use kasten_frs_web.Base.{◌≡◌, refl, some, err, Str}
use kasten_frs_web.SftpClient.{SftpServer, Session}
use kasten_frs_web.SftpClient.Listing.{bad_path, list_dir, open_path, stat_path}
use kasten_frs_web.SftpClient.Validate.{PathError, validate_path}

module _ {W : Type 0} (srv : SftpServer W) where
  -- Neither ListDir nor Open nor Stat asks the server for a path that validatePath refuses: each
  -- returns the refusal and leaves the session as it was.
  pub requests-validate_path :
      (path : Str) (s : Session W) (e : PathError)
      → validate_path path ≡ some e
      → (list_dir srv path s ≡ (err (bad_path e), s))
        × (open_path srv path s ≡ (err (bad_path e), s))
        × (stat_path srv path s ≡ (err (bad_path e), s))
  unfolding list_dir open_path stat_path
  requests-validate_path path s e h =
      (rw (h, list_dir) refl, rw (h, open_path) refl, rw (h, stat_path) refl)
