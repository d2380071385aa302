-- ===== src/Handlers/Serving/Quiet/Walking.antt =====
-- The walk of an archive only reads.
use kasten_frs_web.Base.{
  ℕ, ◌≡◌, inl, inr, Bool, true, false, Option, none, some, Result, ok, err, Bool-cases,
  Option-cases, Str,
}
use kasten_frs_web.Handlers.Archive.{
  is_escape, Walk, add_opened, add_headed, add_stated, walk_one, walk_rec,
}
use kasten_frs_web.Handlers.Archive.Invariants.{walk_rec_inv}
use kasten_frs_web.Handlers.Server.{Server}
use kasten_frs_web.Handlers.Serving.Quiet.{ReadingKeeps}
use kasten_frs_web.SftpClient.{FileInfo}
use kasten_frs_web.SftpClient.Pool.{Handle}

module _ {W : Type 0} (srv : Server W) (Holds : W → Type 0) (k : ReadingKeeps srv Holds) where
  open srv use {sftp}

  add_opened-Holds :
      (sess : Handle) (name : Str) (info : FileInfo) (t : Walk W) (answer : Result Str ℕ) (w : W)
      → Holds w
      → Holds (add_opened srv sess name info t (answer, w)).world
  add_opened-Holds sess name info t (err e) w h = h
  add_opened-Holds sess name info t (ok reader) w h = k.copy reader w h

  add_headed-Holds :
      (sess : Handle) (name abs : Str) (is_dir : Bool) (info : FileInfo) (t : Walk W)
      (answer : Option Str) (w : W)
      → Holds w
      → Holds (add_headed srv sess name abs is_dir info t (answer, w)).world
  add_headed-Holds sess name abs is_dir info t (some e) w h = h
  add_headed-Holds sess name abs true info t none w h = h
  add_headed-Holds sess name abs false info t none w h =
      add_opened-Holds sess name info t _ _ (k.open_file sess abs w h)

  add_stated-Holds :
      (sess : Handle) (rel abs : Str) (is_dir : Bool) (t : Walk W) (answer : Result Str FileInfo)
      (w : W)
      → Holds w
      → Holds (add_stated srv sess rel abs is_dir t (answer, w)).world
  add_stated-Holds sess rel abs is_dir t (err e) w h = h
  add_stated-Holds sess rel abs is_dir t (ok info) w h = elim (Option-cases (srv.tar_header info)) [
    | inl n ↦
        rw (n, add_stated)
          (add_headed-Holds sess _ abs is_dir info t _ _ (k.write_header _ info w h))
    | inr (e, x) ↦ rw (x, add_stated) h
  ]

  walk_one-Holds :
      (sess : Handle) (rel abs : Str) (is_dir : Bool) (t : Walk W)
      → Holds t.world
      → Holds (walk_one srv sess rel abs is_dir t).world
  unfolding walk_one
  walk_one-Holds sess rel abs is_dir t h = elim (Bool-cases (is_escape rel)) [
    | inl y ↦ rw y h
    | inr n ↦ rw n (add_stated-Holds sess rel abs is_dir t _ _ (k.stat sess abs t.world h))
  ]

  pub walk_rec-Holds :
      (sess : Handle) (fuel : ℕ) (rel abs : Str) (is_dir : Bool) (t u : Walk W)
      → Holds t.world
      → walk_rec srv sess fuel rel abs is_dir t ≡ some u
      → Holds u.world
  walk_rec-Holds sess =
      walk_rec_inv srv sess (λ t. Holds t.world)
        (record {
          of_entry = walk_one-Holds sess;
          of_listing = λ abs t h. k.list_dir sess abs t.world h;
          of_failure = λ abs e t h. k.list_dir sess abs t.world h;
        })
