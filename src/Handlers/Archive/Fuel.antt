-- ===== src/Handlers/Archive/Fuel.antt =====
-- How much fuel the walk of an archive needs.
use kasten_frs_web.Base.{
  ℕ, zero, suc, ◌≡◌, refl, inl, inr, Bool, true, false, Option, some, List, [], ◌∷◌, Result, ok,
  err, Option-cases, Str, All, Bool-cases,
}
use kasten_frs_web.Handlers.Archive.{
  Walk, fail, child_abs, Walker, walk_children, walk_listed, walk_rec, is_failed, walk_one,
  walk_below,
}
use kasten_frs_web.Handlers.Server.{Server}
use kasten_frs_web.SftpClient.Listing.{Entry, entry_name, entry_is_dir}
use kasten_frs_web.SftpClient.Pool.{Handle}
use kasten_frs_web.Std.Paths.{join_path}

module _ {W : Type 0} (srv : Server W) (sess : Handle) where
  -- A tree of at most that many levels of directories, whatever state the server is in: a file has
  -- none, and what a directory lists has one less.
  unfoldable pub Levels : ℕ → Str → Bool → Type 0
  Levels n abs false = Unit
  Levels zero abs true = ⊥
  Levels (suc n) abs true =
      (w : W) (es : List Entry)
      → (srv.sftp.list_dir sess abs w).0 ≡ ok es
      → All (λ e. Levels n (child_abs srv sess abs e) (entry_is_dir e)) es

  abbrev Ends : Option (Walk W) → Type 0
  Ends o = (u : Walk W) × (o ≡ some u)

  children-Ends :
      (rec : Walker srv sess) (n : ℕ)
      → ((rel abs : Str) (is_dir : Bool) (t : Walk W)
          → Levels n abs is_dir
          → Ends (rec rel abs is_dir t))
      → (rel abs : Str) (es : List Entry) (t : Walk W)
      → All (λ e. Levels n (child_abs srv sess abs e) (entry_is_dir e)) es
      → Ends (walk_children srv sess rec rel abs es t)
  unfolding walk_children
  children-Ends rec n k rel abs [] t h = (t, refl)
  children-Ends rec n k rel abs (x ∷ es) t h =
      let (u, q) =
        k (join_path (rel ∷ entry_name x ∷ [])) (child_abs srv sess abs x) (entry_is_dir x) t h.0 in
      elim (Option-cases u.failed) [
        | inl f ↦ rw (q, f, walk_children) (children-Ends rec n k rel abs es u h.1)
        | inr (z, f) ↦ rw (q, f, walk_children) (u, refl)
      ]

  listed-Ends :
      (rec : Walker srv sess) (n : ℕ)
      → ((rel abs : Str) (is_dir : Bool) (t : Walk W)
          → Levels n abs is_dir
          → Ends (rec rel abs is_dir t))
      → (rel abs : Str) (t : Walk W) (o : Result Str (List Entry) × W)
      → ((es : List Entry)
          → o.0 ≡ ok es
          → All (λ e. Levels n (child_abs srv sess abs e) (entry_is_dir e)) es)
      → Ends (walk_listed srv sess rec rel abs t o)
  listed-Ends rec n k rel abs t (err e, w) h = (fail srv sess e t w, refl)
  listed-Ends rec n k rel abs t (ok es, w) h =
      children-Ends rec n k rel abs es (record t { world = w }) (h es refl)

  file-Ends :
      (rec : Walker srv sess) (rel abs : Str) (t : Walk W)
      → Ends (walk_below srv sess rec rel abs false t)
  file-Ends rec rel abs t = elim (Bool-cases (is_failed t)) [
    | inl f ↦ rw f (t, refl)
    | inr f ↦ rw f (t, refl)
  ]

  directory-Ends :
      (rec : Walker srv sess) (rel abs : Str) (t : Walk W)
      → Ends (walk_listed srv sess rec rel abs t (srv.sftp.list_dir sess abs t.world))
      → Ends (walk_below srv sess rec rel abs true t)
  directory-Ends rec rel abs t h = elim (Bool-cases (is_failed t)) [
    | inl f ↦ rw f (t, refl)
    | inr f ↦ rw f h
  ]

  -- The walk of a tree that has at most so many levels of directories, whatever the server lists
  -- meanwhile, ends with one unit of fuel more than there are levels.
  pub walk_rec-ends :
      (n : ℕ) (rel abs : Str) (is_dir : Bool) (t : Walk W)
      → Levels n abs is_dir
      → (u : Walk W) × (walk_rec srv sess (suc n) rel abs is_dir t ≡ some u)
  unfolding walk_rec Levels
  walk_rec-ends n rel abs false t h =
      file-Ends (walk_rec srv sess n) rel abs (walk_one srv sess rel abs false t)
  walk_rec-ends zero rel abs true t h = elim h [ ]
  walk_rec-ends (suc n) rel abs true t h =
      let one = walk_one srv sess rel abs true t in
      directory-Ends (walk_rec srv sess (suc n)) rel abs one (
        listed-Ends (walk_rec srv sess (suc n)) n (walk_rec-ends n) rel abs one
          (srv.sftp.list_dir sess abs one.world) (h one.world))
