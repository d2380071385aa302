-- ===== src/Handlers/Archive/Names.antt =====
-- The names that the walk of an archive writes.
use kasten_frs_web.Base.{
  ℕ, zero, suc, subst, some_eq, ◌∙◌, ◌⊎◌, ◌≡◌, inl, inr, Bool, true, false, Option, none, some,
  Result, ok, err, Option-cases, Str, All,
}
use kasten_frs_web.Handlers.Archive.{
  entry_name_of, Walk, add_opened, add_headed, add_stated, walk_one, walk_rec,
}
use kasten_frs_web.Handlers.Archive.Cut.{walk_to, walk_to-Extends}
use kasten_frs_web.Handlers.Archive.Escapes.{StaysInside, is_escape-never, entry_name_of-inside}
use kasten_frs_web.Handlers.Archive.Invariants.{Keeps, IsInvariant, walk_below-Keeps}
use kasten_frs_web.Handlers.Server.{Server}
use kasten_frs_web.SftpClient.{FileInfo}
use kasten_frs_web.SftpClient.Pool.{Handle}

module _ {W : Type 0} (srv : Server W) (sess : Handle) where
  abbrev pub NamesInside : Walk W → Type 0
  NamesInside t = All (λ e. StaysInside e.name) t.written

  opened-inside :
      (rel : Str) (info : FileInfo) (t : Walk W) (o : Result Str ℕ × W)
      → NamesInside t
      → NamesInside (add_opened srv sess (entry_name_of rel false) info t o)
  opened-inside rel info t (err e, w) h = (entry_name_of-inside rel false, h)
  opened-inside rel info t (ok reader, w) h = (entry_name_of-inside rel false, h)

  headed-inside :
      (rel abs : Str) (is_dir : Bool) (info : FileInfo) (t : Walk W) (o : Option Str × W)
      → NamesInside t
      → NamesInside (add_headed srv sess (entry_name_of rel is_dir) abs is_dir info t o)
  headed-inside rel abs is_dir info t (some e, w) h = h
  headed-inside rel abs true info t (none, w) h = (entry_name_of-inside rel true, h)
  headed-inside rel abs false info t (none, w) h = opened-inside rel info t _ h

  stated-inside :
      (rel abs : Str) (is_dir : Bool) (t : Walk W) (o : Result Str FileInfo × W)
      → NamesInside t
      → NamesInside (add_stated srv sess rel abs is_dir t o)
  stated-inside rel abs is_dir t (err e, w) h = h
  stated-inside rel abs is_dir t (ok info, w) h = elim (Option-cases (srv.tar_header info)) [
    | inl n ↦ rw (n, add_stated) (headed-inside rel abs is_dir info t _ h)
    | inr (e, q) ↦ rw (q, add_stated) h
  ]

  walk_one-inside :
      (rel abs : Str) (is_dir : Bool) (t : Walk W)
      → NamesInside t
      → NamesInside (walk_one srv sess rel abs is_dir t)
  unfolding walk_one
  walk_one-inside rel abs is_dir t h = rw (is_escape-never rel) (stated-inside rel abs is_dir t _ h)

  names_invariant : IsInvariant srv sess NamesInside
  names_invariant = record {
    of_entry = walk_one-inside;
    of_listing = λ abs t h. h;
    of_failure = λ abs e t h. h;
  }

  walk_to-Keeps : (depth : ℕ) → Keeps srv sess NamesInside (walk_to srv sess depth)
  unfolding walk_to
  walk_to-Keeps zero rel abs is_dir t u h e = subst NamesInside (some_eq e) h
  walk_to-Keeps (suc depth) rel abs is_dir t u h e =
      walk_below-Keeps srv sess NamesInside names_invariant (walk_to srv sess depth)
        (walk_to-Keeps depth) rel abs is_dir _ u (walk_one-inside rel abs is_dir t h) e

  -- Whatever the server lists and to whatever targets its links resolve, and whether a walk of an
  -- archive that starts with no such name ends or not, no name that it writes has a part "..":
  -- there is always something done when the walk ends or first goes deeper than a given depth; what
  -- is written then has no such name; and it is what the walk has written in the end, where it has
  -- the fuel to end.
  pub walk_rec-NamesInside :
      (depth : ℕ) (rel abs : Str) (is_dir : Bool) (t : Walk W)
      → NamesInside t
      → (u : Walk W) × (walk_to srv sess depth rel abs is_dir t ≡ some u)
        × NamesInside u
        × ((walk_rec srv sess depth rel abs is_dir t ≡ none)
            ⊎ (walk_rec srv sess depth rel abs is_dir t ≡ some u))
  walk_rec-NamesInside depth rel abs is_dir t h =
      let (extends, (u, e)) = walk_to-Extends srv sess depth rel abs is_dir t in
      (
        u,
        e,
        walk_to-Keeps depth rel abs is_dir t u h e,
        elim extends [ inl n ↦ inl n | inr s ↦ inr (s ∙ e) ],
      )
