-- ===== src/Handlers/Archive/Invariants.antt =====
-- A rule for what every archive walk keeps.
use kasten_frs_web.Base.{
  ℕ, zero, suc, ◌≡◌, refl, ap, subst, ◌∙◌, inl, inr, Bool, not, ◌||◌, some, List, [], ◌∷◌, Result,
  ok, err, some_eq, Bool-cases, Option-cases, Str,
}
use kasten_frs_web.Handlers.Archive.{
  Walk, is_failed, fail, walk_one, child_abs, Walker, walk_children, walk_listed, walk_below,
  walk_rec,
}
use kasten_frs_web.Handlers.Server.{Server}
use kasten_frs_web.SftpClient.Listing.{Entry, entry_name, entry_is_dir}
use kasten_frs_web.SftpClient.Pool.{Handle}
use kasten_frs_web.Std.Paths.{join_path}

module _ {W : Type 0} (srv : Server W) (sess : Handle) (P : Walk W → Type 0) where
  -- What one entry keeps, and a directory's listing.
  pub record IsInvariant : Type 0 where
    pub of_entry :
        (rel abs : Str) (is_dir : Bool) (t : Walk W) → P t → P (walk_one srv sess rel abs is_dir t)
    pub of_listing :
        (abs : Str) (t : Walk W)
        → P t
        → P (record t { world = (srv.sftp.list_dir sess abs t.world).1 })
    pub of_failure :
        (abs e : Str) (t : Walk W)
        → P t
        → P (fail srv sess e t (srv.sftp.list_dir sess abs t.world).1)

  abbrev pub Keeps : Walker srv sess → Type 0
  Keeps rec =
      (rel abs : Str) (is_dir : Bool) (t u : Walk W) → P t → rec rel abs is_dir t ≡ some u → P u

  walk_children-Keeps :
      (rec : Walker srv sess)
      → Keeps rec
      → (rel abs : Str) (es : List Entry) (t u : Walk W) → P t
      → walk_children srv sess rec rel abs es t ≡ some u
      → P u
  unfolding walk_children
  walk_children-Keeps rec k rel abs [] t u h e = subst P (some_eq e) h
  walk_children-Keeps rec k rel abs (x ∷ es) t u h e =
      elim (Option-cases
        (rec (join_path (rel ∷ entry_name x ∷ [])) (child_abs srv sess abs x) (entry_is_dir x) t)) [
          | inl n ↦ cc (rw (n, walk_children) at e)
          | inr (m, q) ↦
              let inside : P m = k _ _ _ t m h q in
              elim (Option-cases m.failed) [
                | inl n ↦
                    walk_children-Keeps rec k rel abs es m u inside (rw (q, n, walk_children) at e)
                | inr (z, n) ↦ subst P (some_eq (rw (q, n, walk_children) at e)) inside
              ]
        ]

  module _ (v : IsInvariant) where
    walk_listed-Keeps :
        (rec : Walker srv sess)
        → Keeps rec
        → (rel abs : Str) (t u : Walk W) (o : Result Str (List Entry) × W)
        → srv.sftp.list_dir sess abs t.world ≡ o
        → P t
        → walk_listed srv sess rec rel abs t o ≡ some u
        → P u
    walk_listed-Keeps rec k rel abs t u (err x, w) q h e =
        subst P (ap (λ o. fail srv sess x t o.1) q ∙ some_eq e) (v.of_failure abs x t h)
    walk_listed-Keeps rec k rel abs t u (ok es, w) q h e =
        walk_children-Keeps rec k rel abs es (record t { world = w }) u
          (subst (λ o. P (record t { world = o.1 })) q (v.of_listing abs t h)) e

    pub walk_below-Keeps :
        (rec : Walker srv sess)
        → Keeps rec
        → (rel abs : Str) (is_dir : Bool) (t u : Walk W) → P t
        → walk_below srv sess rec rel abs is_dir t ≡ some u
        → P u
    walk_below-Keeps rec k rel abs is_dir t u h e = elim (Bool-cases (is_failed t || not is_dir)) [
      | inl b ↦ subst P (some_eq (rw b at e)) h
      | inr b ↦ walk_listed-Keeps rec k rel abs t u _ refl h (rw b at e)
    ]

    -- What holds before a walk and is kept by each of its steps holds after it.
    pub walk_rec_inv :
        (fuel : ℕ) (rel abs : Str) (is_dir : Bool) (t u : Walk W)
        → P t
        → walk_rec srv sess fuel rel abs is_dir t ≡ some u
        → P u
    unfolding walk_rec
    walk_rec_inv zero rel abs is_dir t u h e = cc
    walk_rec_inv (suc fuel) rel abs is_dir t u h e =
        walk_below-Keeps (walk_rec srv sess fuel) (walk_rec_inv fuel) rel abs is_dir _ u
          (v.of_entry rel abs is_dir t h) e
