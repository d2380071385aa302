-- ===== src/Handlers/Archive/Cut.antt =====
-- The walk of an archive up to a depth: what has been done when the walk ends, or when it first goes
-- deeper. A walk that never ends goes deeper than any depth, so each of its writes is in one of
-- these.
use kasten_frs_web.Base.{
  ℕ, zero, suc, ◌≡◌, refl, ◌⊎◌, inl, inr, Bool, not, ◌||◌, Option, none, some, List, [], ◌∷◌,
  Result, ok, err, Bool-cases, Option-cases, Str, str,
}
use kasten_frs_web.Handlers.Archive.{
  Walk, is_failed, walk_one, child_abs, Walker, walk_children, walk_listed, walk_below, walk_rec,
}
use kasten_frs_web.Handlers.Server.{Server}
use kasten_frs_web.SftpClient.Listing.{Entry, entry_name, entry_is_dir}
use kasten_frs_web.SftpClient.Pool.{Handle}
use kasten_frs_web.Std.Paths.{join_path}

module _ {W : Type 0} (srv : Server W) (sess : Handle) where
  -- The walk, which is stopped where walk_rec is out of fuel.
  unfoldable pub walk_to : ℕ → Walker srv sess
  walk_to zero rel abs is_dir t = some (record t { failed = some (str "too deep") })
  walk_to (suc depth) rel abs is_dir t =
      walk_below srv sess (walk_to depth) rel abs is_dir (walk_one srv sess rel abs is_dir t)

  -- The one run is out of fuel, or the other is the same.
  abbrev pub Extends : Option (Walk W) → Option (Walk W) → Type 0
  Extends a b = (a ≡ none) ⊎ (a ≡ b)

  abbrev Ends : Option (Walk W) → Type 0
  Ends o = (u : Walk W) × (o ≡ some u)

  module _ (a b : Walker srv sess)
      (same : (rel abs : Str) (is_dir : Bool) (t : Walk W)
        → Extends (a rel abs is_dir t) (b rel abs is_dir t))
      (total : (rel abs : Str) (is_dir : Bool) (t : Walk W) → Ends (b rel abs is_dir t)) where
    abbrev Agrees : Option (Walk W) → Option (Walk W) → Type 0
    Agrees x y = Extends x y × Ends y

    children-Agrees :
        (rel abs : Str) (es : List Entry) (t : Walk W)
        → Agrees (walk_children srv sess a rel abs es t) (walk_children srv sess b rel abs es t)
    unfolding walk_children
    children-Agrees rel abs [] t = (inr refl, (t, refl))
    children-Agrees rel abs (e ∷ es) t =
        let name = join_path (rel ∷ entry_name e ∷ []) in
        let (u, q) = total name (child_abs srv sess abs e) (entry_is_dir e) t in
        elim (Option-cases u.failed) [
          | inr (x, f) ↦ elim (same name (child_abs srv sess abs e) (entry_is_dir e) t) [
            | inl n ↦ rw (n, q, f, walk_children) (inl refl, (u, refl))
            | inr s ↦ rw (s, q, f, walk_children) (inr refl, (u, refl))
          ]
          | inl f ↦ elim (same name (child_abs srv sess abs e) (entry_is_dir e) t) [
            | inl n ↦ rw (n, q, f, walk_children) (inl refl, (children-Agrees rel abs es u).1)
            | inr s ↦ rw (s, q, f, walk_children) (children-Agrees rel abs es u)
          ]
        ]

    listed-Agrees :
        (rel abs : Str) (t : Walk W) (o : Result Str (List Entry) × W)
        → Agrees (walk_listed srv sess a rel abs t o) (walk_listed srv sess b rel abs t o)
    listed-Agrees rel abs t (err e, w) = (inr refl, (_, refl))
    listed-Agrees rel abs t (ok es, w) = children-Agrees rel abs es (record t { world = w })

    below-Agrees :
        (rel abs : Str) (is_dir : Bool) (t : Walk W)
        → Agrees (walk_below srv sess a rel abs is_dir t) (walk_below srv sess b rel abs is_dir t)
    below-Agrees rel abs is_dir t = elim (Bool-cases (is_failed t || not is_dir)) [
      | inl y ↦ rw y (inr refl, (t, refl))
      | inr n ↦ rw n (listed-Agrees rel abs t _)
    ]

  -- It always ends, and as the walk does where that ends.
  pub walk_to-Extends :
      (depth : ℕ) (rel abs : Str) (is_dir : Bool) (t : Walk W)
      → Extends (walk_rec srv sess depth rel abs is_dir t) (walk_to depth rel abs is_dir t)
        × ((u : Walk W) × (walk_to depth rel abs is_dir t ≡ some u))
  unfolding walk_rec walk_to
  walk_to-Extends zero rel abs is_dir t = (inl refl, (_, refl))
  walk_to-Extends (suc depth) rel abs is_dir t =
      below-Agrees (walk_rec srv sess depth) (walk_to depth)
        (λ r a d u. (walk_to-Extends depth r a d u).0)
        (λ r a d u. (walk_to-Extends depth r a d u).1) rel abs is_dir _
