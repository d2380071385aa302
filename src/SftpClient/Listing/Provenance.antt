-- ===== src/SftpClient/Listing/Provenance.antt =====
-- Where the entries of a listing come from.
use kasten_frs_web.Base.{
  ◌≡◌, refl, ◌≢◌, inl, inr, true, false, Option, none, some, List, [], ◌∷◌, arith, ok, Bool-cases,
  All, Occurs, ◌⊎◌, str, text_beq_iff, Str, subst, ok-injective, Option-cases,
}
use kasten_frs_web.SftpClient.{FileInfo, SftpServer, Session, succeeded, probe}
use kasten_frs_web.SftpClient.Chroot.{resolve_absolute_target, target_parts}
use kasten_frs_web.SftpClient.Chroot.Outcome.{Outcome, resolve_absolute_target-Outcome}
use kasten_frs_web.SftpClient.Chroot.Safety.{validate_path-resolve_absolute_target}
use kasten_frs_web.SftpClient.Junctions.{ancestor_walk_resolve}
use kasten_frs_web.SftpClient.Junctions.Walk.{ancestor_walk_resolve-Found}
use kasten_frs_web.SftpClient.Listing.{
  mode_symlink, has_bit, Entry, is_usable_base, or_plain, resolve_by_base, resolve_by_target,
  read_link, resolve_link_answer, resolve_symlink, list_entry, list_entries, list_dir,
  take_resolved, list_answer,
}
use kasten_frs_web.SftpClient.Validate.{validate_path, PathError}
use kasten_frs_web.SftpClient.Validate.Meaning.{validate_path_iff}
use kasten_frs_web.Std.Paths.{is_rooted, join_path, is_abs, base}
use kasten_frs_web.SftpClient.Listing.Unreached.{
  ancestors, Refused, resolve_absolute_target-NotServed, ancestor_walk_resolve-Refused,
  ancestor_walk_resolve-Above,
}
use kasten_frs_web.SftpClient.Listing.Entries.{
  IsUnusable, Walked, Stripped, Unreached, Leads, Provenance, regular, opened, followed,
  unreachable, Sources,
}

module _ {W : Type 0} (srv : SftpServer W) where
  or_plain-Provenance :
      (path : Str) (info : FileInfo) (found : Str) (before : W)
      → has_bit mode_symlink info.mode ≡ true
      → validate_path found ≡ none
      → succeeded (srv.read_dir found before).0 ≡ true
      → (found ≡ [] → Unreached srv path info)
      → (found ≡ []) ⊎ Leads srv path (join_path (path ∷ info.name ∷ [])) found
      → Provenance srv path info (or_plain info found)
  or_plain-Provenance path info [] before link accepted listed lost led =
      unreachable link (lost refl) refl
  or_plain-Provenance path info (x ∷ xs) before link accepted listed lost (inl e) = cc
  or_plain-Provenance path info (x ∷ xs) before link accepted listed lost (inr led) =
      followed link (x ∷ xs) led accepted before listed refl

  usable_base-nonempty : (b : Str) → is_usable_base b ≡ true → b ≢ []
  unfolding is_usable_base
  usable_base-nonempty b h e = ground (arith, (text_beq_iff b []).1 e)

  IsUnusable-base : (b : Str) → is_usable_base b ≡ false → IsUnusable b
  unfolding is_usable_base
  IsUnusable-base b h = ground (
    arith,
    text_beq_iff b [],
    text_beq_iff b (str "."),
    text_beq_iff b (str "/"),
    text_beq_iff b (str ".."),
  )

  resolve_by_base-Provenance :
      (path : Str) (info : FileInfo) (target : Str) (s : Session W)
      → has_bit mode_symlink info.mode ≡ true
      → is_rooted path ≡ true
      → (Walked srv path target → Unreached srv path info)
      → ((found c : Str)
          → Occurs c (ancestors 5 path)
          → found ≡ join_path (c ∷ base target ∷ [])
          → Leads srv path (join_path (path ∷ info.name ∷ [])) found)
      → Provenance srv path info (resolve_by_base srv path info target s).0
  unfolding resolve_by_base
  resolve_by_base-Provenance path info target s link rooted lost led =
      elim (Bool-cases (is_usable_base (base target))) [
        | inr b ↦ rw b (unreachable link (lost (inl (IsUnusable-base (base target) b))) refl)
        | inl b ↦
            rw b
              (walked (base target) (usable_base-nonempty (base target) b) (λ w. lost (inr w)) led)
      ]
    where
      walked :
          (name : Str)
          → name ≢ []
          → (All (λ c. Refused srv (join_path (c ∷ name ∷ []))) (ancestors 5 path)
              → Unreached srv path info)
          → ((found c : Str)
              → Occurs c (ancestors 5 path)
              → found ≡ join_path (c ∷ name ∷ [])
              → Leads srv path (join_path (path ∷ info.name ∷ [])) found)
          → Provenance srv path info (or_plain info (ancestor_walk_resolve srv path name s).0.0)
      walked name n gone leads =
          let nothing = λ (e : (ancestor_walk_resolve srv path name s).0.0 ≡ []).
            gone (ancestor_walk_resolve-Refused srv name path s rooted n e) in
          elim (ancestor_walk_resolve-Found srv path name s rooted n) [
            | inl e ↦ rw e (unreachable link (nothing e) refl)
            | inr f ↦
                or_plain-Provenance path info _ f.before link f.accepted f.listed nothing
                  (elim (ancestor_walk_resolve-Above srv name path s) [
                    | inl e ↦ inl e
                    | inr (c, o, e) ↦ inr (leads _ c o e)
                  ])
          ]

  take_resolved-Provenance :
      (path : Str) (info : FileInfo) (target : Str) (r : Str × Session W)
      → has_bit mode_symlink info.mode ≡ true
      → is_rooted path ≡ true
      → is_abs target ≡ true
      → (before : W) × ((srv.read_link (join_path (path ∷ info.name ∷ [])) before).0 ≡ some target)
      → (r.0 ≢ [] → validate_path r.0 ≡ none)
      → Outcome srv (target_parts target) r
      → (r.0 ≡ [] → Walked srv path target → Unreached srv path info)
      → Provenance srv path info (take_resolved srv path info target r).0
  take_resolved-Provenance path info target ([], s) link rooted a (w, t) accepted o lost =
      resolve_by_base-Provenance path info target s link rooted (lost refl)
        (λ found c i e. (target, w, t, inr (c, i, e)))
  take_resolved-Provenance path info target (x ∷ xs, s) link rooted a (w, t) accepted (inl r) lost =
      followed link (x ∷ xs) (target, w, t, inl (r.depth, r.lower, a, r.stripped))
        (accepted (λ e. cc)) r.before r.listed refl
  take_resolved-Provenance path info target (x ∷ xs, s) link rooted a w accepted (inr m) lost =
      cc m.0

  resolve_by_target-Provenance :
      (path : Str) (info : FileInfo) (target : Str) (s : Session W)
      → has_bit mode_symlink info.mode ≡ true
      → is_rooted path ≡ true
      → (before : W) × ((srv.read_link (join_path (path ∷ info.name ∷ [])) before).0 ≡ some target)
      → (Stripped srv target → Walked srv path target → Unreached srv path info)
      → Provenance srv path info (resolve_by_target srv path info target s).0
  unfolding resolve_by_target
  resolve_by_target-Provenance path info target s link rooted (w, t) lost =
      elim (Bool-cases (is_abs target)) [
        | inr a ↦ rw a (
            resolve_by_base-Provenance path info target s link rooted (lost (inl a))
              (λ found c i e. (target, w, t, inr (c, i, e))))
        | inl a ↦ rw a (
            take_resolved-Provenance path info target (resolve_absolute_target srv target s) link
              rooted a (w, t) (validate_path-resolve_absolute_target srv target s a)
              (resolve_absolute_target-Outcome srv target s)
              (λ e. lost (inr (resolve_absolute_target-NotServed srv target s e))))
      ]

  resolve_link_answer-Provenance :
      (path : Str) (info : FileInfo) (before : W) (answer : Option Str) (t : Session W)
      → has_bit mode_symlink info.mode ≡ true
      → is_rooted path ≡ true
      → Refused srv (join_path (path ∷ info.name ∷ []))
      → (srv.read_link (join_path (path ∷ info.name ∷ [])) before).0 ≡ answer
      → Provenance srv path info (resolve_link_answer srv path info (answer, t)).0
  resolve_link_answer-Provenance path info before none t link rooted r e =
      unreachable link (r, inl (before, inl e)) refl
  resolve_link_answer-Provenance path info before (some []) t link rooted r e =
      unreachable link (r, inl (before, inr e)) refl
  resolve_link_answer-Provenance path info before (some (x ∷ xs)) t link rooted r e =
      resolve_by_target-Provenance path info (x ∷ xs) t link rooted (before, e)
        (λ stripped walked. (r, inr (x ∷ xs, before, e, stripped, walked)))

  list_entry-Provenance :
      (path : Str) (info : FileInfo) (s : Session W)
      → is_rooted path ≡ true
      → Provenance srv path info (list_entry srv path info s).0
  unfolding list_entry resolve_symlink probe read_link
  list_entry-Provenance path info s rooted = elim (Bool-cases (has_bit mode_symlink info.mode)) [
    | inr l ↦ rw l (regular l refl)
    | inl l ↦ elim (Bool-cases (probe srv (join_path (path ∷ info.name ∷ [])) s).0) [
      | inl p ↦ rw (l, p) (opened l s.world p refl)
      | inr p ↦
          rw (l, p) (resolve_link_answer-Provenance path info _ _ _ l rooted (s.world, p) refl)
    ]
  ]

  list_entries-Sources :
      (path : Str) (infos : List FileInfo) (s : Session W)
      → is_rooted path ≡ true
      → Sources srv path infos (list_entries srv path infos s).0
  unfolding list_entries
  list_entries-Sources path [] s rooted = tt
  list_entries-Sources path (info ∷ infos) s rooted =
      (list_entry-Provenance path info s rooted, list_entries-Sources path infos _ rooted)

  list_answer-Sources :
      (path : Str) (answer : Option (List FileInfo)) (s : Session W) (es : List Entry)
      → is_rooted path ≡ true
      → (list_answer srv path answer s).0 ≡ ok es
      → (infos : List FileInfo) × (answer ≡ some infos) × Sources srv path infos es
  list_answer-Sources path none s es rooted h = cc
  list_answer-Sources path (some infos) s es rooted h = (
    infos,
    refl,
    subst (Sources srv path infos) (ok-injective h) (list_entries-Sources path infos s rooted),
  )

  -- A listing that succeeds is of a valid path that the server listed, and has one entry for each
  -- of the server's, in its order: a regular entry as it is; a link as a directory, if the server
  -- listed the link itself, or a path, accepted by validatePath, that the link was resolved to: the
  -- target that the server gave, if it is absolute, less some leading components, or the target's
  -- base name below the directory or one of the four above it; and another link as it is, but then
  -- the server refused to list it, and gave no target for it, or one of which it refused to list
  -- what was to be tried: an absolute target less one to five leading components, and the target's
  -- base name, if it is one to look for, below the directory and the four above it.
  pub list_dir-Sources :
      (path : Str) (s : Session W) (es : List Entry)
      → (list_dir srv path s).0 ≡ ok es
      → (infos : List FileInfo) × (validate_path path ≡ none)
        × ((srv.read_dir path s.world).0 ≡ some infos)
        × Sources srv path infos es
  unfolding list_dir
  list_dir-Sources path s es h = elim (Option-cases (validate_path path)) [
    | inr (e, v) ↦ absurd (refused e v)
    | inl v ↦
        let (infos, a, sources) =
          list_answer-Sources path (srv.read_dir path s.world).0 _ es
            ((validate_path_iff path).0 v).0 (rw (v, list_dir) at h) in
        (infos, v, a, sources)
  ]
    where
      refused : (e : PathError) → validate_path path ≡ some e → ⊥
      refused e v = cc (rw (v, list_dir) at h)
