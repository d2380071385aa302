-- ===== src/SftpClient/TestServer/Rooted.antt =====
-- The paths on the disk that the test server reads.
use mathlib.Core.List.{reverse-reverse}
use kasten_frs_web.Base.{
  text_eq, nat_eq, ◌≡◌, refl, ap, ◌∙◌, Bool, true, false, List, [], ◌∷◌, ◌++◌, reverse, append-nil,
  Str, All, All-append, sym, inl, inr, Bool-cases, ◌==◌, subst, arith, text_beq, text_beq_iff,
}
use kasten_frs_web.SftpClient.TestServer.{real}
use kasten_frs_web.Std.Paths.{dot, is_rooted, resolve, resolve_all, clean, join_path}
use kasten_frs_web.Std.Paths.Cleaning.{
  IsPlain, clean_parts, resolve_all_plain, Lacks-IsPlain, clean_of_parts, clean_parts-IsPlain,
  clean_rooted,
}
use kasten_frs_web.Std.Paths.Parts.{join_append, join-IsCons}
use kasten_frs_web.Std.Strings.{slash, split, join}
use kasten_frs_web.Std.Strings.Splitting.{IsCons, split-join, Lacks}

-- filepath.Join of two elements that are not empty.
join_two : (s t : Str) → IsCons s → IsCons t → join_path (s ∷ t ∷ []) ≡ clean (s ++ (slash ∷ t))
unfolding join_path
join_two [] t h k = elim h [ ]
join_two (c ∷ s) [] h k = elim k [ ]
join_two (c ∷ s) (d ∷ t) h k = refl

resolve_all-append :
    (b : Bool) (stack xs ys : List Str)
    → resolve_all b stack (xs ++ ys) ≡ resolve_all b (resolve_all b stack xs) ys
unfolding resolve_all
resolve_all-append b stack [] ys = refl
resolve_all-append b stack (x ∷ xs) ys = resolve_all-append b (resolve b stack x) xs ys

-- A clean relative path stays as it is.
clean_relative :
    (p : Str) (ps : List Str)
    → All IsPlain (p ∷ ps)
    → clean (dot ++ (slash ∷ slash ∷ join slash (p ∷ ps))) ≡ join slash (p ∷ ps)
unfolding clean
clean_relative p ps h = rw resolved (kept (join slash (p ∷ ps)) (join-IsCons p ps h.0))
  where
    resolved : reverse (resolve_all false [] (split slash (join slash (p ∷ ps)))) ≡ p ∷ ps
    resolved =
        ap (λ qs. reverse (resolve_all false [] qs))
          (split-join slash (p ∷ ps) tt (Lacks-IsPlain (p ∷ ps) h))
        ∙ ap reverse (resolve_all_plain false [] (p ∷ ps) h ∙ append-nil _)
        ∙ reverse-reverse (p ∷ ps)

    kept : (s : Str) → IsCons s → (elim s [ [] ↦ dot | x ∷ xs ↦ x ∷ xs ]) ≡ s
    kept [] k = elim k [ ]
    kept (c ∷ s) k = refl

-- A last part "." is dropped.
clean_parts-dot :
    (qs : List Str)
    → IsCons qs
    → All IsPlain qs
    → clean_parts (slash ∷ join slash (qs ++ (dot ∷ []))) ≡ qs
unfolding clean_parts resolve_all resolve text_beq split
clean_parts-dot [] k h = elim k [ ]
clean_parts-dot (q ∷ qs) k h =
    ap (λ ws. reverse (resolve_all true [] ws)) parted
    ∙ ap reverse (resolve_all-append true [] (q ∷ qs) (dot ∷ []) ∙ stay _)
    ∙ ap reverse (resolve_all_plain true [] (q ∷ qs) h ∙ append-nil _)
    ∙ reverse-reverse (q ∷ qs)
  where
    parted :
        split slash (slash ∷ join slash ((q ∷ qs) ++ (dot ∷ []))) ≡ [] ∷ ((q ∷ qs) ++ (dot ∷ []))
    parted = ap (◌∷◌ []) (
        split-join slash ((q ∷ qs) ++ (dot ∷ [])) tt (
          All-append (Lacks slash) (q ∷ qs) (dot ∷ []) (Lacks-IsPlain (q ∷ qs) h)
            ((λ e. omega (arith, e), tt), tt)))

    stay : (stack : List Str) → resolve_all true stack (dot ∷ []) ≡ stack
    stay stack = refl

dot-slash : join_path (dot ∷ (slash ∷ join slash []) ∷ []) ≡ dot
unfolding join_path
dot-slash = refl

clean_parts-slash : clean_parts (slash ∷ []) ≡ []
unfolding clean_parts resolve_all resolve split text_beq
clean_parts-slash = refl

module _ (r : Str) (rs : List Str) (plain_root : All IsPlain (r ∷ rs)) where
  -- An absolute path for the root, as t.TempDir() gives one.
  abbrev pub root_path : Str
  root_path = slash ∷ join slash (r ∷ rs)

  below_root :
      (p : Str) (ps : List Str)
      → All IsPlain (p ∷ ps)
      → join_path (root_path ∷ join slash (p ∷ ps) ∷ []) ≡ slash ∷ join slash ((r ∷ rs) ++ (p ∷ ps))
  below_root p ps h =
      join_two root_path (join slash (p ∷ ps)) tt (join-IsCons p ps h.0)
      ∙ ap (λ t. clean (slash ∷ t)) (join_append r rs p ps)
      ∙ clean_of_parts ((r ∷ rs) ++ (p ∷ ps)) (All-append IsPlain (r ∷ rs) (p ∷ ps) plain_root h)

  at_root : join_path (root_path ∷ dot ∷ []) ≡ root_path
  unfolding clean
  at_root =
      join_two root_path dot tt tt
      ∙ ap (λ t. clean (slash ∷ t)) (join_append r rs dot [])
      ∙ clean_rooted (slash ∷ join slash ((r ∷ rs) ++ (dot ∷ []))) refl
      ∙ ap (λ qs. slash ∷ join slash qs) (clean_parts-dot (r ∷ rs) tt plain_root)

  -- What is under the root, by the parts of the clean path.
  real_parts :
      (ps : List Str)
      → All IsPlain ps
      → join_path (root_path ∷ join_path (dot ∷ (slash ∷ join slash ps) ∷ []) ∷ [])
        ≡ slash ∷ join slash ((r ∷ rs) ++ ps)
  real_parts [] h =
      ap (λ t. join_path (root_path ∷ t ∷ [])) dot-slash
      ∙ at_root
      ∙ ap (λ qs. slash ∷ join slash qs) (sym (append-nil (r ∷ rs)))
  real_parts (p ∷ ps) h =
      ap (λ t. join_path (root_path ∷ t ∷ []))
        (join_two dot (slash ∷ join slash (p ∷ ps)) tt tt ∙ clean_relative p ps h)
      ∙ below_root p ps h

  real-slash :
      real root_path (slash ∷ []) ≡ slash ∷ join slash ((r ∷ rs) ++ clean_parts (slash ∷ []))
  unfolding real text_beq
  real-slash = rw clean_parts-slash (ap (λ qs. slash ∷ join slash qs) (sym (append-nil (r ∷ rs))))

  -- For a rooted path, what the server reads on the disk is below its root: the parts of the root,
  -- then those that are left of the path once it is cleaned, of which none is "..".
  pub real-root :
      (p : Str)
      → is_rooted p ≡ true
      → (real root_path p ≡ slash ∷ join slash ((r ∷ rs) ++ clean_parts p))
        × All IsPlain (clean_parts p)
  unfolding real text_beq
  real-root [] h = cc
  real-root (c ∷ p) h = elim (Bool-cases (c ∷ p == slash ∷ [])) [
    | inl e ↦ (
      subst (λ q. real root_path q ≡ slash ∷ join slash ((r ∷ rs) ++ clean_parts q))
          (sym ((text_beq_iff (c ∷ p) (slash ∷ [])).0 e)) real-slash,
      clean_parts-IsPlain (c ∷ p),
    )
    | inr n ↦ (
      rw (n, clean_rooted (c ∷ p) h)
          (real_parts (clean_parts (c ∷ p)) (clean_parts-IsPlain (c ∷ p))),
      clean_parts-IsPlain (c ∷ p),
    )
  ]
