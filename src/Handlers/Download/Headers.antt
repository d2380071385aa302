-- ===== src/Handlers/Download/Headers.antt =====
-- What the Content-Disposition header of a download can hold.
use kasten_frs_web.Base.{
  ℕ, zero, suc, ◌≡◌, refl, ◌≢◌, [], ◌∷◌, ◌++◌, if◌then◌else◌, Str, str, All, ◌≤◌, arith,
}
use kasten_frs_web.Handlers.Download.{
  rune_rest, is_kept_char, ascii_from, ascii_fallback, or_download, content_disposition_filename,
}

-- A printable character of ASCII that is neither a quote nor a backslash.
abbrev pub IsPrintable : ℕ → Type 0
IsPrintable c = (32 ≤ c) × (c ≤ 126) × (c ≢ 34) × (c ≢ 92)

replaced-IsPrintable : (c : ℕ) → IsPrintable (if is_kept_char c then c else b'_')
replaced-IsPrintable c = (ground arith, ground arith, ground arith, ground arith)

ascii_from-IsPrintable : (skip : ℕ) (s : Str) → All IsPrintable (ascii_from skip s)
unfolding ascii_from
ascii_from-IsPrintable skip [] = tt
ascii_from-IsPrintable (suc skip) (c ∷ cs) = ascii_from-IsPrintable skip cs
ascii_from-IsPrintable zero (c ∷ cs) =
    (replaced-IsPrintable c, ascii_from-IsPrintable (rune_rest c cs) cs)

or_download-IsPrintable : (s : Str) → All IsPrintable s → All IsPrintable (or_download s)
or_download-IsPrintable [] h = omega arith
or_download-IsPrintable (c ∷ cs) h = h

-- Whatever the name, the quoted file name in the Content-Disposition header of a download is not
-- empty and holds no control character, no quote, no backslash and nothing outside ASCII, so it
-- cannot break out of its quotes.
pub content_disposition_filename-IsPrintable :
    (path_escape : Str → Str) (name : Str)
    → (quoted : Str) × (quoted ≢ [])
      × All IsPrintable quoted
      × (content_disposition_filename path_escape name
          ≡ (str "attachment; filename=" ++ (34 ∷ []))
            ++ (quoted ++ ((34 ∷ str "; filename*=UTF-8''") ++ path_escape name)))
unfolding content_disposition_filename ascii_fallback
content_disposition_filename-IsPrintable path_escape name = (
  or_download (ascii_from 0 name),
  or_download-nonempty (ascii_from 0 name),
  or_download-IsPrintable (ascii_from 0 name) (ascii_from-IsPrintable 0 name),
  refl,
)
  where
    or_download-nonempty : (s : Str) → or_download s ≢ []
    or_download-nonempty [] e = cc
    or_download-nonempty (c ∷ cs) e = cc
