-- ===== src/Handlers/Download.antt =====
-- handleDownload of internal/handlers/handlers.go.
pub mod Headers
use kasten_frs_web.Base.{
  ℕ, Bool, not, ◌||◌, Option, none, some, [], ◌∷◌, ◌++◌, ok, ◌==◌, Str, nat_eq, text_eq, List, ltb,
  if◌then◌else◌, Result, err, str, zero, suc, ◌&&◌, leb,
}
use kasten_frs_web.Handlers.Paths.{base_name}
use kasten_frs_web.Handlers.Server.{
  Reply, State, parse_frs_query, bad_query, session_expired, in_world, pool_get, file, Server,
  render_error,
}
use kasten_frs_web.Http.{Request, view}
use kasten_frs_web.K8s.{FrsRef}
use kasten_frs_web.SftpClient.{FileInfo}
use kasten_frs_web.SftpClient.Pool.{Handle}
use kasten_frs_web.Std.Strconv.{format_int}

-- Whether a byte is in a range, bounds included.
abbrev pub is_in : ℕ → ℕ → ℕ → Bool
is_in low high c = leb low c && leb c high

-- The least and the greatest second byte of a rune of UTF-8 whose first byte is c.
abbrev pub second_byte : ℕ → ℕ → Bool
second_byte c d =
    is_in (if c == 224 then 160 else if c == 240 then 144 else 128)
      (if c == 237 then 159 else if c == 244 then 143 else 191) d

-- How many bytes more the rune at the start of a text takes; a byte that starts no rune of UTF-8 is
-- read as a rune of its own, as a `range` over a string does.
unfoldable pub rune_rest : ℕ → Str → ℕ
rune_rest c (d ∷ e ∷ f ∷ cs) =
    if is_in 194 223 c && second_byte c d
    then 1
    else if is_in 224 239 c && second_byte c d && is_in 128 191 e
    then 2
    else if is_in 240 244 c && second_byte c d && is_in 128 191 e && is_in 128 191 f
    then 3
    else 0
rune_rest c (d ∷ e ∷ []) =
    if is_in 194 223 c && second_byte c d
    then 1
    else if is_in 224 239 c && second_byte c d && is_in 128 191 e
    then 2
    else 0
rune_rest c (d ∷ []) = if is_in 194 223 c && second_byte c d then 1 else 0
rune_rest c [] = 0

abbrev pub is_kept_char : ℕ → Bool
is_kept_char c = not (ltb c 32 || c == 127 || c == 34 || c == 92 || ltb 126 c)

-- The text from a position on, where `skip` bytes more belong to the rune before it. A rune of
-- several bytes starts with a byte that is not kept, as the rune is not.
unfoldable pub ascii_from : ℕ → Str → Str
ascii_from skip [] = []
ascii_from (suc skip) (c ∷ cs) = ascii_from skip cs
ascii_from zero (c ∷ cs) = (if is_kept_char c then c else b'_') ∷ ascii_from (rune_rest c cs) cs

unfoldable pub ascii_fallback : Str → Str
ascii_fallback name = ascii_from 0 name

abbrev pub or_download : Str → Str
or_download [] = str "download"
or_download (c ∷ cs) = c ∷ cs

-- contentDispositionFilename, given url.PathEscape.
unfoldable pub content_disposition_filename : (Str → Str) → Str → Str
content_disposition_filename path_escape name =
    str "attachment; filename="
    ++ (34 ∷ [])
    ++ (or_download (ascii_fallback name) ++ ((34 ∷ str "; filename*=UTF-8''") ++ path_escape name))

module _ {W : Type 0} (srv : Server W) where
  open srv use {sftp}

  -- Content-Length only if Stat succeeded.
  abbrev pub length_header : Result Str FileInfo → List (Str × Str)
  length_header (err e) = []
  length_header (ok info) = (str "Content-Length", format_int info.size) ∷ []

  abbrev pub download_headers : Str → Result Str FileInfo → List (Str × Str)
  download_headers path info =
      (str "Content-Disposition", content_disposition_filename srv.path_escape (base_name path))
      ∷ length_header info

  abbrev pub download_stated : Str → ℕ → Result Str FileInfo × State W → Reply × State W
  download_stated path reader (info, s) =
      let (copied, s1) = in_world (sftp.copy reader) s in
      (
        record {
          status = 200;
          headers = download_headers path info;
          set_cookies = [];
          content = view (file copied.0);
        },
        s1,
      )

  abbrev pub download_opened : Handle → Str → Result Str ℕ × State W → Reply × State W
  download_opened sess path (err e, s) = (render_error 404 (str "Failed to open file") e, s)
  download_opened sess path (ok reader, s) =
      download_stated path reader (in_world (sftp.stat sess path) s)

  abbrev pub download_pooled : Str → Option Handle × State W → Reply × State W
  download_pooled path (none, s) = (session_expired, s)
  download_pooled path (some sess, s) =
      download_opened sess path (in_world (sftp.open_file sess path) s)

  abbrev pub download_parsed : Request → ℕ → Option (FrsRef × Str) → State W → Reply × State W
  download_parsed r now none s = (bad_query, s)
  download_parsed r now (some (ref, path)) s = download_pooled path (pool_get srv ref now r s)

  unfoldable pub handle_download : ℕ → Request → State W → Reply × State W
  handle_download now r s = download_parsed r now (parse_frs_query r) s
