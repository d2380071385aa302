-- ===== src/SftpClient/HostKey.antt =====
-- internal/sftpclient/client.go: host key signatures of the form "[host:port] alg base64". The regular
-- expression hostKeySigRe is written out as a scan: each of its parts ends where the next begins, so
-- there is one way to match. ssh.ParseAuthorizedKey is a parameter (`none` is its error).
pub mod Parsed
use kasten_frs_web.Base.{
  nat_eq, text_eq, ◌⊎◌, inl, inr, ◌||◌, ℕ, ◌+◌, Bool, not, Option, none, some, [], ◌∷◌, ◌++◌, ltb,
  leb, if◌then◌else◌, ◌==◌, Str, length, take, drop, suc,
}
use kasten_frs_web.Base.Int.{ℤ}
use kasten_frs_web.Std.Strconv.{is_digit, parse_int}
use kasten_frs_web.Std.Strings.{index_byte, last_index_byte, trim_space}

-- \s of Go's regular expressions, which lacks the vertical tab.
abbrev pub is_re_space : ℕ → Bool
is_re_space c = c == 32 || (c == 9 || (c == 10 || (c == 12 || c == 13)))

abbrev pub cons_first : ℕ → Str × Str → Str × Str
cons_first c (a, b) = (c ∷ a, b)

-- The longest prefix of bytes that pass, and the rest.
unfoldable pub span : (ℕ → Bool) → Str → Str × Str
span p [] = ([], [])
span p (c ∷ s) = let rest = span p s in if p c then cons_first c rest else ([], c ∷ s)

-- The four groups of a match; a missing port is "".
pub record SigParts : Type 0 where
  pub host : Str
  pub port : Str
  pub alg : Str
  pub key : Str

unfoldable pub match_end : Str → Str → Str → Str × Str → Option SigParts
match_end host port alg (key, rest) =
    if key == []
    then none
    else if (span is_re_space rest).1 == []
    then some (record { host = host; port = port; alg = alg; key = key })
    else none

unfoldable pub match_key : Str → Str → Str → Str × Str → Option SigParts
match_key host port alg (spaces, rest) =
    if spaces == [] then none else match_end host port alg (span (λ c. not (is_re_space c)) rest)

unfoldable pub match_alg : Str → Str → Str × Str → Option SigParts
match_alg host port (alg, rest) =
    if alg == [] then none else match_key host port alg (span is_re_space rest)

unfoldable pub match_words : Str → Str → Str × Str → Option SigParts
match_words host port (spaces, rest) =
    if spaces == [] then none else match_alg host port (span (λ c. not (is_re_space c)) rest)

unfoldable pub match_digits : Str → Str × Str → Option SigParts
match_digits host (port, rest) =
    if port == [] then none else match_words host port (span is_re_space rest)

unfoldable pub match_port : Str → Str → Option SigParts
match_port host [] = none
match_port host (c ∷ s) =
    if c == 58
    then match_digits host (span is_digit s)
    else match_words host [] (span is_re_space (c ∷ s))

unfoldable pub match_host : Str × Str → Option SigParts
match_host (host, []) = none
match_host (host, c ∷ rest) = if host == [] then none else match_port host rest

-- hostKeySigRe.FindStringSubmatch
unfoldable pub match_sig : Str → Option SigParts
match_sig [] = none
match_sig (c ∷ s) = if c == 91 then match_host (span (λ b. not (b == 93)) s) else none

unfoldable pub split_port : Str → Str → Option ℤ → Option (Str × Str)
split_port host port none = none
split_port host port (some n) = some (host, port)

unfoldable pub split_at_colon : Str → Option ℕ → Option (Str × Str)
split_at_colon s none = none
split_at_colon s (some i) = split_port (take i s) (drop (suc i) s) (parse_int (drop (suc i) s))

-- netSplitHostPort
unfoldable pub net_split_host_port : Str → Option (Str × Str)
net_split_host_port s = split_at_colon s (last_index_byte 58 s)

pub data SigError : Type 0 where
  empty_signature : SigError
  malformed_signature : SigError
  bad_host_port : SigError
  bad_host_key : SigError

abbrev pub host_port_of : SigParts → Str
host_port_of m = if m.port == [] then m.host else m.host ++ (58 ∷ m.port)

module _ {P : Type 0} (parse_authorized_key : Str → Option P) where
  abbrev pub key_found : Option P → SigError ⊎ P
  key_found none = inl bad_host_key
  key_found (some k) = inr k

  unfoldable pub key_of_address : SigParts → Option (Str × Str) → SigError ⊎ P
  key_of_address m none = inl bad_host_port
  key_of_address m (some address) = key_found (parse_authorized_key (m.alg ++ (32 ∷ m.key)))

  unfoldable pub key_of_match : Option SigParts → SigError ⊎ P
  key_of_match none = inl malformed_signature
  key_of_match (some m) = key_of_address m (net_split_host_port (host_port_of m))

  unfoldable pub parse_host_key_signature : Str → SigError ⊎ P
  parse_host_key_signature sig =
      if sig == [] then inl empty_signature else key_of_match (match_sig (trim_space sig))

-- shortHostKeySig: the bracketed host, if something follows it, else at most 64 bytes.
unfoldable pub short_host_key_sig : Str → Str
short_host_key_sig sig = if sig == [] then [] else shortened (index_byte 93 sig)
  where
    cut : Str
    cut = if ltb 64 (length sig) then take 64 sig ++ (226 ∷ 128 ∷ 166 ∷ []) else sig

    shortened : Option ℕ → Str
    shortened none = cut
    shortened (some end) = if leb (length sig) (end + 1) then cut else take (end + 1) sig
