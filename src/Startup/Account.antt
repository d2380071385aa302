-- ===== src/Startup/Account.antt =====
-- readSANameFromToken: the name of the service account in the projected token.
use kasten_frs_web.Base.{
  nat_eq, text_eq, ℕ, Option, none, some, List, [], ◌∷◌, ◌++◌, ltb, if◌then◌else◌, ◌==◌, Str, str,
  length, take, drop, zero, suc, ◌≢◌, refl, text_beq, ne_of_eq_false, ◌≡◌, true, arith,
}
use kasten_frs_web.Http.{header}
use kasten_frs_web.Std.Base64.{decode}
use kasten_frs_web.Std.Strings.{split, has_prefix, index_byte}

-- strings.Index: the text from behind the first place where `key` stands, if there is one.
unfoldable pub after_text : Str → Str → Option Str
after_text key [] = if key == [] then some [] else none
after_text key (c ∷ s) =
    let rest = after_text key s in
    if has_prefix (c ∷ s) key then some (drop (length key) (c ∷ s)) else rest

abbrev pub unknown : Str
unknown = str "unknown"

unfoldable pub name_before : Str → Option ℕ → Str
name_before rest none = unknown
name_before rest (some j) = if ltb 0 j then take j rest else unknown

unfoldable pub name_after : Option Str → Str
name_after none = unknown
name_after (some rest) = name_before rest (index_byte 34 rest)

-- The key, with its quotes and its colon, and the quote that opens the name.
abbrev pub name_key : Str
name_key = 34 ∷ (str "kubernetes.io/serviceaccount.name" ++ (34 ∷ 58 ∷ 34 ∷ []))

unfoldable pub name_in_payload : Option Str → Str
name_in_payload none = unknown
name_in_payload (some payload) = name_after (after_text name_key payload)

-- The parts of strings.SplitN(data, ".", 3): the second one ends at the second dot.
unfoldable pub name_in_parts : List Str → Str
name_in_parts [] = unknown
name_in_parts (header ∷ []) = unknown
name_in_parts (header ∷ payload ∷ parts) = name_in_payload (decode payload)

unfoldable pub read_sa_name_from_token : Option Str → Str
read_sa_name_from_token none = unknown
read_sa_name_from_token (some token) = name_in_parts (split 46 token)

unknown-text : unknown ≢ []
unfolding text_beq
unknown-text = ne_of_eq_false unknown [] refl

name_before-text : (c : ℕ) (rest : Str) (o : Option ℕ) → name_before (c ∷ rest) o ≢ []
unfolding name_before
name_before-text c rest none e = unknown-text e
name_before-text c rest (some zero) e = unknown-text e
name_before-text c rest (some (suc j)) e =
    let later : ltb 0 (suc j) ≡ true = ground arith in let k = rw later at e in cc

name_after-text : (o : Option Str) → name_after o ≢ []
unfolding name_after name_before index_byte
name_after-text none e = unknown-text e
name_after-text (some []) e = unknown-text e
name_after-text (some (c ∷ rest)) e = name_before-text c rest (index_byte 34 (c ∷ rest)) e

name_in_parts-text : (parts : List Str) → name_in_parts parts ≢ []
unfolding name_in_parts name_in_payload
name_in_parts-text [] e = unknown-text e
name_in_parts-text (header ∷ []) e = unknown-text e
name_in_parts-text (header ∷ payload ∷ parts) e = in_payload (decode payload) e
  where
    in_payload : (o : Option Str) → name_in_payload o ≢ []
    in_payload none x = unknown-text x
    in_payload (some p) x = name_after-text (after_text name_key p) x

-- The name is never empty.
pub read_sa_name_from_token-text : (o : Option Str) → read_sa_name_from_token o ≢ []
unfolding read_sa_name_from_token
read_sa_name_from_token-text none e = unknown-text e
read_sa_name_from_token-text (some token) e = name_in_parts-text (split 46 token) e
