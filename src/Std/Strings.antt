-- ===== src/Std/Strings.antt =====
-- Package strings: splitting at a one-byte separator, joining, prefixes and suffixes, trimming.
pub mod Splitting
pub mod Order
use kasten_frs_web.Base.{
  ℕ, suc, Bool, true, false, ◌&&◌, ◌||◌, Option, none, some, List, [], ◌∷◌, ◌++◌, reverse, Str,
  ◌==◌, nat_eq, if◌then◌else◌, length, drop, leb,
}

abbrev pub slash : ℕ
slash = b'/'

-- One step of `Split`: a separator closes the first part, any other byte extends it.
abbrev pub extend_head : ℕ → List Str → List Str
extend_head x [] = (x ∷ []) ∷ []
extend_head x (w ∷ ws) = (x ∷ w) ∷ ws

abbrev pub split_step : Bool → ℕ → List Str → List Str
split_step true x ws = [] ∷ ws
split_step false x ws = extend_head x ws

-- strings.Split(s, sep) for a separator of one byte: one part more than there are separators.
unfoldable pub split : ℕ → Str → List Str
split sep [] = [] ∷ []
split sep (x ∷ xs) = split_step (x == sep) x (split sep xs)

-- strings.Join(parts, sep) for a separator of one byte.
unfoldable pub join : ℕ → List Str → Str
join sep [] = []
join sep (w ∷ []) = w
join sep (w ∷ v ∷ ws) = w ++ (sep ∷ join sep (v ∷ ws))

-- strings.SplitN(s, sep, 2): the part before the first separator and the rest, if there is one.
abbrev pub extend_first : ℕ → Option (Str × Str) → Option (Str × Str)
extend_first x none = none
extend_first x (some (a, b)) = some (x ∷ a, b)

unfoldable pub split_once : ℕ → Str → Option (Str × Str)
split_once sep [] = none
split_once sep (x ∷ xs) =
    let rest = split_once sep xs in if x == sep then some ([], xs) else extend_first x rest

unfoldable pub has_prefix : Str → Str → Bool
has_prefix s [] = true
has_prefix [] (p ∷ ps) = false
has_prefix (x ∷ xs) (p ∷ ps) = x == p && has_prefix xs ps

unfoldable pub has_suffix : Str → Str → Bool
unfolding has_prefix
has_suffix s p = has_prefix (reverse s) (reverse p)

-- strings.Contains.
unfoldable pub contains : Str → Str → Bool
unfolding has_prefix
contains [] p = has_prefix [] p
contains (x ∷ xs) p = has_prefix (x ∷ xs) p || contains xs p

-- The text without its leading bytes that equal `c`.
unfoldable pub trim_left : ℕ → Str → Str
trim_left c [] = []
trim_left c (x ∷ xs) = let rest = trim_left c xs in if x == c then rest else x ∷ xs

unfoldable pub trim_right : ℕ → Str → Str
unfolding trim_left
trim_right c s = reverse (trim_left c (reverse s))

-- strings.Trim(s, c) for a cutset of one byte.
unfoldable pub trim : ℕ → Str → Str
unfolding trim_left trim_right
trim c s = trim_right c (trim_left c s)

-- strings.TrimSuffix.
unfoldable pub trim_suffix : Str → Str → Str
unfolding has_suffix
trim_suffix s p = if has_suffix s p then reverse (drop (length p) (reverse s)) else s

-- strings.Index of a one-byte text.
unfoldable pub index_byte : ℕ → Str → Option ℕ
index_byte c [] = none
index_byte c (x ∷ xs) =
    let rest = index_byte c xs in
    if x == c then some 0 else elim rest [ none ↦ none | some i ↦ some (suc i) ]

-- strings.LastIndex of a one-byte text.
unfoldable pub last_index_byte : ℕ → Str → Option ℕ
last_index_byte c [] = none
last_index_byte c (x ∷ xs) = elim (last_index_byte c xs) [
  | some i ↦ some (suc i)
  | none ↦ if x == c then some 0 else none
]

-- strings.ReplaceAll of one byte by one byte.
unfoldable pub replace_byte : ℕ → ℕ → Str → Str
replace_byte a b [] = []
replace_byte a b (x ∷ xs) = (if x == a then b else x) ∷ replace_byte a b xs

-- The space bytes of ASCII: tab, newline, vertical tab, form feed, carriage return and space. (Go
-- also trims the spaces of Unicode outside ASCII, which no text here has a use for.)
unfoldable pub is_space : ℕ → Bool
is_space c = c == 32 || (leb 9 c && leb c 13)

unfoldable pub trim_left_space : Str → Str
trim_left_space [] = []
trim_left_space (c ∷ s) = let rest = trim_left_space s in if is_space c then rest else c ∷ s

-- strings.TrimSpace.
unfoldable pub trim_space : Str → Str
trim_space s = reverse (trim_left_space (reverse (trim_left_space s)))
