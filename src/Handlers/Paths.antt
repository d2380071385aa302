-- ===== src/Handlers/Paths.antt =====
-- The text helpers of internal/handlers/handlers.go: paths for the crumb bar and the links, file
-- names for downloads, and human-readable sizes.
pub mod Sizes
pub mod Crumbs
use kasten_frs_web.Base.{
  ℕ, zero, suc, ◌+◌, ◌*◌, ◌/◌, Bool, not, ◌&&◌, ◌||◌, Option, none, some, List, [], ◌∷◌, ◌++◌, ltb,
  leb, if◌then◌else◌, ◌==◌, Str, str, length, take, drop, nat_eq, text_eq, get_elem?,
}
use kasten_frs_web.Base.Int.{ℤ, pos, negsuc, pos_part, neg_part}
use kasten_frs_web.K8s.{FrsRef}
use kasten_frs_web.Std.Strconv.{format_int}
use kasten_frs_web.Std.Strings.{
  slash, split, join, has_suffix, trim_right, trim, last_index_byte, replace_byte,
}

unfoldable pub split_path : Str → List Str
split_path p = if trim slash p == [] then [] else split slash (trim slash p)

pub is_last_path_seg : ℤ → ℤ → Bool
is_last_path_seg i total = pos_part i + neg_part total + 1 == pos_part total + neg_part i

-- buildPath clamps the index to the number of segments.
abbrev pub clamp_index : ℤ → ℕ → ℕ
clamp_index (negsuc n) count = 0
clamp_index (pos n) count = if ltb count n then count else n

unfoldable pub build_path : Str → ℤ → Str
build_path p up_to =
    slash ∷ join slash (take (clamp_index up_to (length (split_path p))) (split_path p))

abbrev cut_at : Str → Option ℕ → Str
cut_at p none = slash ∷ []
cut_at p (some zero) = slash ∷ []
cut_at p (some (suc i)) = take (suc i) p

unfoldable pub parent_path : Str → Str
parent_path p =
    if p == slash ∷ [] || p == []
    then slash ∷ []
    else cut_at (trim_right slash p) (last_index_byte slash (trim_right slash p))

unfoldable pub join_leaf : Str → Str → Str
join_leaf parent leaf =
    if parent == [] || parent == slash ∷ []
    then slash ∷ leaf
    else if has_suffix parent (slash ∷ [])
    then parent ++ leaf
    else parent ++ (slash ∷ leaf)

unfoldable pub base_name : Str → Str
base_name p = elim (last_index_byte slash p) [ none ↦ p | some i ↦ drop (i + 1) p ]

-- sanitizeArchiveName; whether the path is a directory makes no difference in the source.
unfoldable pub sanitize_archive_name : FrsRef → Str → Bool → Str
sanitize_archive_name ref path is_dir =
    let clean_name = replace_byte slash b'-' (trim slash path) in
    if clean_name == []
    then ref.namespace ++ (b'-' ∷ (ref.name ++ str ".tar.gz"))
    else if not (has_suffix clean_name (str ".tar.gz"))
    then clean_name ++ str ".tar.gz"
    else clean_name

-- humanSize: the rounds of its loop, the unit that is left and its index. Five rounds are all that
-- the loop can make.
pub record Scale : Type 0 where
  pub div : ℕ
  pub exponent : ℕ

unfoldable pub scale : ℕ → ℕ → ℕ → ℕ → Scale
scale zero n div exponent = record { div = div; exponent = exponent }
scale (suc fuel) n div exponent =
    let more = scale fuel n (div * 1024) (exponent + 1) in
    if leb 1024 (n / div) && ltb exponent 5 then more else record { div = div; exponent = exponent }

abbrev pub units : List Str
units = str "KiB" ∷ str "MiB" ∷ str "GiB" ∷ str "TiB" ∷ str "PiB" ∷ str "EiB" ∷ []

-- A panic for an index out of range.
abbrev pub unit_at : ℕ → Option Str
unit_at i = get_elem? units i

abbrev scaled_text : Str → Option Str → Option Str
scaled_text number none = none
scaled_text number (some unit) = some (number ++ (32 ∷ unit))

-- humanSize of a size that is not negative, given what "%.1f" prints of the quotient of two
-- floating-point numbers; `none` is a panic.
unfoldable pub human_size_of : (ℕ → ℕ → Str) → ℕ → Option Str
human_size_of quotient n =
    if ltb n 1024
    then some (format_int (pos n) ++ str " B")
    else scaled_text (quotient n (scale 5 n 1024 0).div) (unit_at (scale 5 n 1024 0).exponent)

unfoldable pub human_size : (ℕ → ℕ → Str) → ℤ → Option Str
human_size quotient (negsuc n) = human_size_of quotient 0
human_size quotient (pos n) = human_size_of quotient n
