-- ===== src/Std/Paths.antt =====
-- Packages path and path/filepath on Unix: Clean, Join, Base, Dir and IsAbs by their documented
-- meaning.
pub mod Cleaning
pub mod Parts
use kasten_frs_web.Base.{
  ◌+◌, Bool, true, false, ◌||◌, none, some, List, [], ◌∷◌, reverse, if◌then◌else◌, ◌==◌, text_beq,
  Str, str, take, drop, keep, nat_eq, text_eq,
}
use kasten_frs_web.Std.Strings.{slash, split, join, trim_right, last_index_byte}

abbrev pub dot : Str
dot = str "."

abbrev pub dot_dot : Str
dot_dot = str ".."

abbrev pub is_rooted : Str → Bool
is_rooted [] = false
is_rooted (x ∷ xs) = x == slash

-- A ".." takes back the part before it; at the start of a rooted path it is dropped, and at the
-- start of any other it stays. The stack has its top at the head.
abbrev pub pop : Bool → List Str → List Str
pop rooted [] = if rooted then [] else dot_dot ∷ []
pop rooted (top ∷ stack) = if top == dot_dot then dot_dot ∷ top ∷ stack else stack

unfoldable pub resolve : Bool → List Str → Str → List Str
resolve rooted stack part =
    if part == [] || part == dot
    then stack
    else if part == dot_dot
    then pop rooted stack
    else part ∷ stack

unfoldable pub resolve_all : Bool → List Str → List Str → List Str
resolve_all rooted stack [] = stack
resolve_all rooted stack (part ∷ parts) = resolve_all rooted (resolve rooted stack part) parts

abbrev or_dot : Str → Str
or_dot [] = dot
or_dot (x ∷ xs) = x ∷ xs

-- path.Clean.
unfoldable pub clean : Str → Str
unfolding resolve_all resolve split join text_beq
clean p =
    if is_rooted p
    then slash ∷ join slash (reverse (resolve_all true [] (split slash p)))
    else or_dot (join slash (reverse (resolve_all false [] (split slash p))))

abbrev is_nonempty : Str → Bool
is_nonempty [] = false
is_nonempty (x ∷ xs) = true

abbrev clean_nonempty : List Str → Str
clean_nonempty [] = []
clean_nonempty (w ∷ ws) = clean (join slash (w ∷ ws))

-- path.Join and filepath.Join: empty elements are ignored.
unfoldable pub join_path : List Str → Str
unfolding clean join keep
join_path parts = clean_nonempty (keep is_nonempty parts)

-- filepath.IsAbs.
abbrev pub is_abs : Str → Bool
is_abs = is_rooted

-- The text after the last slash.
unfoldable pub after_last_slash : Str → Str
unfolding last_index_byte
after_last_slash p = elim (last_index_byte slash p) [ none ↦ p | some i ↦ drop (i + 1) p ]

-- filepath.Base.
abbrev base_of_trimmed : Str → Str
base_of_trimmed [] = slash ∷ []
base_of_trimmed (x ∷ xs) = after_last_slash (x ∷ xs)

unfoldable pub base : Str → Str
unfolding trim_right after_last_slash
base [] = dot
base (x ∷ xs) = base_of_trimmed (trim_right slash (x ∷ xs))

-- filepath.Dir: what stands up to and with the last slash, cleaned.
unfoldable pub dir : Str → Str
unfolding last_index_byte clean
dir p = elim (last_index_byte slash p) [ none ↦ clean [] | some i ↦ clean (take (i + 1) p) ]
