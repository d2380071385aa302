-- ===== src/SftpClient/Validate.antt =====
-- validatePath of internal/sftpclient/client.go, which guards ListDir, Open and Stat.
pub mod Meaning
use kasten_frs_web.Base.{
  not, Option, none, some, [], if◌then◌else◌, ◌==◌, Str, str, any, nat_eq, text_eq,
}
use kasten_frs_web.Std.Paths.{dot_dot, clean}
use kasten_frs_web.Std.Strings.{slash, split, has_prefix}

pub data PathError : Type 0 where
  empty not_absolute parent_segment not_rooted : PathError

-- `none` is the nil error.
unfoldable pub validate_path : Str → Option PathError
validate_path p =
    if p == []
    then some empty
    else if not (has_prefix p (str "/"))
    then some not_absolute
    else if any (λ seg. seg == dot_dot) (split slash p)
    then some parent_segment
    else if not (has_prefix (clean p) (str "/"))
    then some not_rooted
    else none
