-- ===== src/Config/Tests.antt =====
-- Runs of the configuration.
use kasten_frs_web.Base.{nat_eq, text_eq, Option, none, some, if◌then◌else◌, ◌==◌, Str, str}
use kasten_frs_web.Base.Int.{ℤ, pos}
use kasten_frs_web.Config.{Config, Env}

-- An environment that has the required variables only.
abbrev pub least_env : Env
least_env k =
    if k == str "HELPER_USERNAME"
    then some (str "admin")
    else if k == str "HELPER_PASSWORD"
    then some (str "secret")
    else if k == str "HELPER_COOKIE_SECRET"
    then some (str "0123456789abcdef")
    else none

abbrev pub one_hour : Str → Option ℤ
one_hour s = some (pos 3600000000000)
