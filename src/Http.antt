-- ===== src/Http.antt =====
-- Package net/http as the helper uses it: a parsed request, and what a handler writes.
use kasten_frs_web.Base.{
  ℕ, Bool, Option, none, some, List, [], ◌∷◌, if◌then◌else◌, ◌==◌, Str, str, lookup, nat_eq,
  text_eq,
}
use kasten_frs_web.Base.Int.{ℤ}

-- `form` is r.Form after ParseForm, whose error is `form_error`; FormValue reads what was parsed
-- also after an error.
pub record Request : Type 0 where
  pub method : Str
  pub path : Str
  pub headers : List (Str × Str)
  pub cookies : List (Str × Str)
  pub query : List (Str × Str)
  pub form : List (Str × Str)
  pub form_error : Bool

abbrev pub or_empty : Option Str → Str
or_empty none = []
or_empty (some s) = s

-- r.Header.Get, r.URL.Query().Get and r.FormValue: the first value, or the empty text.
unfoldable pub header : Str → Request → Str
header name r = or_empty (lookup name r.headers)

pub query_value : Str → Request → Str
query_value name r = or_empty (lookup name r.query)

unfoldable pub form_value : Str → Request → Str
form_value name r = or_empty (lookup name r.form)

-- r.Form[name].
unfoldable pub values : Str → List (Str × Str) → List Str
values name [] = []
values name ((k, v) ∷ m) = let rest = values name m in if k == name then v ∷ rest else rest

-- r.Cookie(name): `none` is http.ErrNoCookie.
unfoldable pub cookie : Str → Request → Option Str
cookie name r = lookup name r.cookies

pub record SetCookie : Type 0 where
  pub name : Str
  pub value : Str
  pub path : Str
  pub max_age : ℤ
  pub http_only : Bool
  pub secure : Bool
  pub same_site_strict : Bool

-- The body: nothing, a plain text of http.Error, or a view of the program's own.
pub data Content (V : Type 0) : Type 0 where
  nothing : Content V
  message : Str → Content V
  view : V → Content V

pub record Response (V : Type 0) : Type 0 where
  pub status : ℕ
  pub headers : List (Str × Str)
  pub set_cookies : List SetCookie
  pub content : Content V

module _ {V : Type 0} where
  -- http.Redirect(w, r, url, http.StatusSeeOther).
  abbrev pub see_other : Str → Response V
  see_other url = record {
    status = 303;
    headers = (str "Location", url) ∷ [];
    set_cookies = [];
    content = nothing;
  }

  -- http.Error.
  abbrev pub http_error : ℕ → Str → Response V
  http_error status text = record {
    status = status;
    headers = [];
    set_cookies = [];
    content = message text;
  }
