-- ===== src/Config/Loaded.antt =====
-- What a configuration that was loaded has, and that the required variables alone are enough.
use kasten_frs_web.Base.{
  nat_eq, text_eq, ◌⊎◌, inl, inr, Bool-cases, ne_of_eq_false, ◌≤◌, ◌≡◌, refl, ◌≢◌, Option, none,
  some, [], arith, ltb, ◌==◌, Str, length, subst, str,
}
use kasten_frs_web.Base.Int.{ℤ}
use kasten_frs_web.Config.{Config, require, checked, Env, text_of, getenv, load}
use kasten_frs_web.Std.Strconv.{parse_int}

pub record IsUsable (c : Config) : Type 0 where
  pub has_username : c.username ≢ []
  pub has_password : c.password ≢ []
  pub long_secret : 16 ≤ length c.cookie_secret

checked-IsUsable : (c d : Config) → checked c ≡ inr d → (c ≡ d) × IsUsable c
unfolding checked
checked-IsUsable c d h = elim (Bool-cases (c.username == [])) [
  | inl y ↦ let k = rw y at h in cc
  | inr x ↦ elim (Bool-cases (c.password == [])) [
    | inl y ↦ let k = rw (x, y) at h in cc
    | inr y ↦ elim (Bool-cases (ltb (length c.cookie_secret) 16)) [
      | inl z ↦ let k = rw (x, y, z) at h in cc
      | inr z ↦
          let k = rw (x, y, z) at h in
          (
            cc,
            record {
              has_username = ne_of_eq_false _ _ x;
              has_password = ne_of_eq_false _ _ y;
              long_secret = grind arith;
            },
          )
    ]
  ]
]

required :
    {A B : Type 0} (name : Str) (o : Option A) (next : A → Str ⊎ B) (b : B)
    → require name o next ≡ inr b
    → (a : A) × (o ≡ some a) × (next a ≡ inr b)
required name none next b h = cc
required name (some a) next b h = (a, refl, h)

module _ (parse_duration : Str → Option ℤ) (env : Env) where
  -- The environment has what is required, and its numbers and durations can be read; a variable
  -- that is not set, or is empty, counts as its default.
  pub record IsComplete : Type 0 where
    pub port : ℤ
    pub session_ttl : ℤ
    pub pool_ttl : ℤ
    pub timeout : ℤ
    pub wait : ℤ
    pub frs_port : ℤ
    pub port_text : parse_int (getenv env (str "HELPER_PORT") (str "8080")) ≡ some port
    pub session_text :
        parse_duration (getenv env (str "HELPER_SESSION_TTL") (str "8h")) ≡ some session_ttl
    pub pool_text : parse_duration (getenv env (str "HELPER_SFTP_TTL") (str "30m")) ≡ some pool_ttl
    pub timeout_text :
        parse_duration (getenv env (str "HELPER_SFTP_TIMEOUT") (str "10s")) ≡ some timeout
    pub wait_text :
        parse_duration (getenv env (str "HELPER_FRS_WAIT_TIMEOUT") (str "120s")) ≡ some wait
    pub frs_port_text : parse_int (getenv env (str "HELPER_FRS_PORT") (str "2222")) ≡ some frs_port
    pub has_username : text_of (env (str "HELPER_USERNAME")) ≢ []
    pub has_password : text_of (env (str "HELPER_PASSWORD")) ≢ []
    pub long_secret : 16 ≤ length (text_of (env (str "HELPER_COOKIE_SECRET")))

  pub loaded-IsComplete : (c : Config) → load parse_duration env ≡ inr c → IsUsable c × IsComplete
  unfolding load
  loaded-IsComplete c h =
      let (port, e1, h1) = required _ _ _ c h in
      let (ttl, e2, h2) = required _ _ _ c h1 in
      let (pool, e3, h3) = required _ _ _ c h2 in
      let (timeout, e4, h4) = required _ _ _ c h3 in
      let (wait, e5, h5) = required _ _ _ c h4 in
      let (frs, e6, h6) = required _ _ _ c h5 in
      let (same, u) = checked-IsUsable _ c h6 in
      (
        subst IsUsable same u,
        record {
          port = port;
          session_ttl = ttl;
          pool_ttl = pool;
          timeout = timeout;
          wait = wait;
          frs_port = frs;
          port_text = e1;
          session_text = e2;
          pool_text = e3;
          timeout_text = e4;
          wait_text = e5;
          frs_port_text = e6;
          has_username = u.has_username;
          has_password = u.has_password;
          long_secret = u.long_secret;
        },
      )
