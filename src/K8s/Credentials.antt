-- ===== src/K8s/Credentials.antt =====
-- internal/k8s/credentials.go: LoadPrivateKey. A Secret is its type and its data; `none` is an error of
-- the API server's. The program itself loads its key by internal/keymgr.
use kasten_frs_web.Base.{
  nat_eq, text_eq, inl, inr, ◌≡◌, ◌⊎◌, not, Option, none, some, List, [], if◌then◌else◌, ◌==◌, Str,
  str, lookup, refl, ap, ◌∙◌, ◌≢◌, Bool-cases, text_beq_iff, ne_of_eq_false,
}

pub record CredentialsConfig : Type 0 where
  pub namespace : Str
  pub secret : Str
  pub key : Str

pub record PrivateKeyCredentials : Type 0 where
  pub username : Str
  pub private_key : Str

pub record TypedSecret : Type 0 where
  pub secret_type : Str
  pub entries : List (Str × Str)

pub data CredentialsError : Type 0 where
  not_read : CredentialsError
  wrong_type : CredentialsError
  missing_field : CredentialsError

abbrev pub bytes_of : Option Str → Str
bytes_of none = []
bytes_of (some b) = b

unfoldable pub credentials_of : Str → Option TypedSecret → CredentialsError ⊎ PrivateKeyCredentials
credentials_of key none = inl not_read
credentials_of key (some sec) =
    if not (sec.secret_type == str "kubernetes.io/ssh-auth")
    then inl wrong_type
    else if bytes_of (lookup key sec.entries) == []
    then inl missing_field
    else inr (record { username = str "root"; private_key = bytes_of (lookup key sec.entries) })

-- LoadPrivateKey
unfoldable pub load_private_key :
    (Str → Str → Option TypedSecret) → CredentialsConfig → CredentialsError ⊎ PrivateKeyCredentials
load_private_key get_secret cfg = credentials_of cfg.key (get_secret cfg.namespace cfg.secret)

some_bytes : (o : Option Str) → bytes_of o ≢ [] → o ≡ some (bytes_of o)
some_bytes none n = elim (n refl) [ ]
some_bytes (some b) n = refl

credentials_of-key :
    (key : Str) (o : Option TypedSecret) (c : PrivateKeyCredentials)
    → credentials_of key o ≡ inr c
    → (sec : TypedSecret) × (o ≡ some sec)
      × (sec.secret_type ≡ str "kubernetes.io/ssh-auth")
      × (c.username ≡ str "root")
      × (lookup key sec.entries ≡ some c.private_key)
unfolding credentials_of
credentials_of-key key none c h = cc
credentials_of-key key (some sec) c h =
    elim (Bool-cases (sec.secret_type == str "kubernetes.io/ssh-auth")) [
      | inr n ↦ let k = rw n at h in cc
      | inl y ↦ elim (Bool-cases (bytes_of (lookup key sec.entries) == [])) [
        | inl z ↦ let k = rw (y, z) at h in cc
        | inr z ↦
            let k = rw (y, z) at h in
            (
              sec,
              refl,
              (text_beq_iff _ _).0 y,
              cc,
              some_bytes (lookup key sec.entries) (ne_of_eq_false _ _ z) ∙ ap some (same_key k),
            )
      ]
    ]
  where
    same_key :
        {a b : PrivateKeyCredentials} {E : Type 0}
        → Path (E ⊎ PrivateKeyCredentials) (inr a) (inr b)
        → a.private_key ≡ b.private_key
    same_key h = cc

-- The credentials are those of user root with the field of an SSH Secret, which is not empty.
pub load_private_key-key :
    (get_secret : Str → Str → Option TypedSecret) (cfg : CredentialsConfig)
    (c : PrivateKeyCredentials)
    → load_private_key get_secret cfg ≡ inr c
    → (sec : TypedSecret) × (get_secret cfg.namespace cfg.secret ≡ some sec)
      × (sec.secret_type ≡ str "kubernetes.io/ssh-auth")
      × (c.username ≡ str "root")
      × (lookup cfg.key sec.entries ≡ some c.private_key)
unfolding load_private_key
load_private_key-key get_secret cfg c h = credentials_of-key cfg.key _ c h
