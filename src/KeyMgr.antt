-- ===== src/KeyMgr.antt =====
-- internal/keymgr/keymgr.go: the SSH key pair and the Secret that keeps it. The API server and
-- golang.org/x/crypto/ssh are parameters; `none` is an error of theirs.
pub mod Again
pub mod Tests
use kasten_frs_web.Base.{
  ◌≡◌, ◌&&◌, Option, none, some, [], if◌then◌else◌, ◌==◌, Str, ◌⊎◌, inl, inr, nat_eq, text_eq,
  ◌>>=◌,
}

-- The two fields of a Secret's data: empty if they are missing.
pub record Secret : Type 0 where
  pub ssh_privatekey : Str
  pub ssh_publickey : Str

pub data Got : Type 0 where
  found : Secret → Got
  not_found : Got
  get_failed : Got

-- The Secrets of one namespace in a state T of the API server.
pub record SecretsApi (T : Type 0) : Type 0 where
  pub get_secret : Str → T → Got
  pub create_secret : Str → Secret → T → Option T
  pub update_secret : Str → Secret → T → Option T

-- What the API server documents: a Secret that exists cannot be created, and a write is read.
pub record SecretsLaws {T : Type 0} (secrets : SecretsApi T) : Type 0 where
  pub create_exists :
      (name : Str) (sec old : Secret) (t : T)
      → secrets.get_secret name t ≡ found old
      → secrets.create_secret name sec t ≡ none
  pub get-create :
      (name : Str) (sec : Secret) (t u : T)
      → secrets.create_secret name sec t ≡ some u
      → secrets.get_secret name u ≡ found sec
  pub get-update :
      (name : Str) (sec : Secret) (t u : T)
      → secrets.update_secret name sec t ≡ some u
      → secrets.get_secret name u ≡ found sec

-- The functions of package ssh and of ed25519 that are called, on key pairs (K), signers (S) and
-- public keys (P). `generate` is the key that the random source gives at this call.
pub record SshLib (K S P : Type 0) : Type 0 where
  pub generate : Option K
  pub marshal_private_key : K → Option Str
  pub new_public_key : K → Option P
  pub parse_private_key : Str → Option S
  pub public_key_of : S → P
  pub parse_authorized_key : Str → Option P
  pub marshal_authorized_key : P → Str

-- What package ssh documents: an empty text holds no key, and a written public key can be read.
pub record SshLaws {K S P : Type 0} (ssh : SshLib K S P) : Type 0 where
  pub no_private_key : ssh.parse_private_key [] ≡ none
  pub no_authorized_key : ssh.parse_authorized_key [] ≡ none
  pub parse-marshal : (p : P) → ssh.parse_authorized_key (ssh.marshal_authorized_key p) ≡ some p

pub record Manager (S P : Type 0) : Type 0 where
  pub signer : S
  pub public_key : P
  pub pub_key_pem : Str
  pub signer_raw : Str

pub data KeyError : Type 0 where
  get_error : KeyError
  no_private : KeyError
  generate_error : KeyError
  create_error : KeyError
  update_error : KeyError
  bad_private : KeyError
  bad_public : KeyError

module _ {K S P : Type 0} (ssh : SshLib K S P) where
  abbrev pub manager_of : S → P → Str → Manager S P
  manager_of s p priv = record {
    signer = s;
    public_key = p;
    pub_key_pem = ssh.marshal_authorized_key p;
    signer_raw = priv;
  }

  unfoldable pub with_public : S → Str → Option P → KeyError ⊎ Manager S P
  with_public s priv none = inl bad_public
  with_public s priv (some p) = inr (manager_of s p priv)

  unfoldable pub with_signer : Str → Str → Option S → KeyError ⊎ Manager S P
  with_signer priv pub_text none = inl bad_private
  with_signer priv pub_text (some s) =
      if pub_text == []
      then inr (manager_of s (ssh.public_key_of s) priv)
      else with_public s priv (ssh.parse_authorized_key pub_text)

  unfoldable pub parse_into : Str → Str → KeyError ⊎ Manager S P
  parse_into priv pub_text = with_signer priv pub_text (ssh.parse_private_key priv)

  -- marshalEd25519; the public half of an ed25519 key always has its type.
  unfoldable pub marshal_ed25519 : K → Option Secret
  marshal_ed25519 k = do
    priv ← ssh.marshal_private_key k
    p ← ssh.new_public_key k
    some (record { ssh_privatekey = priv; ssh_publickey = ssh.marshal_authorized_key p })

  module _ {T : Type 0} (secrets : SecretsApi T) (name : Str) where
    open secrets use {get_secret, create_secret, update_secret}

    unfoldable pub persisted : T → Secret → Option T → T × (KeyError ⊎ Manager S P)
    persisted t sec none = (t, inl create_error)
    persisted t sec (some u) = (u, parse_into sec.ssh_privatekey sec.ssh_publickey)

    unfoldable pub persist : T → Option Secret → T × (KeyError ⊎ Manager S P)
    persist t none = (t, inl generate_error)
    persist t (some sec) = persisted t sec (create_secret name sec t)

    unfoldable pub generate_and_persist : T → T × (KeyError ⊎ Manager S P)
    generate_and_persist t = persist t (ssh.generate >>= marshal_ed25519)

    unfoldable pub updated : T → S → Str → Option T → T × (KeyError ⊎ Manager S P)
    updated t s priv none = (t, inl update_error)
    updated t s priv (some u) = (u, inr (manager_of s (ssh.public_key_of s) priv))

    unfoldable pub patch : T → Str → Option S → T × (KeyError ⊎ Manager S P)
    patch t priv none = (t, inl bad_private)
    patch t priv (some s) = updated t s priv (
        update_secret name
          (record {
            ssh_privatekey = priv;
            ssh_publickey = ssh.marshal_authorized_key (ssh.public_key_of s);
          })
          t)

    unfoldable pub derive_and_patch : T → Str → T × (KeyError ⊎ Manager S P)
    derive_and_patch t priv = patch t priv (ssh.parse_private_key priv)

    unfoldable pub load_from : T → Got → T × (KeyError ⊎ Manager S P)
    load_from t not_found = generate_and_persist t
    load_from t get_failed = (t, inl get_error)
    load_from t (found sec) =
        if sec.ssh_privatekey == [] && sec.ssh_publickey == []
        then generate_and_persist t
        else if sec.ssh_privatekey == []
        then (t, inl no_private)
        else if sec.ssh_publickey == []
        then derive_and_patch t sec.ssh_privatekey
        else (t, parse_into sec.ssh_privatekey sec.ssh_publickey)

    unfoldable pub load_or_generate : T → T × (KeyError ⊎ Manager S P)
    load_or_generate t = load_from t (get_secret name t)
