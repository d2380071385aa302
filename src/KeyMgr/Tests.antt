-- ===== src/KeyMgr/Tests.antt =====
-- Runs over a store with one Secret, and keys that are their own texts.
use kasten_frs_web.Base.{
  nat_eq, text_eq, ◌≡◌, refl, inl, inr, Option, none, some, [], ◌∷◌, text_beq, Str, str,
}
use kasten_frs_web.KeyMgr.{
  found, Secret, Got, not_found, SecretsApi, SecretsLaws, SshLib, SshLaws, Manager, KeyError,
  manager_of, with_public, with_signer, parse_into, marshal_ed25519, persisted, persist,
  generate_and_persist, load_from, load_or_generate,
}
use kasten_frs_web.KeyMgr.Again.{Keeps, load_or_generate-Keeps, load_or_generate-no_private}

-- The API server's state: the one Secret, if it is there.
abbrev got_of : Option Secret → Got
got_of none = not_found
got_of (some sec) = found sec

abbrev created_in : Secret → Option Secret → Option (Option Secret)
created_in sec none = some (some sec)
created_in sec (some old) = none

abbrev pub one_secret : SecretsApi (Option Secret)
one_secret = record {
  get_secret = λ name t. got_of t;
  create_secret = λ name sec t. created_in sec t;
  update_secret = λ name sec t. some (some sec);
}

refuses : (sec old : Secret) (t : Option Secret) → got_of t ≡ found old → created_in sec t ≡ none
refuses sec old none h = cc
refuses sec old (some s) h = refl

reads : (sec : Secret) (t u : Option Secret) → created_in sec t ≡ some u → got_of u ≡ found sec
reads sec none u h = cc
reads sec (some s) u h = cc

updates : (sec : Secret) (u : Option Secret) → some (some sec) ≡ some u → got_of u ≡ found sec
updates sec u h = cc

pub one_secret_laws : SecretsLaws one_secret
one_secret_laws = record {
  create_exists = λ name sec old t h. refuses sec old t h;
  get-create = λ name sec t u h. reads sec t u h;
  get-update = λ name sec t u h. updates sec u h;
}

-- A private key is any text but the empty one; a public key is written with a letter before it.
abbrev private_of : Str → Option Str
private_of [] = none
private_of (c ∷ s) = some (c ∷ s)

abbrev public_of : Str → Option Str
public_of [] = none
public_of (c ∷ s) = some s

abbrev pub text_ssh : SshLib Str Str Str
text_ssh = record {
  generate = some (str "k");
  marshal_private_key = λ k. some k;
  new_public_key = λ k. some k;
  parse_private_key = private_of;
  public_key_of = λ s. s;
  parse_authorized_key = public_of;
  marshal_authorized_key = λ p. b'p' ∷ p;
}

pub text_laws : SshLaws text_ssh
text_laws = record { no_private_key = refl; no_authorized_key = refl; parse-marshal = λ p. refl }

abbrev pub no_secret : Option Secret
no_secret = none

abbrev pub new_pair : Secret
new_pair = record { ssh_privatekey = str "k"; ssh_publickey = str "pk" }

abbrev pub new_manager : Manager Str Str
new_manager = manager_of text_ssh (str "k") (str "k") (str "k")

pub first_start :
    (name : Str)
    → load_or_generate text_ssh one_secret name no_secret ≡ (some new_pair, inr new_manager)
unfolding load_or_generate load_from generate_and_persist persist persisted marshal_ed25519
    parse_into with_signer with_public text_beq
first_start name = refl

load_or_generate-Keeps_example :
    Keeps text_ssh text_laws one_secret one_secret_laws (str "s") (some new_pair) new_manager
    × (load_or_generate text_ssh one_secret (str "s") (some new_pair)
        ≡ (some new_pair, inr new_manager))
load_or_generate-Keeps_example =
    load_or_generate-Keeps text_ssh text_laws one_secret one_secret_laws (str "s") no_secret
      (some new_pair) new_manager (first_start (str "s"))

abbrev empty_secret : Secret
empty_secret = record { ssh_privatekey = []; ssh_publickey = [] }

load_or_generate-no_private_example :
    (e : KeyError) × (load_or_generate text_ssh one_secret (str "s") (some empty_secret)
      ≡ (some empty_secret, inl e))
load_or_generate-no_private_example =
    load_or_generate-no_private text_ssh text_laws one_secret one_secret_laws (str "s")
      (some empty_secret) empty_secret refl refl
