-- ===== src/KeyMgr/Again.antt =====
-- What a start of the helper leaves in the Secret: the next start finds the same key there.
use kasten_frs_web.Base.{
  nat_eq, text_eq, ◌≢◌, ap, ◌≡◌, refl, inr, some, [], arith, eq_ne, Str, ◌∙◌, Option, none, subst,
  inl, Bool-cases, ◌==◌, ne_of_eq_false, ◌>>=◌, text_beq,
}
use kasten_frs_web.KeyMgr.{
  Secret, found, SecretsApi, SecretsLaws, SshLib, SshLaws, Manager, manager_of, with_public,
  with_signer, parse_into, persisted, updated, load_from, load_or_generate, marshal_ed25519,
  persist, generate_and_persist, patch, derive_and_patch, Got, not_found, get_failed, KeyError,
  no_private, generate_error, create_error,
}

module _ {K S P : Type 0} (ssh : SshLib K S P) (ssh_laws : SshLaws ssh) where
  marshalled : (p : P) → ssh.marshal_authorized_key p ≢ []
  marshalled p e =
      ground
        (arith, ssh_laws.parse-marshal p, ssh_laws.no_authorized_key, ap ssh.parse_authorized_key e)

  abbrev pair_of : Str → P → Secret
  pair_of priv p = record { ssh_privatekey = priv; ssh_publickey = ssh.marshal_authorized_key p }

  with_signer_pair :
      (priv : Str) (s : S) (p : P)
      → with_signer ssh priv (ssh.marshal_authorized_key p) (some s) ≡ inr (manager_of ssh s p priv)
  unfolding with_signer with_public
  with_signer_pair priv s p =
      rw (eq_ne (ssh.marshal_authorized_key p) [] (marshalled p), ssh_laws.parse-marshal p) refl

  -- A private key that could be parsed is not empty.
  private_text : (priv : Str) (s : S) → ssh.parse_private_key priv ≡ some s → priv ≢ []
  private_text priv s h e = ground (arith, ssh_laws.no_private_key, ap ssh.parse_private_key e)

  parse_into-text :
      (priv pub_text : Str) (m : Manager S P) → parse_into ssh priv pub_text ≡ inr m → priv ≢ []
  unfolding parse_into with_signer
  parse_into-text priv pub_text m h e =
      ground (arith, ssh_laws.no_private_key, ap ssh.parse_private_key e)

  module _ {T : Type 0} (secrets : SecretsApi T) (laws : SecretsLaws secrets) (name : Str) where
    load_full :
        (t : T) (sec : Secret)
        → sec.ssh_privatekey ≢ []
        → sec.ssh_publickey ≢ []
        → secrets.get_secret name t ≡ found sec
        → load_or_generate ssh secrets name t
          ≡ (t, parse_into ssh sec.ssh_privatekey sec.ssh_publickey)
    unfolding load_or_generate load_from
    load_full t sec h k e = rw (e, eq_ne sec.ssh_privatekey [] h, eq_ne sec.ssh_publickey [] k) refl

    -- The Secret holds the key pair of this manager.
    pub Keeps : T → Manager S P → Type 0
    Keeps u m =
        (sec : Secret) × (secrets.get_secret name u ≡ found sec)
        × (sec.ssh_privatekey ≢ [])
        × (sec.ssh_publickey ≢ [])
        × (parse_into ssh sec.ssh_privatekey sec.ssh_publickey ≡ inr m)

    Keeps-again :
        (u : T) (m : Manager S P) → Keeps u m → load_or_generate ssh secrets name u ≡ (u, inr m)
    unfolding Keeps
    Keeps-again u m (sec, e, h, k, parsed) = load_full u sec h k e ∙ ap (λ r. (u, r)) parsed

    persisted-Keeps :
        (t u : T) (m : Manager S P) (priv : Str) (p : P) (o : Option T)
        → secrets.create_secret name (pair_of priv p) t ≡ o
        → persisted ssh secrets name t (pair_of priv p) o ≡ (u, inr m)
        → Keeps u m
    unfolding Keeps persisted
    persisted-Keeps t u m priv p none c h = cc
    persisted-Keeps t u m priv p (some v) c h =
        let parsed = ap (λ r. r.1) h in
        (
          pair_of priv p,
          subst (λ w. secrets.get_secret name w ≡ found (pair_of priv p)) (ap (λ r. r.0) h)
              (laws.get-create name (pair_of priv p) t v c),
          parse_into-text priv (ssh.marshal_authorized_key p) m parsed,
          marshalled p,
          parsed,
        )

    derived-Keeps :
        (t u : T) (m : Manager S P) (priv : Str) (s : S) (o : Option T)
        → ssh.parse_private_key priv ≡ some s
        → secrets.update_secret name (pair_of priv (ssh.public_key_of s)) t ≡ o
        → updated ssh secrets name t s priv o ≡ (u, inr m)
        → Keeps u m
    unfolding Keeps updated parse_into
    derived-Keeps t u m priv s none q c h = cc
    derived-Keeps t u m priv s (some v) q c h = (
      _,
      subst (λ w. secrets.get_secret name w ≡ found (pair_of priv (ssh.public_key_of s)))
          (ap (λ r. r.0) h) (laws.get-update name (pair_of priv (ssh.public_key_of s)) t v c),
      private_text priv s q,
      marshalled (ssh.public_key_of s),
      rw q (with_signer_pair priv s (ssh.public_key_of s)) ∙ ap (λ r. r.1) h,
    )

    persist-Keeps :
        (t u : T) (m : Manager S P) (a : Option Str) (b : Option P)
        → persist ssh secrets name t (a >>= (λ priv. b >>= (λ p. some (pair_of priv p))))
          ≡ (u, inr m)
        → Keeps u m
    unfolding persist
    persist-Keeps t u m none b h = cc
    persist-Keeps t u m (some priv) none h = cc
    persist-Keeps t u m (some priv) (some p) h = persisted-Keeps t u m priv p _ refl h

    generated-Keeps :
        (t u : T) (m : Manager S P) (o : Option K)
        → persist ssh secrets name t (o >>= marshal_ed25519 ssh) ≡ (u, inr m)
        → Keeps u m
    unfolding persist marshal_ed25519
    generated-Keeps t u m none h = cc
    generated-Keeps t u m (some k) h =
        persist-Keeps t u m (ssh.marshal_private_key k) (ssh.new_public_key k) h

    patched-Keeps :
        (t u : T) (m : Manager S P) (priv : Str) (o : Option S)
        → ssh.parse_private_key priv ≡ o
        → patch ssh secrets name t priv o ≡ (u, inr m)
        → Keeps u m
    unfolding patch
    patched-Keeps t u m priv none q h = cc
    patched-Keeps t u m priv (some s) q h = derived-Keeps t u m priv s _ q refl h

    loaded-Keeps :
        (t u : T) (m : Manager S P) (g : Got)
        → secrets.get_secret name t ≡ g
        → load_from ssh secrets name t g ≡ (u, inr m)
        → Keeps u m
    unfolding load_from generate_and_persist derive_and_patch Keeps
    loaded-Keeps t u m not_found e h = generated-Keeps t u m ssh.generate h
    loaded-Keeps t u m get_failed e h = cc
    loaded-Keeps t u m (found sec) e h = elim (Bool-cases (sec.ssh_privatekey == [])) [
      | inl y ↦ elim (Bool-cases (sec.ssh_publickey == [])) [
        | inl z ↦ generated-Keeps t u m ssh.generate (rw (y, z) at h)
        | inr n ↦ let k = rw (y, n) at h in cc
      ]
      | inr x ↦ elim (Bool-cases (sec.ssh_publickey == [])) [
        | inl z ↦ patched-Keeps t u m sec.ssh_privatekey _ refl (rw (x, z) at h)
        | inr n ↦
            let k = rw (x, n) at h in
            (
              sec,
              subst (λ w. secrets.get_secret name w ≡ found sec) (ap (λ r. r.0) k) e,
              ne_of_eq_false _ _ x,
              ne_of_eq_false _ _ n,
              ap (λ r. r.1) k,
            )
      ]
    ]

    -- Given documented behaviour of the Secrets and of package ssh: after a start that loaded a
    -- key pair, the Secret holds it in full, and the next start loads the same key pair and
    -- changes nothing.
    pub load_or_generate-Keeps :
        (t u : T) (m : Manager S P)
        → load_or_generate ssh secrets name t ≡ (u, inr m)
        → Keeps u m × (load_or_generate ssh secrets name u ≡ (u, inr m))
    unfolding load_or_generate
    load_or_generate-Keeps t u m h =
        let kept = loaded-Keeps t u m _ refl h in (kept, Keeps-again u m kept)

    persist_exists :
        (t : T) (old : Secret) (o : Option Secret)
        → secrets.get_secret name t ≡ found old
        → (e : KeyError) × (persist ssh secrets name t o ≡ (t, inl e))
    unfolding persist persisted
    persist_exists t old none h = (generate_error, refl)
    persist_exists t old (some sec) h =
        (create_error, rw (laws.create_exists name sec old t h) refl)

    -- Given documented behaviour of the Secrets and of package ssh: where the Secret is there
    -- without a private key, with a public key or without, there is always an error, and the
    -- Secret stays as it is.
    pub load_or_generate-no_private :
        (t : T) (sec : Secret)
        → secrets.get_secret name t ≡ found sec
        → sec.ssh_privatekey ≡ []
        → (e : KeyError) × (load_or_generate ssh secrets name t ≡ (t, inl e))
    unfolding load_or_generate load_from generate_and_persist text_beq
    load_or_generate-no_private t sec e h = elim (Bool-cases (sec.ssh_publickey == [])) [
      | inl y ↦ rw (e, h, y) (persist_exists t sec _ e)
      | inr n ↦ rw (e, h, n) (no_private, refl)
    ]
