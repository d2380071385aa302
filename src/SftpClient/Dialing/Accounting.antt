-- ===== src/SftpClient/Dialing/Accounting.antt =====
-- Every connection that Dial makes ends up in the session or is closed.
use kasten_frs_web.Base.{
  nat_eq, text_eq, ◌⊎◌, inl, inr, ◌≡◌, refl, ◌≢◌, Option, none, some, List, [], ◌∷◌, Str,
}
use kasten_frs_web.SftpClient.Dialing.{
  SftpDialer, SshConfig, DialError, sftp_failed, Live, Closing, ssh_closed, sftp_opened,
  ssh_dialled, ssh_config, dial_with, dial,
}
use kasten_frs_web.SftpClient.HostKey.{SigError, parse_host_key_signature}

module _ {S P N F : Type 0} (parse_authorized_key : Str → Option P)
    (ssh_dial : Str → SshConfig S P → Option N) (new_sftp : N → Option F) where
  -- Where a dial ends: a session over a connection that was made with the host key of the
  -- signature, nothing of it closed; or an error, and every connection made is closed.
  pub Accounts : SftpDialer S → Str → Str → (DialError ⊎ Live N F) → List (Closing N F) → Type 0
  Accounts c addr sig (inr s) closings =
      (key : P) × (conn : N) × (f : F) × (parse_host_key_signature parse_authorized_key sig
        ≡ inr key)
      × (ssh_dial addr (ssh_config parse_authorized_key ssh_dial new_sftp c key) ≡ some conn)
      × (new_sftp conn ≡ some f)
      × (s ≡ record { sftp = some f; ssh = some conn; chroot_depth = 0 })
      × (closings ≡ [])
  Accounts c addr sig (inl e) closings =
      ((e ≢ sftp_failed)
        × (closings ≡ [])
        × ((key : P)
            → parse_host_key_signature parse_authorized_key sig ≡ inr key
            → ssh_dial addr (ssh_config parse_authorized_key ssh_dial new_sftp c key) ≡ none))
      ⊎ ((key : P) × (conn : N) × (parse_host_key_signature parse_authorized_key sig ≡ inr key)
          × (ssh_dial addr (ssh_config parse_authorized_key ssh_dial new_sftp c key) ≡ some conn)
          × (closings ≡ ssh_closed conn ∷ []))

  opened :
      (c : SftpDialer S) (addr sig : Str) (key : P) (conn : N) (o : Option F)
      → parse_host_key_signature parse_authorized_key sig ≡ inr key
      → ssh_dial addr (ssh_config parse_authorized_key ssh_dial new_sftp c key) ≡ some conn
      → new_sftp conn ≡ o
      → Accounts c addr sig (sftp_opened conn o).0 (sftp_opened conn o).1
  unfolding Accounts sftp_opened
  opened c addr sig key conn none p d o = inr (key, conn, p, d, refl)
  opened c addr sig key conn (some f) p d o = (key, conn, f, p, d, o, refl, refl)

  dialled :
      (c : SftpDialer S) (addr sig : Str) (key : P) (o : Option N)
      → parse_host_key_signature parse_authorized_key sig ≡ inr key
      → ssh_dial addr (ssh_config parse_authorized_key ssh_dial new_sftp c key) ≡ o
      → Accounts c addr sig (ssh_dialled new_sftp o).0 (ssh_dialled new_sftp o).1
  unfolding Accounts ssh_dialled
  dialled c addr sig key none p d = inl (λ e. cc, refl, λ k q. cc)
  dialled c addr sig key (some conn) p d = opened c addr sig key conn _ p d refl

  parsed :
      (c : SftpDialer S) (addr sig : Str) (r : SigError ⊎ P)
      → parse_host_key_signature parse_authorized_key sig ≡ r
      → Accounts c addr sig
          (dial_with parse_authorized_key ssh_dial new_sftp c addr r).0
          (dial_with parse_authorized_key ssh_dial new_sftp c addr r).1
  unfolding Accounts dial_with
  parsed c addr sig (inl e) p = inl (λ x. cc, refl, λ k q. cc)
  parsed c addr sig (inr key) p = dialled c addr sig key _ p refl

  -- Where Dial ends, there is a session over a connection that was made with the host key of the
  -- signature as the only one accepted, and nothing was closed; or there is an error, and every
  -- connection that was made is closed.
  pub dial-Accounts :
      (c : SftpDialer S) (addr sig : Str)
      → Accounts c addr sig
          (dial parse_authorized_key ssh_dial new_sftp c addr sig).0
          (dial parse_authorized_key ssh_dial new_sftp c addr sig).1
  unfolding dial
  dial-Accounts c addr sig = parsed c addr sig _ refl
