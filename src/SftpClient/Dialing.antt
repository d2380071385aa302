-- ===== src/SftpClient/Dialing.antt =====
-- internal/sftpclient/client.go: NewClient, Dial and Session.Close. The SSH library and its SFTP
-- client are parameters, on connections (N), SFTP clients (F), signers (S) and public keys (P);
-- `none` is an error of theirs. What the helper closes is kept as a list, in order.
pub mod Accounting
use kasten_frs_web.Base.{
  nat_eq, text_eq, ◌⊎◌, inl, inr, ℕ, not, Option, none, some, List, [], ◌∷◌, ◌++◌, if◌then◌else◌,
  ◌==◌, Str,
}
use kasten_frs_web.Base.Int.{ℤ}
use kasten_frs_web.SftpClient.HostKey.{SigError, parse_host_key_signature}
use kasten_frs_web.SftpClient.Pool.{close}

pub record ClientConfig (S : Type 0) : Type 0 where
  pub username : Str
  pub signer : Option S
  pub host_key_sig : Str
  pub connect_timeout : ℤ

pub record SftpDialer (S : Type 0) : Type 0 where
  pub username : Str
  pub signer : S
  pub timeout : ℤ

pub data ConfigError : Type 0 where
  no_signer : ConfigError
  no_username : ConfigError
  bad_host_key_sig : SigError → ConfigError

-- ssh.ClientConfig, its callback being ssh.FixedHostKey of a key.
pub record SshConfig (S P : Type 0) : Type 0 where
  pub user : Str
  pub auth : S
  pub fixed_host_key : P
  pub timeout : ℤ

pub data DialError : Type 0 where
  bad_key : SigError → DialError
  ssh_failed : DialError
  sftp_failed : DialError

-- Session: the SFTP client over the SSH connection.
pub record Live (N F : Type 0) : Type 0 where
  pub sftp : Option F
  pub ssh : Option N
  pub chroot_depth : ℕ

pub data Closing (N F : Type 0) : Type 0 where
  sftp_closed : F → Closing N F
  ssh_closed : N → Closing N F

pub data CloseResult : Type 0 where
  closed_well : CloseResult
  close_error : CloseResult

module _ {S P : Type 0} (parse_authorized_key : Str → Option P) where
  unfoldable pub sig_checked : ClientConfig S → S → SigError ⊎ P → ConfigError ⊎ SftpDialer S
  sig_checked cfg signer (inl e) = inl (bad_host_key_sig e)
  sig_checked cfg signer (inr key) =
      inr (record { username = cfg.username; signer = signer; timeout = cfg.connect_timeout })

  unfoldable pub signer_checked : ClientConfig S → Option S → ConfigError ⊎ SftpDialer S
  signer_checked cfg none = inl no_signer
  signer_checked cfg (some signer) =
      if cfg.username == []
      then inl no_username
      else if not (cfg.host_key_sig == [])
      then sig_checked cfg signer (parse_host_key_signature parse_authorized_key cfg.host_key_sig)
      else inr (record { username = cfg.username; signer = signer; timeout = cfg.connect_timeout })

  -- NewClient
  unfoldable pub new_sftp_client : ClientConfig S → ConfigError ⊎ SftpDialer S
  new_sftp_client cfg = signer_checked cfg cfg.signer

module _ {N F : Type 0} where
  -- What the SFTP library gave for a connection: a failure closes the connection.
  unfoldable pub sftp_opened : N → Option F → (DialError ⊎ Live N F) × List (Closing N F)
  sftp_opened conn none = (inl sftp_failed, ssh_closed conn ∷ [])
  sftp_opened conn (some f) =
      (inr (record { sftp = some f; ssh = some conn; chroot_depth = 0 }), [])

  unfoldable pub ssh_dialled :
      (N → Option F) → Option N → (DialError ⊎ Live N F) × List (Closing N F)
  ssh_dialled new_sftp none = (inl ssh_failed, [])
  ssh_dialled new_sftp (some conn) = sftp_opened conn (new_sftp conn)

  -- The error is that of the SSH connection; that of the SFTP client is dropped.
  unfoldable pub close_ssh : (N → CloseResult) → Option N → List (Closing N F) × CloseResult
  close_ssh close none = ([], closed_well)
  close_ssh close (some conn) = (ssh_closed conn ∷ [], close conn)

  unfoldable pub close_sftp : Option F → List (Closing N F)
  close_sftp none = []
  close_sftp (some f) = sftp_closed f ∷ []

  -- Session.Close; `none` is a nil session.
  unfoldable pub close_session :
      (N → CloseResult) → Option (Live N F) → List (Closing N F) × CloseResult
  close_session close none = ([], closed_well)
  close_session close (some s) =
      let (closings, result) = close_ssh close s.ssh in (close_sftp s.sftp ++ closings, result)

module _ {S P N F : Type 0} (parse_authorized_key : Str → Option P)
    (ssh_dial : Str → SshConfig S P → Option N) (new_sftp : N → Option F) where
  abbrev pub ssh_config : SftpDialer S → P → SshConfig S P
  ssh_config c key = record {
    user = c.username;
    auth = c.signer;
    fixed_host_key = key;
    timeout = c.timeout;
  }

  unfoldable pub dial_with :
      SftpDialer S → Str → SigError ⊎ P → (DialError ⊎ Live N F) × List (Closing N F)
  dial_with c addr (inl e) = (inl (bad_key e), [])
  dial_with c addr (inr key) = ssh_dialled new_sftp (ssh_dial addr (ssh_config c key))

  -- Dial
  unfoldable pub dial : SftpDialer S → Str → Str → (DialError ⊎ Live N F) × List (Closing N F)
  dial c addr host_key_sig =
      dial_with c addr (parse_host_key_signature parse_authorized_key host_key_sig)
