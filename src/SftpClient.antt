-- ===== src/SftpClient.antt =====
-- internal/sftpclient/client.go: what the helper knows of an SFTP server and of a session with it.
pub mod Validate
pub mod Chroot
pub mod Junctions
pub mod Listing
pub mod Pool
pub mod HostKey
pub mod Dialing
pub mod TestServer
mod Tests
use kasten_frs_web.Base.{ℕ, ◌+◌, Bool, true, false, Option, none, some, List, Str}
use kasten_frs_web.Base.Int.{ℤ}

-- os.FileInfo as the SFTP library hands it out. `mode` is the os.FileMode word.
pub record FileInfo : Type 0 where
  pub name : Str
  pub size : ℤ
  pub mode : ℕ
  pub mod_time : ℕ

-- The SFTP library's client and the server behind it, over a state of theirs that the helper cannot
-- see: each request may change it, so two requests for one path may be answered differently.
-- `none` is an error.
pub record SftpServer (W : Type 0) : Type 0 where
  pub read_dir : Str → W → Option (List FileInfo) × W
  pub read_link : Str → W → Option Str × W
  pub stat : Str → W → Option FileInfo × W
  pub read_file : Str → W → Option Str × W

-- A live session: the chroot depth that was learned (0: none yet), and the server's state.
pub record Session (W : Type 0) : Type 0 where
  pub chroot_depth : ℕ
  pub world : W

abbrev pub succeeded {ℓ} : {A : Type ℓ} → Option A → Bool
succeeded none = false
succeeded (some a) = true

module _ {W : Type 0} (srv : SftpServer W) where
  -- `_, err := s.sftp.ReadDir(p)`, of which only the success is read.
  unfoldable pub probe : Str → Session W → Bool × Session W
  probe p s = let (answer, w) = srv.read_dir p s.world in (succeeded answer, record s { world = w })

-- The same server, with a count of the directory reads beside its state.
pub counting : {W : Type 0} → SftpServer W → SftpServer (W × ℕ)
counting srv = record {
  read_dir = λ p (w, n). ((srv.read_dir p w).0, ((srv.read_dir p w).1, n + 1));
  read_link = λ p (w, n). ((srv.read_link p w).0, ((srv.read_link p w).1, n));
  stat = λ p (w, n). ((srv.stat p w).0, ((srv.stat p w).1, n));
  read_file = λ p (w, n). ((srv.read_file p w).0, ((srv.read_file p w).1, n));
}
