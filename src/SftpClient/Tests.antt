-- ===== src/SftpClient/Tests.antt =====
-- Runs of the SFTP client on a small server: it has the directory /Users, with a file and a link
-- "Public" to /C/Users/All, and the directory /Users/All.
use kasten_frs_web.Base.{
  ℕ, ◌+◌, ◌^◌, ◌≤◌, ◌≡◌, refl, ◌↔◌, ◌⊎◌, true, Option, none, some, List, [], ◌∷◌, if◌then◌else◌, ok,
  ◌==◌, text_beq, Str, str, nat_eq, text_eq, any, inr,
}
use kasten_frs_web.Base.Int.{pos}
use kasten_frs_web.SftpClient.{FileInfo, SftpServer, Session, probe, counting}
use kasten_frs_web.SftpClient.Chroot.{target_parts, discover, resolve_absolute_target}
use kasten_frs_web.SftpClient.Chroot.Cost.{reads}
use kasten_frs_web.SftpClient.Chroot.Outcome.{Outcome, resolve_absolute_target-Outcome}
use kasten_frs_web.SftpClient.Chroot.Safety.{validate_path-resolve_absolute_target}
use kasten_frs_web.SftpClient.Dialing.{SftpDialer, SshConfig, dial}
use kasten_frs_web.SftpClient.Dialing.Accounting.{Accounts, dial-Accounts}
use kasten_frs_web.SftpClient.HostKey.{parse_host_key_signature}
use kasten_frs_web.SftpClient.HostKey.Parsed.{
  signature_text, parse_host_key_signature-signature_text,
}
use kasten_frs_web.SftpClient.Junctions.{ancestor_walk_resolve}
use kasten_frs_web.SftpClient.Junctions.Walk.{
  Found, ancestor_walk_resolve-Found, ancestor_walk_resolve-reads,
}
use kasten_frs_web.SftpClient.Listing.{
  has_bit, plain, with_dir, resolve_by_target, read_link, resolve_symlink, list_entry, list_entries,
  list_dir,
}
use kasten_frs_web.SftpClient.Listing.Entries.{Sources}
use kasten_frs_web.SftpClient.Listing.Provenance.{list_dir-Sources}
use kasten_frs_web.SftpClient.Validate.{parent_segment, validate_path}
use kasten_frs_web.SftpClient.Validate.Meaning.{IsValidPath, validate_path_iff}
use kasten_frs_web.Std.Paths.{resolve, resolve_all, clean, join_path}
use kasten_frs_web.Std.Strconv.{parse_digits, parse_nat, parse_int}
use kasten_frs_web.Std.Strings.{split, join, has_prefix, is_space}

abbrev link : FileInfo
link = record { name = str "Public"; size = pos 0; mode = 2 ^ 27; mod_time = 5 }

abbrev text : FileInfo
text = record { name = str "a.txt"; size = pos 3; mode = 420; mod_time = 4 }

abbrev served : Str → Option (List FileInfo)
served p =
    if p == str "/Users"
    then some (text ∷ link ∷ [])
    else if p == str "/Users/All"
    then some []
    else none

abbrev small : SftpServer Unit
small = record {
  read_dir = λ p w. (served p, w);
  read_link = λ p w. (if p == str "/Users/Public" then some (str "/C/Users/All") else none, w);
  stat = λ p w. (none, w);
  read_file = λ p w. (none, w);
}

abbrev fresh : Session Unit
fresh = record { chroot_depth = 0; world = tt }

abbrev counted : Session (Unit × ℕ)
counted = record { chroot_depth = 1; world = (tt, 0) }

abbrev target : Str
target = str "/C/Users/All"

resolves : (resolve_absolute_target small target fresh).0 ≡ str "/Users/All"
unfolding resolve_absolute_target discover probe split join clean resolve_all resolve text_beq
resolves = refl

lists :
    (list_dir small (str "/Users") fresh).0
    ≡ ok (plain text ∷ with_dir link true (str "/Users/All") ∷ [])
unfolding list_dir list_entries list_entry resolve_symlink read_link resolve_by_target validate_path
    resolve_absolute_target discover probe split join clean resolve_all resolve text_beq has_prefix
    has_bit join_path any
lists = refl

validate_path_iff_example : (validate_path (str "/a/../b") ≡ none) ↔ IsValidPath (str "/a/../b")
validate_path_iff_example = validate_path_iff (str "/a/../b")

refused : validate_path (str "/a/../b") ≡ some parent_segment
unfolding validate_path split has_prefix text_beq any
refused = refl

validate_path-resolve_absolute_target_example :
    validate_path (resolve_absolute_target small target fresh).0 ≡ none
validate_path-resolve_absolute_target_example =
    validate_path-resolve_absolute_target small target fresh refl (λ e. cc resolves)

list_dir-Sources_example :
    (infos : List FileInfo) × (validate_path (str "/Users") ≡ none)
    × ((small.read_dir (str "/Users") tt).0 ≡ some infos)
    × Sources small (str "/Users") infos (plain text ∷ with_dir link true (str "/Users/All") ∷ [])
list_dir-Sources_example =
    list_dir-Sources small (str "/Users") fresh
      (plain text ∷ with_dir link true (str "/Users/All") ∷ []) lists

resolve_absolute_target-Outcome_example :
    Outcome small (target_parts target) (resolve_absolute_target small target fresh)
resolve_absolute_target-Outcome_example = resolve_absolute_target-Outcome small target fresh

ancestor_walk_resolve-Found_example :
    ((ancestor_walk_resolve small (str "/Users/x") (str "All") fresh).0.0 ≡ [])
    ⊎ Found small (ancestor_walk_resolve small (str "/Users/x") (str "All") fresh)
ancestor_walk_resolve-Found_example =
    ancestor_walk_resolve-Found small (str "/Users/x") (str "All") fresh refl (λ e. cc)

ancestor_walk_resolve-reads_example :
    reads (ancestor_walk_resolve (counting small) (str "/Users/x") (str "All") counted).1
    ≤ reads counted + 5
ancestor_walk_resolve-reads_example =
    ancestor_walk_resolve-reads small (str "/Users/x") (str "All") counted

-- A key that is its own text.
abbrev text_key : Str → Option Str
text_key s = some s

parse_host_key_signature-signature_text_example :
    parse_host_key_signature text_key (signature_text (str "h") (str "22") (str "ed") (str "AA"))
    ≡ inr (str "ed AA")
unfolding is_space parse_int parse_nat parse_digits
parse_host_key_signature-signature_text_example =
    parse_host_key_signature-signature_text text_key (str "h") (str "22") (str "ed") (str "AA")
      (pos 22) (refl, tt) (refl, (refl, tt)) refl (λ e. cc, (refl, (refl, tt)))
      (λ e. cc, (refl, (refl, tt)))

-- A server that can be dialled, but does not speak SFTP.
abbrev dialled_by : Str → SshConfig Str Str → Option ℕ
dialled_by addr cfg = some 7

abbrev no_sftp : ℕ → Option ℕ
no_sftp conn = none

abbrev root_dialer : SftpDialer Str
root_dialer = record { username = str "root"; signer = str "key"; timeout = pos 0 }

abbrev root_sig : Str
root_sig = str "[10.0.0.1:2222] ssh-ed25519 AAAA"

dial-Accounts_example :
    Accounts text_key dialled_by no_sftp root_dialer
      (str "a:1")
      root_sig
      (dial text_key dialled_by no_sftp root_dialer (str "a:1") root_sig).0
      (dial text_key dialled_by no_sftp root_dialer (str "a:1") root_sig).1
dial-Accounts_example = dial-Accounts text_key dialled_by no_sftp root_dialer (str "a:1") root_sig
