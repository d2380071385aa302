-- ===== src/SftpClient/Listing/Bits.antt =====
-- The mode word of fileInfoWithDir agrees with its IsDir, and keeps the symlink bit.
use kasten_frs_web.Base.{ℕ, ◌≡◌, refl, true, false, arith}
use kasten_frs_web.SftpClient.Listing.{
  mode_dir, mode_symlink, has_bit, set_bit, clear_bit, Entry, plain, with_dir, entry_info,
  entry_is_dir, entry_mode,
}

pub set_bit-has_bit_dir : (m : ℕ) → has_bit mode_dir (set_bit mode_dir m) ≡ true
unfolding set_bit
set_bit-has_bit_dir m = ground arith

-- The directory bit of the mode of an entry is what its IsDir says, for a resolved link too.
pub entry_mode-is_dir : (e : Entry) → has_bit mode_dir (entry_mode e) ≡ entry_is_dir e
unfolding entry_mode entry_is_dir has_bit set_bit clear_bit
entry_mode-is_dir (plain info) = refl
entry_mode-is_dir (with_dir info true resolved) = ground arith
entry_mode-is_dir (with_dir info false resolved) = ground arith

pub entry_mode-symlink :
    (e : Entry) → has_bit mode_symlink (entry_mode e) ≡ has_bit mode_symlink (entry_info e).mode
unfolding entry_mode has_bit set_bit clear_bit
entry_mode-symlink (plain info) = refl
entry_mode-symlink (with_dir info true resolved) = ground arith
entry_mode-symlink (with_dir info false resolved) = ground arith
