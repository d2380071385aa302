-- ===== src/SftpClient/TestServer/Paging.antt =====
-- How a directory's entries come out of the lister.
use kasten_frs_web.Base.{
  ℕ, ◌+◌, ◌≡◌, refl, true, false, List, [], ◌∷◌, ◌++◌, if◌then◌else◌, length, take, inl, inr,
  append-nil, ltb, Bool-cases,
}
use kasten_frs_web.SftpClient.{FileInfo}
use kasten_frs_web.SftpClient.TestServer.{DirLister, list_at}

-- A client's reading of a directory: calls with room for some entries each, at the offset of what was
-- read before, up to io.EOF.
unfoldable pub read_all : List ℕ → ℕ → DirLister → List FileInfo
read_all [] offset l = []
read_all (room ∷ rooms) offset l =
    let ((copied, ended), l') = list_at room offset l in
    let later = read_all rooms (offset + length copied) l' in
    if ended then copied else copied ++ later

read_all_closed :
    (rooms : List ℕ) (offset : ℕ) (l : DirLister) → l.closed ≡ true → read_all rooms offset l ≡ []
unfolding read_all list_at
read_all_closed [] offset l h = refl
read_all_closed (room ∷ rooms) offset l h = rw h refl

list_at_first :
    (room : ℕ) (l : DirLister)
    → l.closed ≡ false
    → list_at room 0 l
      ≡ ((take room l.entries, ltb (length (take room l.entries)) room), record l { closed = true })
unfolding list_at
list_at_first room l h = rw h refl

-- A client that reads a directory gets the entries that its first call has room for, and no others,
-- however often it asks: what is over is lost, and the client is told of the end.
pub read_all-first :
    (room : ℕ) (rooms : List ℕ) (l : DirLister)
    → l.closed ≡ false
    → read_all (room ∷ rooms) 0 l ≡ take room l.entries
unfolding read_all
read_all-first room rooms l h =
    let cut = length (take room l.entries) in
    elim (Bool-cases (ltb cut room)) [
      | inl e ↦ rw (list_at_first room l h, e) refl
      | inr e ↦
          rw (list_at_first room l h, e)
            (rw (read_all_closed rooms (0 + cut) (record l { closed = true }) refl)
              (append-nil (take room l.entries)))
    ]
