-- ===== src/SftpClient/Pool/Lookup.antt =====
-- What the pool holds after each operation, seen through lookups.
use kasten_frs_web.Base.{
  text_eq, ℕ, ◌≡◌, refl, ◌∙◌, inl, inr, Bool, false, not, ◌&&◌, Option, none, some, ◌∷◌, arith,
  if◌then◌else◌, Bool-cases, ◌==◌, eq_refl, Str, filter_found, Unique, retain-Unique, lookup,
  insert-Unique, lookup-retain, lookup-insert, erase-Unique, ap, insert, some_eq,
}
use kasten_frs_web.Base.Int.{sub_ℕ, ltb_ℤ}
use kasten_frs_web.SftpClient.Pool.{
  key_eq, SessionKey, Handle, PoolEntry, Pool, is_expired, store, get_found, get, close_found,
  close, drop_entries, sweep, close_all_for_frs,
}

pub get_found-Unique :
    (key : SessionKey) (now : ℕ) (p : Pool) (o : Option PoolEntry)
    → Unique p.entries
    → Unique (get_found key now p o).1.entries
unfolding get_found
get_found-Unique key now p none u = u
get_found-Unique key now p (some e) u = elim (Bool-cases (is_expired p.ttl now e)) [
  | inl x ↦ rw x (erase-Unique key p.entries u)
  | inr x ↦ rw x (insert-Unique key _ p.entries u)
]

close_found-Unique :
    (key : SessionKey) (p : Pool) (o : Option PoolEntry)
    → Unique p.entries
    → Unique (close_found key p o).entries
unfolding close_found
close_found-Unique key p none u = u
close_found-Unique key p (some e) u = erase-Unique key p.entries u

pub get-Unique :
    (key : SessionKey) (now : ℕ) (p : Pool) → Unique p.entries → Unique (get key now p).1.entries
unfolding get
get-Unique key now p u = get_found-Unique key now p _ u

pub close-Unique : (key : SessionKey) (p : Pool) → Unique p.entries → Unique (close key p).entries
unfolding close
close-Unique key p u = close_found-Unique key p _ u

pub store-Unique :
    (key : SessionKey) (sess : Handle) (now : ℕ) (p : Pool)
    → Unique p.entries
    → Unique (store key sess now p).entries
unfolding store
store-Unique key sess now p u = insert-Unique key _ p.entries u

pub drop_entries-Unique :
    (test : SessionKey → PoolEntry → Bool) (p : Pool)
    → Unique p.entries
    → Unique (drop_entries test p).entries
unfolding drop_entries
drop_entries-Unique test p u = retain-Unique _ p.entries u

-- A stored session is served under its key until it has been idle for longer than the ttl, and
-- from then on it is closed and gone.
pub get-store :
    (key : SessionKey) (sess : Handle) (stored now : ℕ) (p : Pool)
    → let q = store key sess stored p in
      let idle_too_long = ltb_ℤ p.ttl (sub_ℕ now stored) in
      ((get key now q).0 ≡ (if idle_too_long then none else some sess))
      × ((get key now q).1.closed ≡ (if idle_too_long then sess ∷ p.closed else p.closed))
unfolding get get_found store is_expired
get-store key sess stored now p =
    rw
      (lookup-insert key key (record { sess = sess; last_used_at = stored }) p.entries, eq_refl key)
      (ground arith)

abbrev used : Handle → ℕ → PoolEntry
used sess now = record { sess = sess; last_used_at = now }

get_found-hit :
    (key : SessionKey) (now : ℕ) (p : Pool) (sess : Handle) (o : Option PoolEntry)
    → (get_found key now p o).0 ≡ some sess
    → (e : PoolEntry) × (o ≡ some e)
      × (e.sess ≡ sess)
      × (is_expired p.ttl now e ≡ false)
      × ((get_found key now p o).1.entries ≡ insert key (used sess now) p.entries)
unfolding get_found
get_found-hit key now p sess none r = cc
get_found-hit key now p sess (some e) r = elim (Bool-cases (is_expired p.ttl now e)) [
  | inl x ↦ cc (rw (x, get_found) at r)
  | inr x ↦
      let same : e.sess ≡ sess = some_eq (rw (x, get_found) at r) in
      (e, refl, same, x, rw x (ap (λ h. insert key (used h now) p.entries) same))
]

-- A hit is an entry of that key which has not expired; it is kept with the present time as its
-- time of use, and no other key is touched.
pub get-hit :
    (key : SessionKey) (now : ℕ) (p : Pool) (sess : Handle)
    → (get key now p).0 ≡ some sess
    → ((e : PoolEntry) × (lookup key p.entries ≡ some e)
        × (e.sess ≡ sess)
        × (is_expired p.ttl now e ≡ false))
      × ((k : SessionKey)
          → lookup k (get key now p).1.entries ≡ (
              if key == k
              then some (record { sess = sess; last_used_at = now })
              else lookup k p.entries))
unfolding get
get-hit key now p sess h =
    let (e, found, same, live, kept) = get_found-hit key now p sess (lookup key p.entries) h in
    ((e, found, same, live), λ k. rw kept (lookup-insert k key (used sess now) p.entries))

-- A sweep keeps exactly the entries that have not expired.
pub lookup-sweep :
    (key : SessionKey) (now : ℕ) (p : Pool)
    → Unique p.entries
    → lookup key (sweep now p).entries
      ≡ filter_found (λ e. not (is_expired p.ttl now e)) (lookup key p.entries)
unfolding sweep drop_entries
lookup-sweep key now p u = lookup-retain key _ p.entries u

get_found-filtered :
    (key : SessionKey) (now : ℕ) (p : Pool) (o : Option PoolEntry)
    → (get_found key now (sweep now p) (filter_found (λ e. not (is_expired p.ttl now e)) o)).0
      ≡ (get_found key now p o).0
unfolding get_found sweep drop_entries
get_found-filtered key now p none = refl
get_found-filtered key now p (some e) = elim (Bool-cases (is_expired p.ttl now e)) [
  | inl x ↦ rw x
  | inr x ↦ rw x (rw x refl)
]

-- Sweeping first changes the answer of no lookup at that time, the pool having one entry for a
-- key.
pub get-sweep :
    (key : SessionKey) (now : ℕ) (p : Pool)
    → Unique p.entries
    → (get key now (sweep now p)).0 ≡ (get key now p).0
unfolding get
get-sweep key now p u =
    rw (lookup-sweep key now p u) (get_found-filtered key now p (lookup key p.entries))

-- CloseAllForFRS takes out the entries of that FRS, for every user, and no others, the pool having
-- one entry for a key.
pub lookup-close_all_for_frs :
    (key : SessionKey) (ns name : Str) (p : Pool)
    → Unique p.entries
    → lookup key (close_all_for_frs ns name p).entries
      ≡ (if key.frs.namespace == ns && key.frs.name == name then none else lookup key p.entries)
unfolding close_all_for_frs drop_entries
lookup-close_all_for_frs key ns name p u = lookup-retain key _ p.entries u ∙ ground arith
