-- ===== src/SftpClient/Pool/Conservation.antt =====
-- No pool operation loses a session or closes one twice, but for `store`, which see.
use kasten_frs_web.Base.{
  ℕ, ◌+◌, ◌≡◌, Bool, not, none, some, List, [], ◌∷◌, ◌++◌, arith, if◌then◌else◌, ◌==◌, lookup,
  retain, erase, Unique, nat_eq, text_eq, refl, subst, ◌≢◌, inl, inr, Option, Bool-cases, All,
  insert, lookup_absent,
}
use kasten_frs_web.SftpClient.Pool.{
  key_eq, SessionKey, Handle, PoolEntry, Entries, Pool, handles, drop_entries, key_beq_iff,
  is_expired, store, get_found, get, close_found, close,
}

-- How often a handle stands in a list.
unfoldable pub count : Handle → List Handle → ℕ
count h [] = 0
count h (x ∷ xs) = (if x == h then 1 else 0) + count h xs

pub count-append : (h : Handle) (xs ys : List Handle) → count h (xs ++ ys) ≡ count h xs + count h ys
unfolding count
count-append h [] ys = omega arith
count-append h (x ∷ xs) ys = omega (arith, count-append h xs ys)

-- How often a session is pooled or has been closed.
abbrev pub total : Handle → Pool → ℕ
total h p = count h (handles p.entries) + count h p.closed

pub count-retain :
    (h : Handle) (test : SessionKey → PoolEntry → Bool) (m : Entries)
    → count h (handles (retain (λ k e. not (test k e)) m)) + count h (handles (retain test m))
      ≡ count h (handles m)
unfolding count retain
count-retain h test [] = omega arith
count-retain h test ((k, e) ∷ m) = ground (arith, count-retain h test m)

pub total-drop_entries :
    (h : Handle) (test : SessionKey → PoolEntry → Bool) (p : Pool)
    → total h (drop_entries test p) ≡ total h p
unfolding drop_entries
total-drop_entries h test p = omega (
  arith,
  count-append h (handles (retain test p.entries)) p.closed,
  count-retain h test p.entries,
)

count-erase_absent :
    (h : Handle) (key : SessionKey) (m : Entries)
    → lookup key m ≡ none
    → count h (handles (erase key m)) ≡ count h (handles m)
unfolding count lookup erase retain
count-erase_absent h key [] found = refl
count-erase_absent h key ((k, e) ∷ m) found = ground (arith, count-erase_absent h key m)

-- Taking the entry of a key out of a map without doubles takes out its session, once.
pub count-erase :
    (h : Handle) (key : SessionKey) (e : PoolEntry) (m : Entries)
    → Unique m
    → lookup key m ≡ some e
    → count h (handles (erase key m)) + (if e.sess == h then 1 else 0) ≡ count h (handles m)
unfolding count lookup erase retain
count-erase h key e [] u found = cc
count-erase h key e ((k, x) ∷ m) u found = elim (Bool-cases (k == key)) [
  | inr n ↦ ground (arith, count-erase h key e m u.1)
  | inl y ↦ ground (
    arith,
    count-erase_absent h key m
        (lookup_absent key m (subst (λ i. All (λ j. j.0 ≢ i) m) ((key_beq_iff k key).0 y) u.0)),
  )
]

insert_absent :
    (h : Handle) (key : SessionKey) (e : PoolEntry) (m : Entries)
    → lookup key m ≡ none
    → count h (handles (insert key e m)) ≡ (if e.sess == h then 1 else 0) + count h (handles m)
unfolding insert count
insert_absent h key e m found = omega (arith, count-erase_absent h key m found)

-- `store` under a new key adds the session, and nothing else changes hands.
pub total-store :
    (h : Handle) (key : SessionKey) (sess : Handle) (now : ℕ) (p : Pool)
    → lookup key p.entries ≡ none
    → total h (store key sess now p) ≡ (if sess == h then 1 else 0) + total h p
unfolding store
total-store h key sess now p found =
    omega (arith, insert_absent h key (record { sess = sess; last_used_at = now }) p.entries found)

get_found-total :
    (h : Handle) (key : SessionKey) (now : ℕ) (p : Pool) (o : Option PoolEntry)
    → Unique p.entries
    → lookup key p.entries ≡ o
    → total h (get_found key now p o).1 ≡ total h p
unfolding get_found count insert
get_found-total h key now p none u found = refl
get_found-total h key now p (some e) u found = elim (Bool-cases (is_expired p.ttl now e)) [
  | inl x ↦ rw x (omega (arith, count-erase h key e p.entries u found))
  | inr x ↦ rw x (omega (arith, count-erase h key e p.entries u found))
]

-- Get loses no session: each is pooled or closed afterwards as many times as before, the pool
-- having one entry for a key.
pub total-get :
    (h : Handle) (key : SessionKey) (now : ℕ) (p : Pool)
    → Unique p.entries
    → total h (get key now p).1 ≡ total h p
unfolding get
total-get h key now p u = get_found-total h key now p (lookup key p.entries) u refl

close_found-total :
    (h : Handle) (key : SessionKey) (p : Pool) (o : Option PoolEntry)
    → Unique p.entries
    → lookup key p.entries ≡ o
    → total h (close_found key p o) ≡ total h p
unfolding close_found count
close_found-total h key p none u found = refl
close_found-total h key p (some e) u found = omega (arith, count-erase h key e p.entries u found)

pub total-close :
    (h : Handle) (key : SessionKey) (p : Pool)
    → Unique p.entries
    → total h (close key p) ≡ total h p
unfolding close
total-close h key p u = close_found-total h key p (lookup key p.entries) u refl
