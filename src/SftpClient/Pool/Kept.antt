-- ===== src/SftpClient/Pool/Kept.antt =====
-- What holds of every entry of the pool is kept by the operations that only take entries out or renew
-- them.
use kasten_frs_web.Base.{
  ℕ, ◌≡◌, refl, subst, inl, inr, Option, none, some, Bool-cases, Str, All, retain-All, lookup,
  erase, insert, All-lookup,
}
use kasten_frs_web.SftpClient.Pool.{
  key_eq, SessionKey, Handle, PoolEntry, Pool, is_expired, store, get_found, get, drop_entries,
  close_all_for_frs,
}
use kasten_frs_web.SftpClient.Pool.Lookup.{get-hit}

module _ {κ} (P : SessionKey → Handle → Type κ) where
  abbrev pub AllPooled : Pool → Type κ
  AllPooled p = All (λ j. P j.0 j.1.sess) p.entries

  pub store-AllPooled :
      (key : SessionKey) (sess : Handle) (now : ℕ) (p : Pool)
      → P key sess
      → AllPooled p
      → AllPooled (store key sess now p)
  unfolding store insert erase
  store-AllPooled key sess now p x h = (x, retain-All _ _ p.entries h)

  get_found-AllPooled :
      (key : SessionKey) (now : ℕ) (p : Pool) (o : Option PoolEntry)
      → lookup key p.entries ≡ o
      → AllPooled p
      → AllPooled (get_found key now p o).1
  unfolding get_found insert erase
  get_found-AllPooled key now p none e h = h
  get_found-AllPooled key now p (some x) e h = elim (Bool-cases (is_expired p.ttl now x)) [
    | inl y ↦ rw y (retain-All _ _ p.entries h)
    | inr n ↦
        rw n (All-lookup (λ j. P j.0 j.1.sess) key x p.entries h e, retain-All _ _ p.entries h)
  ]

  pub get-AllPooled :
      (key : SessionKey) (now : ℕ) (p : Pool) → AllPooled p → AllPooled (get key now p).1
  unfolding get
  get-AllPooled key now p h = get_found-AllPooled key now p _ refl h

  pub close_all_for_frs-AllPooled :
      (ns name : Str) (p : Pool) → AllPooled p → AllPooled (close_all_for_frs ns name p)
  unfolding close_all_for_frs drop_entries
  close_all_for_frs-AllPooled ns name p h = retain-All _ _ p.entries h

  -- A session that Get hands out is that of an entry under its key.
  pub get-pooled :
      (key : SessionKey) (now : ℕ) (sess : Handle) (p : Pool)
      → AllPooled p
      → (get key now p).0 ≡ some sess
      → P key sess
  get-pooled key now sess p h e =
      let (x, found, same, live) = (get-hit key now p sess e).0 in
      subst (P key) same (All-lookup (λ j. P j.0 j.1.sess) key x p.entries h found)
