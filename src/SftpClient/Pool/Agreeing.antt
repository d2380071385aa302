-- ===== src/SftpClient/Pool/Agreeing.antt =====
-- Two pools that hold the same under some keys: the operations answer alike and keep it so.
use kasten_frs_web.Base.{
  ℕ, ◌≡◌, refl, sym, ◌∙◌, inl, inr, Option, none, some, Bool-cases, Str, Unique, lookup,
  insert-Unique, lookup-erase, lookup-insert, erase-Unique, subst, true, false,
}
use kasten_frs_web.SftpClient.Pool.{
  key_eq, SessionKey, Handle, PoolEntry, Pool, is_expired, store, get_found, get, drop_entries,
  close_all_for_frs,
}
use kasten_frs_web.SftpClient.Pool.Lookup.{drop_entries-Unique, lookup-close_all_for_frs}

module _ {κ} (Ours : SessionKey → Type κ) where
  -- They have one ttl, one entry for each key, and the same entries under our keys.
  pub record Agrees (p q : Pool) : Type κ where
    pub ttl : p.ttl ≡ q.ttl
    pub unique : Unique p.entries × Unique q.entries
    pub entries : (k : SessionKey) → Ours k → lookup k p.entries ≡ lookup k q.entries

  get_found-Agrees :
      (key : SessionKey) (now : ℕ) (p q : Pool) (o : Option PoolEntry)
      → Agrees p q
      → ((get_found key now p o).0 ≡ (get_found key now q o).0)
        × Agrees (get_found key now p o).1 (get_found key now q o).1
  unfolding get_found
  get_found-Agrees key now p q none a = (refl, a)
  get_found-Agrees key now p q (some e) a = elim (Bool-cases (is_expired p.ttl now e)) [
    | inl y ↦
        rw (y, subst (λ x. is_expired x now e ≡ true) a.ttl y)
          (
            refl,
            record {
              ttl = a.ttl;
              unique =
                  (erase-Unique key p.entries a.unique.0, erase-Unique key q.entries a.unique.1);
              entries = λ k h.
                  rw (lookup-erase k key p.entries, lookup-erase k key q.entries, a.entries k h);
            },
          )
    | inr n ↦
        rw (n, subst (λ x. is_expired x now e ≡ false) a.ttl n)
          (
            refl,
            record {
              ttl = a.ttl;
              unique = (
                insert-Unique key _ p.entries a.unique.0,
                insert-Unique key _ q.entries a.unique.1,
              );
              entries = λ k h.
                  rw (
                    lookup-insert k key _ p.entries,
                    lookup-insert k key _ q.entries,
                    a.entries k h,
                  );
            },
          )
  ]

  pub get-Agrees :
      (key : SessionKey) (now : ℕ) (p q : Pool)
      → Ours key
      → Agrees p q
      → ((get key now p).0 ≡ (get key now q).0) × Agrees (get key now p).1 (get key now q).1
  unfolding get
  get-Agrees key now p q h a =
      rw (a.entries key h) (get_found-Agrees key now p q (lookup key q.entries) a)

  pub store-Agrees :
      (key : SessionKey) (sess : Handle) (now : ℕ) (p q : Pool)
      → Agrees p q
      → Agrees (store key sess now p) (store key sess now q)
  unfolding store
  store-Agrees key sess now p q a = record {
    ttl = a.ttl;
    unique = (insert-Unique key _ p.entries a.unique.0, insert-Unique key _ q.entries a.unique.1);
    entries =
        λ k h. rw (lookup-insert k key _ p.entries, lookup-insert k key _ q.entries, a.entries k h);
  }

  pub close_all_for_frs-Agrees :
      (ns name : Str) (p q : Pool)
      → Agrees p q
      → Agrees (close_all_for_frs ns name p) (close_all_for_frs ns name q)
  unfolding close_all_for_frs
  close_all_for_frs-Agrees ns name p q a = record {
    ttl = unfold drop_entries in a.ttl;
    unique = (drop_entries-Unique _ p a.unique.0, drop_entries-Unique _ q a.unique.1);
    entries = λ k h.
        lookup-close_all_for_frs k ns name p a.unique.0
        ∙ (rw (a.entries k h) refl ∙ sym (lookup-close_all_for_frs k ns name q a.unique.1));
  }
