-- ===== src/SftpClient/Pool/Histories.antt =====
-- The pool over any history of calls, from any number of requests and the sweeper: each holds the
-- mutex, so a history is a sequence of whole operations.
use kasten_frs_web.Base.{
  ℕ, ◌+◌, ◌≤◌, ◌≡◌, refl, ap, subst, ◌∙◌, inl, inr, ◌&&◌, some, [], ◌∷◌, arith, if◌then◌else◌,
  nat_beq_iff, Bool-cases, ◌==◌, eq_refl, Str, Unique, lookup, erase, insert, nat_eq, text_eq,
}
use kasten_frs_web.Base.Int.{ℤ}
use kasten_frs_web.SftpClient.Pool.{
  key_eq, SessionKey, Handle, PoolEntry, Entries, Pool, new_pool, is_expired, handles, store, get,
  close, sweep, close_all_for_frs,
}
use kasten_frs_web.SftpClient.Pool.Conservation.{
  count, total, total-drop_entries, total-get, total-close, count-retain,
}
use kasten_frs_web.SftpClient.Pool.Lookup.{
  get-Unique, close-Unique, store-Unique, drop_entries-Unique, get-hit,
}

-- Only `store` has a premise: the session is new, as Dial makes one for each call.
pub data Step (p : Pool) (q : Pool) : Type 0 where
  stores :
      (key : SessionKey) (sess : Handle) (now : ℕ)
      → total sess p ≡ 0
      → q ≡ store key sess now p
      → Step p q
  gets : (key : SessionKey) (now : ℕ) → q ≡ (get key now p).1 → Step p q
  closes : (key : SessionKey) → q ≡ close key p → Step p q
  sweeps : (now : ℕ) → q ≡ sweep now p → Step p q
  drops : (ns name : Str) → q ≡ close_all_for_frs ns name p → Step p q

pub data Reach (ttl : ℤ) : Pool → Type 0 where
  here : Reach ttl (new_pool ttl)
  next : {p q : Pool} → Reach ttl p → Step p q → Reach ttl q

-- One entry for each key, and no session is pooled twice, closed twice, or pooled once closed.
pub record IsSound (p : Pool) : Type 0 where
  pub unique : Unique p.entries
  pub single : (h : Handle) → total h p ≤ 1

count-insert_le :
    (h : Handle) (key : SessionKey) (e : PoolEntry) (m : Entries)
    → count h (handles (insert key e m)) ≤ (if e.sess == h then 1 else 0) + count h (handles m)
unfolding insert erase count
count-insert_le h key e m = omega (arith, count-retain h (λ j v. j == key) m)

store_single :
    (h : Handle) (key : SessionKey) (sess : Handle) (now : ℕ) (p : Pool)
    → total h p ≤ 1
    → total sess p ≡ 0
    → total h (store key sess now p) ≤ 1
unfolding store
store_single h key sess now p one fresh = elim (Bool-cases (sess == h)) [
  | inl e ↦
      let same = (nat_beq_iff sess h).0 e in
      omega (
        arith,
        count-insert_le h key (record { sess = sess; last_used_at = now }) p.entries,
        subst (λ x. total x p ≡ 0) same fresh,
        ap {B = ℕ} (λ b. if b then 1 else 0) e,
      )
  | inr e ↦ omega (
    arith,
    count-insert_le h key (record { sess = sess; last_used_at = now }) p.entries,
    ap {B = ℕ} (λ b. if b then 1 else 0) e,
  )
]

Step-IsSound : (p q : Pool) → Step p q → IsSound p → IsSound q
unfolding sweep close_all_for_frs
Step-IsSound p q (stores key sess now fresh e) s = rw e (record {
  unique = store-Unique key sess now p s.unique;
  single = λ h. store_single h key sess now p (s.single h) fresh;
})
Step-IsSound p q (gets key now e) s = rw e (record {
  unique = get-Unique key now p s.unique;
  single = λ h. rw (total-get h key now p s.unique) (s.single h);
})
Step-IsSound p q (closes key e) s = rw e (record {
  unique = close-Unique key p s.unique;
  single = λ h. rw (total-close h key p s.unique) (s.single h);
})
Step-IsSound p q (sweeps now e) s = rw e (record {
  unique = drop_entries-Unique _ p s.unique;
  single = λ h. omega (arith, s.single h, total-drop_entries h (λ k x. is_expired p.ttl now x) p);
})
Step-IsSound p q (drops ns name e) s = rw e (record {
  unique = drop_entries-Unique _ p s.unique;
  single = λ h. omega (
    arith,
    s.single h,
    total-drop_entries h (λ k x. k.frs.namespace == ns && k.frs.name == name) p,
  );
})

-- After any history the pool has one entry for each key, and no session is pooled twice, closed
-- twice, or pooled once it is closed.
pub Reach-IsSound : {ttl : ℤ} {p : Pool} → Reach ttl p → IsSound p
unfolding new_pool count
Reach-IsSound here = record { unique = tt; single = λ h. omega arith }
Reach-IsSound (next r st) = Step-IsSound _ _ st (Reach-IsSound r)

count_pos :
    (key : SessionKey) (e : PoolEntry) (m : Entries)
    → lookup key m ≡ some e
    → 1 ≤ count e.sess (handles m)
unfolding count lookup
count_pos key e [] found = cc
count_pos key e ((k, x) ∷ m) found = elim (Bool-cases (k == key)) [
  | inr n ↦ ground (arith, count_pos key e m)
  | inl y ↦ ground (arith, nat_beq_iff e.sess e.sess)
]

-- Whatever operations of the pool happened before, Get never hands out a session on which Close
-- has been called.
pub get_open :
    (ttl : ℤ) (p : Pool) (key : SessionKey) (now : ℕ) (sess : Handle)
    → Reach ttl p
    → (get key now p).0 ≡ some sess
    → count sess (get key now p).1.closed ≡ 0
get_open ttl p key now sess r h =
    let s = Step-IsSound p (get key now p).1 (gets key now refl) (Reach-IsSound r) in
    let found = (get-hit key now p sess h).1 key in
    let here' : lookup key (get key now p).1.entries
        ≡ some (record { sess = sess; last_used_at = now }) =
      found ∙ rw (eq_refl key) refl in
    omega (
      arith,
      s.single sess,
      count_pos key (record { sess = sess; last_used_at = now }) (get key now p).1.entries here',
    )
