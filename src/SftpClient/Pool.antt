-- ===== src/SftpClient/Pool.antt =====
-- internal/sftpclient/pool.go. A session is known by a handle, as the source knows it by a pointer;
-- time is an argument of each call, and `closed` records the sessions on which Close was called,
-- in the foreground or in a goroutine. Each method holds the mutex for its whole state change.
pub mod Conservation
pub mod Lookup
pub mod Kept
pub mod Agreeing
pub mod Leak
pub mod Histories
pub mod Replay
mod Tests
use kasten_frs_web.Base.{
  ℕ, ◌≡◌, ◌↔◌, Bool, true, not, ◌&&◌, Option, none, some, List, [], ◌∷◌, ◌++◌, arith, if◌then◌else◌,
  Eq, ◌==◌, text_beq_iff, Str, length, lookup, retain, erase, insert, nat_eq, text_eq,
}
use kasten_frs_web.Base.Int.{ℤ, sub_ℕ, ltb_ℤ}
use kasten_frs_web.K8s.{ref_eq, FrsRef, ref_beq_iff}

pub record SessionKey : Type 0 where
  pub user_session_id : Str
  pub frs : FrsRef

unfoldable pub key_beq : SessionKey → SessionKey → Bool
key_beq a b = a.user_session_id == b.user_session_id && a.frs == b.frs

pub key_beq_iff : (a b : SessionKey) → (key_beq a b ≡ true) ↔ (a ≡ b)
unfolding key_beq
key_beq_iff a b =
    ground (arith, text_beq_iff a.user_session_id b.user_session_id, ref_beq_iff a.frs b.frs)

instance abbrev pub key_eq : Eq SessionKey
key_eq = record { same = key_beq; same_iff = key_beq_iff }

abbrev pub Handle : Type 0
Handle = ℕ

pub record PoolEntry : Type 0 where
  pub sess : Handle
  pub last_used_at : ℕ

abbrev pub Entries : Type 0
Entries = List (SessionKey × PoolEntry)

pub record Pool : Type 0 where
  pub entries : Entries
  pub ttl : ℤ
  pub closed : List Handle

unfoldable pub new_pool : ℤ → Pool
new_pool ttl = record { entries = []; ttl = ttl; closed = [] }

-- now.Sub(e.lastUsedAt) > p.ttl; a negative ttl is possible.
unfoldable pub is_expired : ℤ → ℕ → PoolEntry → Bool
is_expired ttl now e = ltb_ℤ ttl (sub_ℕ now e.last_used_at)

abbrev pub handles : Entries → List Handle
handles [] = []
handles ((k, e) ∷ m) = e.sess ∷ handles m

pub store : SessionKey → Handle → ℕ → Pool → Pool
store key sess now p = record p {
  entries = insert key (record { sess = sess; last_used_at = now }) p.entries;
}

-- Get after its lookup.
pub get_found : SessionKey → ℕ → Pool → Option PoolEntry → Option Handle × Pool
get_found key now p none = (none, p)
get_found key now p (some e) =
    if is_expired p.ttl now e
    then (none, record p { entries = erase key p.entries; closed = e.sess ∷ p.closed })
    else (
      some e.sess,
      record p { entries = insert key (record { sess = e.sess; last_used_at = now }) p.entries },
    )

pub get : SessionKey → ℕ → Pool → Option Handle × Pool
unfolding get_found
get key now p = get_found key now p (lookup key p.entries)

pub close_found : SessionKey → Pool → Option PoolEntry → Pool
close_found key p none = p
close_found key p (some e) = record p { entries = erase key p.entries; closed = e.sess ∷ p.closed }

pub close : SessionKey → Pool → Pool
unfolding close_found
close key p = close_found key p (lookup key p.entries)

-- Every entry that passes the test is deleted and its session closed.
pub drop_entries : (SessionKey → PoolEntry → Bool) → Pool → Pool
drop_entries test p = record p {
  entries = retain (λ k e. not (test k e)) p.entries;
  closed = handles (retain test p.entries) ++ p.closed;
}

pub sweep : ℕ → Pool → Pool
unfolding drop_entries
sweep now p = drop_entries (λ k e. is_expired p.ttl now e) p

pub close_all_for_frs : Str → Str → Pool → Pool
unfolding drop_entries
close_all_for_frs ns name p = drop_entries (λ k e. k.frs.namespace == ns && k.frs.name == name) p

pub len : Pool → ℕ
len p = length p.entries
