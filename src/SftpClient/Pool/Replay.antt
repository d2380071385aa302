-- ===== src/SftpClient/Pool/Replay.antt =====
-- The pool as a map from keys to entries: any sequence of calls gives the answers of that map, which
-- forgets how the entries are kept.
use kasten_frs_web.Base.{
  nat_eq, text_eq, ap, ◌∙◌, ℕ, ◌≡◌, refl, sym, inl, inr, not, ◌&&◌, Option, none, some, List, [],
  ◌∷◌, if◌then◌else◌, Bool-cases, ◌==◌, Str, filter_found, Unique, lookup, lookup-erase,
  lookup-insert,
}
use kasten_frs_web.Base.Int.{ℤ}
use kasten_frs_web.SftpClient.Pool.{
  key_eq, SessionKey, key_beq_iff, Handle, PoolEntry, Entries, Pool, is_expired, store, get_found,
  get, close_found, close, sweep, close_all_for_frs, drop_entries,
}
use kasten_frs_web.SftpClient.Pool.Lookup.{
  get-Unique, close-Unique, store-Unique, drop_entries-Unique, lookup-sweep,
  lookup-close_all_for_frs,
}

pub data Call : Type 0 where
  call_store : SessionKey → Handle → ℕ → Call
  call_get : SessionKey → ℕ → Call
  call_close : SessionKey → Call
  call_sweep : ℕ → Call
  call_drop : Str → Str → Call

-- A call, with the session that Get answers.
unfoldable pub perform : Call → Pool → Option Handle × Pool
perform (call_store key sess now) p = (none, store key sess now p)
perform (call_get key now) p = get key now p
perform (call_close key) p = (none, close key p)
perform (call_sweep now) p = (none, sweep now p)
perform (call_drop ns name) p = (none, close_all_for_frs ns name p)

unfoldable pub answers : List Call → Pool → List (Option Handle)
answers [] p = []
answers (c ∷ calls) p = (perform c p).0 ∷ answers calls (perform c p).1

-- The map.
abbrev pub Spec : Type 0
Spec = SessionKey → Option PoolEntry

abbrev pub put : SessionKey → Option PoolEntry → Spec → Spec
put key o f k = if key == k then o else f k

-- An entry that was asked for: gone if it had expired, else in use from now on.
abbrev pub touched : ℤ → ℕ → Option PoolEntry → Option PoolEntry
touched ttl now none = none
touched ttl now (some e) =
    if is_expired ttl now e then none else some (record e { last_used_at = now })

abbrev pub answered : Option PoolEntry → Option Handle
answered none = none
answered (some e) = some e.sess

unfoldable pub spec_call : ℤ → Call → Spec → Option Handle × Spec
spec_call ttl (call_store key sess now) f =
    (none, put key (some (record { sess = sess; last_used_at = now })) f)
spec_call ttl (call_get key now) f =
    (answered (touched ttl now (f key)), put key (touched ttl now (f key)) f)
spec_call ttl (call_close key) f = (none, put key none f)
spec_call ttl (call_sweep now) f = (none, λ k. filter_found (λ e. not (is_expired ttl now e)) (f k))
spec_call ttl (call_drop ns name) f =
    (none, λ k. if k.frs.namespace == ns && k.frs.name == name then none else f k)

unfoldable pub spec_answers : ℤ → List Call → Spec → List (Option Handle)
spec_answers ttl [] f = []
spec_answers ttl (c ∷ calls) f =
    (spec_call ttl c f).0 ∷ spec_answers ttl calls (spec_call ttl c f).1

abbrev pub map_of : Pool → Spec
map_of p k = lookup k p.entries

put_same :
    (key k : SessionKey) (m : Entries) (o : Option PoolEntry)
    → lookup key m ≡ o
    → (if key == k then o else lookup k m) ≡ lookup k m
put_same key k m o h = elim (Bool-cases (key == k)) [
  | inl y ↦ rw y (sym h ∙ ap (λ j. lookup j m) ((key_beq_iff key k).0 y))
  | inr n ↦ rw n refl
]

get_found-map :
    (key k : SessionKey) (now : ℕ) (p : Pool) (o : Option PoolEntry)
    → lookup key p.entries ≡ o
    → lookup k (get_found key now p o).1.entries
      ≡ (if key == k then touched p.ttl now o else lookup k p.entries)
unfolding get_found
get_found-map key k now p none h = sym (put_same key k p.entries none h)
get_found-map key k now p (some e) h = elim (Bool-cases (is_expired p.ttl now e)) [
  | inl y ↦ rw y (lookup-erase k key p.entries)
  | inr n ↦ rw n (lookup-insert k key (record { sess = e.sess; last_used_at = now }) p.entries)
]

get_found-answer :
    (key : SessionKey) (now : ℕ) (p : Pool) (o : Option PoolEntry)
    → (get_found key now p o).0 ≡ answered (touched p.ttl now o)
unfolding get_found
get_found-answer key now p none = refl
get_found-answer key now p (some e) = elim (Bool-cases (is_expired p.ttl now e)) [
  | inl y ↦ rw y refl
  | inr n ↦ rw n refl
]

close_found-map :
    (key k : SessionKey) (p : Pool) (o : Option PoolEntry)
    → lookup key p.entries ≡ o
    → lookup k (close_found key p o).entries ≡ (if key == k then none else lookup k p.entries)
unfolding close_found
close_found-map key k p none h = sym (put_same key k p.entries none h)
close_found-map key k p (some e) h = lookup-erase k key p.entries

perform-map :
    (c : Call) (p : Pool) (k : SessionKey)
    → Unique p.entries
    → map_of (perform c p).1 k ≡ (spec_call p.ttl c (map_of p)).1 k
unfolding perform spec_call store get close
perform-map (call_store key sess now) p k u = lookup-insert k key _ p.entries
perform-map (call_get key now) p k u = get_found-map key k now p _ refl
perform-map (call_close key) p k u = close_found-map key k p _ refl
perform-map (call_sweep now) p k u = lookup-sweep k now p u
perform-map (call_drop ns name) p k u = lookup-close_all_for_frs k ns name p u

perform-answer : (c : Call) (p : Pool) → (perform c p).0 ≡ (spec_call p.ttl c (map_of p)).0
unfolding perform spec_call get
perform-answer (call_store key sess now) p = refl
perform-answer (call_get key now) p = get_found-answer key now p _
perform-answer (call_close key) p = refl
perform-answer (call_sweep now) p = refl
perform-answer (call_drop ns name) p = refl

perform-Unique : (c : Call) (p : Pool) → Unique p.entries → Unique (perform c p).1.entries
unfolding perform sweep close_all_for_frs
perform-Unique (call_store key sess now) p u = store-Unique key sess now p u
perform-Unique (call_get key now) p u = get-Unique key now p u
perform-Unique (call_close key) p u = close-Unique key p u
perform-Unique (call_sweep now) p u = drop_entries-Unique _ p u
perform-Unique (call_drop ns name) p u = drop_entries-Unique _ p u

get_found-ttl :
    (key : SessionKey) (now : ℕ) (p : Pool) (o : Option PoolEntry)
    → (get_found key now p o).1.ttl ≡ p.ttl
unfolding get_found
get_found-ttl key now p none = refl
get_found-ttl key now p (some e) = elim (Bool-cases (is_expired p.ttl now e)) [
  | inl y ↦ rw y refl
  | inr n ↦ rw n refl
]

close_found-ttl :
    (key : SessionKey) (p : Pool) (o : Option PoolEntry) → (close_found key p o).ttl ≡ p.ttl
unfolding close_found
close_found-ttl key p none = refl
close_found-ttl key p (some e) = refl

perform-ttl : (c : Call) (p : Pool) → (perform c p).1.ttl ≡ p.ttl
unfolding perform store get close sweep close_all_for_frs drop_entries
perform-ttl (call_store key sess now) p = refl
perform-ttl (call_get key now) p = get_found-ttl key now p _
perform-ttl (call_close key) p = close_found-ttl key p _
perform-ttl (call_sweep now) p = refl
perform-ttl (call_drop ns name) p = refl

-- Any sequence of calls of the pool, which has one entry for a key, gives the answers of a plain
-- map from keys to entries, whose Get forgets an entry that has been idle for longer than the ttl
-- and renews any other.
pub answers-spec :
    (calls : List Call) (p : Pool)
    → Unique p.entries
    → answers calls p ≡ spec_answers p.ttl calls (map_of p)
unfolding answers spec_answers
answers-spec [] p u = refl
answers-spec (c ∷ calls) p u =
    let maps : map_of (perform c p).1 ≡ (spec_call p.ttl c (map_of p)).1 =
      λ i k. perform-map c p k u i in
    let later =
      answers-spec calls (perform c p).1 (perform-Unique c p u)
      ∙ ap (λ t. spec_answers t calls (map_of (perform c p).1)) (perform-ttl c p)
      ∙ ap (spec_answers p.ttl calls) maps in
    cc (perform-answer c p, later)
