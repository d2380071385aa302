-- ===== src/SftpClient/Pool/Tests.antt =====
-- Runs of the pool with one user and two FRSes.
use kasten_frs_web.Base.{
  nat_eq, text_eq, ◌≡◌, refl, some, [], ◌∷◌, arith, text_beq, str, retain, Unique, lookup, erase,
  insert, none, List,
}
use kasten_frs_web.Base.Int.{ℤ, pos}
use kasten_frs_web.K8s.{FrsRef, ref_beq}
use kasten_frs_web.SftpClient.Pool.{
  key_eq, SessionKey, key_beq, Pool, new_pool, is_expired, store, get_found, get, sweep,
}
use kasten_frs_web.SftpClient.Pool.Conservation.{count, total}
use kasten_frs_web.SftpClient.Pool.Histories.{next, here, stores, Reach, get_open}
use kasten_frs_web.SftpClient.Pool.Leak.{store-displaced}
use kasten_frs_web.SftpClient.Pool.Replay.{
  Call, call_get, call_sweep, perform, answers, spec_answers, map_of, answers-spec,
}

abbrev frs_a : FrsRef
frs_a = record { namespace = str "prod"; name = str "frs-a" }

abbrev key_a : SessionKey
key_a = record { user_session_id = str "u"; frs = frs_a }

abbrev ttl : ℤ
ttl = pos 100

abbrev empty_pool : Pool
empty_pool = new_pool ttl

abbrev one_session : Pool
one_session = record {
  entries = (key_a, record { sess = 1; last_used_at = 10 }) ∷ [];
  ttl = ttl;
  closed = [];
}

one_Unique : Unique one_session.entries
one_Unique = (tt, tt)

one_stored : one_session ≡ store key_a 1 10 empty_pool
unfolding store new_pool insert erase retain
one_stored = refl

one_reached : Reach ttl one_session
one_reached = next here (stores key_a 1 10 none_yet one_stored)
  where
    none_yet : total 1 empty_pool ≡ 0
    none_yet = unfold new_pool in unfold count in refl

one_got : (get key_a 50 one_session).0 ≡ some 1
unfolding get get_found is_expired lookup key_beq ref_beq text_beq
one_got = refl

get_open_example : count 1 (get key_a 50 one_session).1.closed ≡ 0
get_open_example = get_open ttl one_session key_a 50 1 one_reached one_got

one_found : lookup key_a one_session.entries ≡ some (record { sess = 1; last_used_at = 10 })
unfolding lookup key_beq ref_beq text_beq
one_found = refl

one_total : total 1 one_session ≡ 1
unfolding count
one_total = refl

store-displaced_example : total 1 (store key_a 2 20 one_session) ≡ 0
store-displaced_example =
    store-displaced key_a (record { sess = 1; last_used_at = 10 }) 2 20 one_session one_Unique
      one_found one_total (λ e. omega (arith, e))

abbrev some_calls : List Call
some_calls = call_get key_a 50 ∷ call_sweep 500 ∷ call_get key_a 501 ∷ []

served_then_gone : answers some_calls one_session ≡ some 1 ∷ none ∷ none ∷ []
unfolding answers perform get get_found sweep is_expired lookup insert erase retain key_beq ref_beq
    text_beq
served_then_gone = refl

answers-spec_example :
    answers some_calls one_session ≡ spec_answers ttl some_calls (map_of one_session)
answers-spec_example = answers-spec some_calls one_session one_Unique
