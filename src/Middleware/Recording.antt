-- ===== src/Middleware/Recording.antt =====
-- When the access log has the status that the client gets.
use kasten_frs_web.Base.{
  nat_eq, text_eq, ℕ, ◌+◌, ◌≡◌, refl, sym, ◌∙◌, true, false, none, some, List, [], ◌∷◌, Str, length,
  ap, ◌++◌, str,
}
use kasten_frs_web.Http.{Request}
use kasten_frs_web.Middleware.{
  Write, write_header, write_body, Recorder, record_write, record_all, AccessLine, is_probe,
  access_log, recoverer, send_write, send_all,
}

-- The writes of a body only.
pub AreBody : List Write → Type 0
AreBody [] = Unit
AreBody (write_header code ∷ writes) = ⊥
AreBody (write_body b ∷ writes) = AreBody writes

body_bytes : List Write → ℕ
body_bytes [] = 0
body_bytes (write_header code ∷ writes) = body_bytes writes
body_bytes (write_body b ∷ writes) = length b + body_bytes writes

record_all-body :
    (r : Recorder) (writes : List Write) → AreBody writes → (record_all r writes).status ≡ r.status
unfolding AreBody record_all record_write
record_all-body r [] h = refl
record_all-body r (write_header code ∷ writes) h = elim h [ ]
record_all-body r (write_body b ∷ writes) h =
    record_all-body (record_write r (write_body b)) writes h

send_all-sent : (code : ℕ) (writes : List Write) → send_all (some code) writes ≡ code
unfolding send_all send_write
send_all-sent code [] = refl
send_all-sent code (w ∷ writes) = send_all-sent code writes

recorded_status :
    (w : Write) (writes : List Write) (n : ℕ)
    → AreBody writes
    → (record_all (record { status = 200; written = n }) (w ∷ writes)).status
      ≡ send_all none (w ∷ writes)
unfolding record_all record_write send_all send_write
recorded_status (write_header code) writes n h =
    record_all-body (record { status = code; written = n }) writes h
    ∙ sym (send_all-sent code writes)
recorded_status (write_body b) writes n h =
    record_all-body (record { status = 200; written = n + length b }) writes h
    ∙ sym (send_all-sent 200 writes)

-- The access log has the status that the client gets, for a request that is no probe and a handler
-- that does not panic and sets a status, if at all, before all else.
pub access_log-sent :
    (fresh : Str) (r : Request) (w : Write) (writes : List Write)
    → is_probe r.path ≡ false
    → AreBody writes
    → (line : AccessLine) × (access_log fresh r (record { writes = w ∷ writes; panics = false })
        ≡ some line)
      × (line.status ≡ send_all none (w ∷ writes))
unfolding access_log
access_log-sent fresh r w writes h b = simp h (_, refl, recorded_status w writes 0 b)

record_all-append :
    (r : Recorder) (xs ys : List Write) → record_all r (xs ++ ys) ≡ record_all (record_all r xs) ys
unfolding record_all
record_all-append r [] ys = refl
record_all-append r (x ∷ xs) ys = record_all-append (record_write r x) xs ys

send_all-append :
    (code : ℕ) (xs ys : List Write) → send_all (some code) (xs ++ ys) ≡ send_all (some code) xs
send_all-append code xs ys = send_all-sent code (xs ++ ys) ∙ sym (send_all-sent code xs)

first_sent :
    (w : Write) (xs ys : List Write) → send_all none (w ∷ xs ++ ys) ≡ send_all none (w ∷ xs)
unfolding send_all send_write
first_sent (write_header code) xs ys = send_all-append code xs ys
first_sent (write_body b) xs ys = send_all-append 200 xs ys

-- For a handler that panics after it wrote something, the access log has the status 500, while the
-- client gets the status that the handler wrote first.
pub recoverer-status :
    (fresh : Str) (r : Request) (w : Write) (writes : List Write)
    → is_probe r.path ≡ false
    → (line : AccessLine) × (access_log fresh r
          (recoverer (record { writes = w ∷ writes; panics = true }))
        ≡ some line)
      × (line.status ≡ 500)
      × (send_all none (recoverer (record { writes = w ∷ writes; panics = true })).writes
          ≡ send_all none (w ∷ writes))
unfolding access_log recoverer record_write record_all
recoverer-status fresh r w writes h =
    let closing = write_header 500 ∷ write_body (str "internal error" ++ (10 ∷ [])) ∷ [] in
    simp h (
      _,
      refl,
      ap (λ x. x.status)
          (record_all-append (record { status = 200; written = 0 }) (w ∷ writes) closing),
      first_sent w writes closing,
    )
