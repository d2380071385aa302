-- ===== src/Auth/Cookies.antt =====
-- Which cookies Verify accepts.
use kasten_frs_web.Base.{
  ℕ, ◌+◌, ◌*◌, ◌/◌, ◌^◌, ◌≤◌, ◌<◌, ◌≡◌, refl, sym, ap, subst, ◌∙◌, ◌⊎◌, inl, inr, true, false, not,
  Option, none, some, List, [], ◌∷◌, ◌++◌, arith, Bool-cases, Option-cases, ◌==◌, text_beq_iff,
  eq_refl, Str, All, nat_eq, text_eq, some_eq, ◌↔◌,
}
use kasten_frs_web.Auth.{
  full_stop, second, SessionStore, is_past, sign, issue, check_stamp, check_signature, verify_parts,
  verify, sign_message,
}
use kasten_frs_web.Auth.Age.{IsLive, is_past_iff, IsLive-earlier, IsLive-issued}
use kasten_frs_web.Base.Int.{ℤ, pos, pos_part, neg_part, ◌≤ℤ◌}
use kasten_frs_web.Std.Base64.{IsByte, encode, decode}
use kasten_frs_web.Std.Base64.Roundtrip.{IsPlainChar, encode-IsPlainChar, decode-encode}
use kasten_frs_web.Std.Strconv.{signed, parse_int, format_int}
use kasten_frs_web.Std.Strconv.Decimal.{parse_int-format_int, format_int-IsByte}
use kasten_frs_web.Std.Strings.{split, join}
use kasten_frs_web.Std.Strings.Splitting.{Lacks, split-Lacks, join-split, split-join}

Lacks-plain : (s : Str) → All IsPlainChar s → Lacks full_stop s
Lacks-plain [] h = tt
Lacks-plain (c ∷ s) h = (h.0.0, Lacks-plain s h.1)

pub encode-Lacks : (bs : Str) → All IsByte bs → Lacks full_stop (encode bs)
encode-Lacks bs h = Lacks-plain (encode bs) (encode-IsPlainChar bs h)

module _ (mac : Str → Str → Str) where
  -- An authentic cookie that has not expired: three parts, of which the last is the MAC of the first
  -- two, joined by a full stop, under the secret; and a readable time of issue that is not past the
  -- ttl.
  pub record Accepts (s : SessionStore) (now : ℕ) (cookie : Str) : Type 0 where
    pub id : Str
    pub ts : Str
    pub sig : Str
    pub raw : Str
    pub issued : ℤ
    pub joined : cookie ≡ join b'.' (id ∷ ts ∷ sig ∷ [])
    pub separate : All (Lacks b'.') (id ∷ ts ∷ sig ∷ [])
    pub signed : decode sig ≡ some (mac s.secret (id ++ (b'.' ∷ ts)))
    pub stamped : decode ts ≡ some raw
    pub parsed : parse_int raw ≡ some issued
    pub live : IsLive s.ttl issued now

  stamp_cases :
      (s : SessionStore) (now : ℕ) (o : Option Str)
      → check_stamp mac s now o ≡ true
      → (raw : Str) × (issued : ℤ) × (o ≡ some raw)
        × (parse_int raw ≡ some issued)
        × (is_past s.ttl issued now ≡ false)
  stamp_cases s now none h = cc
  stamp_cases s now (some raw) h = elim (Option-cases (parse_int raw)) [
    | inl e ↦ cc (rw e at h)
    | inr (issued, e) ↦ let live = rw e at h in (raw, issued, refl, e, ground arith)
  ]

  signature_cases :
      (s : SessionStore) (now : ℕ) (id ts : Str) (o : Option Str)
      → check_signature mac s now id ts o ≡ true
      → (o ≡ some (sign mac s id ts)) × (check_stamp mac s now (decode ts) ≡ true)
  signature_cases s now id ts none h = cc
  signature_cases s now id ts (some got) h = elim (Bool-cases (got == sign mac s id ts)) [
    | inl e ↦ (ap some ((text_beq_iff got _).0 e), rw e at h)
    | inr e ↦ cc (rw e at h)
  ]

  parts_accepted :
      (s : SessionStore) (now : ℕ) (cookie : Str) (parts : List Str)
      → split full_stop cookie ≡ parts
      → verify_parts mac s now parts ≡ true
      → Accepts s now cookie
  unfolding verify_parts sign
  parts_accepted s now cookie (id ∷ ts ∷ sig ∷ []) e h =
      let (signed, stamped) = signature_cases s now id ts (decode sig) h in
      let (raw, issued, decoded, parsed, live) = stamp_cases s now (decode ts) stamped in
      record {
        id = id;
        ts = ts;
        sig = sig;
        raw = raw;
        issued = issued;
        joined = sym (join-split full_stop cookie) ∙ ap (join full_stop) e;
        separate = subst (All (Lacks full_stop)) e (split-Lacks full_stop cookie);
        signed = signed;
        stamped = decoded;
        parsed = parsed;
        live = (is_past_iff s.ttl issued now).0 live;
      }
  parts_accepted s now cookie [] e h = cc
  parts_accepted s now cookie (id ∷ []) e h = cc
  parts_accepted s now cookie (id ∷ ts ∷ []) e h = cc
  parts_accepted s now cookie (id ∷ ts ∷ sig ∷ x ∷ xs) e h = cc

  verify_of_Accepts :
      (s : SessionStore) (now : ℕ) (cookie : Str)
      → Accepts s now cookie
      → verify mac s now cookie ≡ true
  unfolding verify verify_parts sign
  verify_of_Accepts s now cookie a = rw (
    a.joined,
    split-join full_stop (a.id ∷ a.ts ∷ a.sig ∷ []) tt a.separate,
    a.signed,
    eq_refl (sign mac s a.id a.ts),
    a.stamped,
    a.parsed,
    (is_past_iff s.ttl a.issued now).1 a.live,
  )

  -- Verify accepts exactly the authentic cookies that have not expired.
  pub verify_iff :
      (s : SessionStore) (now : ℕ) (cookie : Str)
      → (verify mac s now cookie ≡ true) ↔ Accepts s now cookie
  unfolding verify
  verify_iff s now cookie =
      (parts_accepted s now cookie (split full_stop cookie) refl, verify_of_Accepts s now cookie)

  -- Once a cookie has expired it stays so: a cookie that is accepted was accepted all the time before.
  pub verify_earlier :
      (s : SessionStore) (earlier later : ℕ) (cookie : Str)
      → earlier ≤ later
      → verify mac s later cookie ≡ true
      → verify mac s earlier cookie ≡ true
  verify_earlier s earlier later cookie h v =
      let a = (verify_iff s later cookie).0 v in
      verify_of_Accepts s earlier cookie (record {
        id = a.id;
        ts = a.ts;
        sig = a.sig;
        raw = a.raw;
        issued = a.issued;
        joined = a.joined;
        separate = a.separate;
        signed = a.signed;
        stamped = a.stamped;
        parsed = a.parsed;
        live = IsLive-earlier s.ttl a.issued earlier later h a.live;
      })

  -- What Verify says of a cookie that was just issued hangs on its age alone.
  verify-issue_past :
      (s : SessionStore) (id_bytes : Str) (issued now : ℕ) (sid cookie : Str)
      → ((key message : Str) → All IsByte (mac key message))
      → All IsByte id_bytes
      → issued < 2 ^ 63
      → issue mac s (some id_bytes) issued ≡ some (sid, cookie)
      → verify mac s now cookie ≡ not (is_past s.ttl (pos (issued / second)) now)
  unfolding verify verify_parts issue sign
  verify-issue_past s id_bytes issued now sid cookie bytes ids small e = rw (
    sym (cookie_of e),
    split-join full_stop (id ∷ ts ∷ encode (sign mac s id ts) ∷ []) tt (
      encode-Lacks id_bytes ids,
      (
        encode-Lacks _ (format_int-IsByte (issued / second)),
        (encode-Lacks _ (bytes s.secret (sign_message id ts)), tt),
      ),
    ),
    decode-encode (sign mac s id ts) (bytes s.secret (sign_message id ts)),
    eq_refl (sign mac s id ts),
    decode-encode _ (format_int-IsByte (issued / second)),
    parse_int-format_int (issued / second) (omega arith),
  )
    where
      id : Str
      id = encode id_bytes

      ts : Str
      ts = encode (format_int (pos (issued / second)))

      cookie_of :
          issue mac s (some id_bytes) issued ≡ some (sid, cookie)
          → join full_stop (id ∷ ts ∷ encode (sign mac s id ts) ∷ []) ≡ cookie
      cookie_of q = ap (λ (r : Str × Str). r.1) (some_eq q)

  -- A cookie that was just issued is accepted exactly as long as the clock is not past the second
  -- of its issue plus the ttl, and for good if the ttl is not positive; the MAC, the random bytes
  -- and the time of issue being in the ranges that they have in the source.
  pub verify-issue :
      (s : SessionStore) (id_bytes : Str) (issued now : ℕ) (sid cookie : Str)
      → ((key message : Str) → All IsByte (mac key message))
      → All IsByte id_bytes
      → issued < 2 ^ 63
      → issue mac s (some id_bytes) issued ≡ some (sid, cookie)
      → (verify mac s now cookie ≡ true) ↔ (
          (s.ttl ≤ℤ pos 0)
          ⊎ (now + neg_part s.ttl ≤ issued / 1000000000 * 1000000000 + pos_part s.ttl))
  verify-issue s id_bytes issued now sid cookie bytes ids small e =
      let same = verify-issue_past s id_bytes issued now sid cookie bytes ids small e in
      let age = is_past_iff s.ttl (pos (issued / second)) now in
      let issued_parts = IsLive-issued s.ttl (issued / second) now in
      (
        λ v. issued_parts.0 (age.0 (ground (arith, same, v))),
        λ h. same ∙ ap not (age.1 (issued_parts.1 h)),
      )
