-- ===== src/K8s/Client/Requests.antt =====
-- When a raw request succeeds, and how much of a refusal is reported.
use kasten_frs_web.Base.{
  leb→le, zero, suc, ◌↔◌, ℕ, ◌≤◌, ◌<◌, ◌≡◌, refl, ap, inl, inr, false, ◌||◌, Option, none, some, [],
  ◌∷◌, ◌++◌, arith, ltb, leb, Bool-cases, Str, length, take, length-append, sym, subst,
}
use kasten_frs_web.K8s.Client.{
  Client, Reply, snippet, reply_body, reply_of, send_request, with_http, do_k8s_request,
}

length-take : (n : ℕ) (b : Str) → length (take n b) ≤ n
length-take zero b = omega arith
length-take (suc n) [] = omega arith
length-take (suc n) (x ∷ b) = omega (arith, length-take n b)

pub snippet-length : (b : Str) → length (snippet b) ≤ 203
unfolding snippet
snippet-length b = elim (Bool-cases (leb (length b) 200)) [
  | inl y ↦ rw y (omega (arith, leb→le (length b) 200 y))
  | inr n ↦
      rw n (omega (arith, length-append (take 200 b) (226 ∷ 128 ∷ 166 ∷ []), length-take 200 b))
]

-- An answer that is a success, with its body.
pub IsSuccess : Option Reply → Str → Type 0
IsSuccess o body =
    (status : ℕ) × (o ≡ some (record { status = status; body = some body }))
    × (200 ≤ status)
    × (status < 300)

reply_body_iff :
    (st : ℕ) (b : Option Str) (body : Str)
    → (reply_body st b ≡ inr body) ↔ ((b ≡ some body) × (200 ≤ st) × (st < 300))
unfolding reply_body
reply_body_iff st none body = (λ h. cc, λ h. cc)
reply_body_iff st (some b) body = elim (Bool-cases (ltb st 200 || leb 300 st)) [
  | inl y ↦ rw y (λ h. cc, λ h. grind (arith, h))
  | inr n ↦ rw n (λ h. (cc, grind arith, grind arith), λ h. cc)
]

reply_of_iff : (o : Option Reply) (body : Str) → (reply_of o ≡ inr body) ↔ IsSuccess o body
unfolding reply_of IsSuccess
reply_of_iff none body = (λ h. cc, λ h. cc)
reply_of_iff (some r) body = (
  λ h.
      let k = (reply_body_iff r.status r.body body).0 h in
      (r.status, ap (λ b. some (record { status = r.status; body = b })) k.0, k.1, k.2),
  λ (st, e, lo, hi).
      let (same, body_same) = fields st r body e in
      (reply_body_iff r.status r.body body).1
        (body_same, omega (arith, same, lo), omega (arith, same, hi)),
)
  where
    fields :
        (st : ℕ) (r : Reply) (body : Str)
        → some r ≡ some (record { status = st; body = some body })
        → (r.status ≡ st) × (r.body ≡ some body)
    fields st r body e = (cc, cc)

module _ {H R : Type 0} (send : H → R → Option Reply) where
  send_request_iff :
      (http : H) (o : Option R) (body : Str)
      → (send_request send http o ≡ inr body)
        ↔ ((req : R) × (o ≡ some req) × IsSuccess (send http req) body)
  unfolding send_request
  send_request_iff http none body = (λ h. cc, λ h. cc)
  send_request_iff http (some req) body = (
    λ h. (req, refl, (reply_of_iff _ body).0 h),
    λ (r, e, k).
        (reply_of_iff _ body).1 (subst (λ q. IsSuccess (send http q) body) (some_inj (sym e)) k),
  )
    where
      some_inj : {a b : R} → some a ≡ some b → a ≡ b
      some_inj h = cc

module _ {C H R : Type 0} (new_request : Str → Str → Option R) (send : H → R → Option Reply) where
  -- A request that succeeded, of this client with these parameters.
  pub IsAnswered : Client C H → Str → Str → Str → Type 0
  IsAnswered c method path body =
      (c.is_fake ≡ false)
      × ((http : H) × (c.http ≡ some http)
          × ((req : R) × (new_request method (c.host_base ++ path) ≡ some req)
              × IsSuccess (send http req) body))

  with_http_iff :
      (c : Client C H) (method path : Str) (o : Option H) (body : Str)
      → (with_http new_request send c method path o ≡ inr body) ↔ (
          (http : H) × (o ≡ some http)
          × ((req : R) × (new_request method (c.host_base ++ path) ≡ some req)
              × IsSuccess (send http req) body))
  unfolding with_http
  with_http_iff c method path none body = (λ h. cc, λ h. cc)
  with_http_iff c method path (some http) body = (
    λ h. (http, refl, (send_request_iff send http _ body).0 h),
    λ (http', e, k). (send_request_iff send http _ body).1 (
        subst
          (λ g.
            (req : R) × (new_request method (c.host_base ++ path) ≡ some req)
            × IsSuccess (send g req) body)
          (same_http (sym e)) k),
  )
    where
      same_http : {a b : H} → some a ≡ some b → a ≡ b
      same_http h = cc

  -- doK8sRequest returns a body exactly if the client is a real one with an HTTP client, the
  -- request can be built, and the server answers it with that body and a status from 200 to 299.
  pub do_k8s_request_iff :
      (c : Client C H) (method path body : Str)
      → (do_k8s_request new_request send c method path ≡ inr body) ↔ IsAnswered c method path body
  unfolding do_k8s_request IsAnswered with_http
  do_k8s_request_iff c method path body = elim (Bool-cases c.is_fake) [
    | inl y ↦ rw y (λ h. cc, λ h. cc)
    | inr n ↦ rw n (
      λ h. (refl, (with_http_iff c method path c.http body).0 h),
      λ h. (with_http_iff c method path c.http body).1 h.1,
    )
  ]
