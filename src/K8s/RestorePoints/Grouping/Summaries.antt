-- ===== src/K8s/RestorePoints/Grouping/Summaries.antt =====
-- What one VM's entry says of its restore points.
use kasten_frs_web.Base.{
  ℕ, ◌≤◌, ◌≡◌, refl, Option, some, List, [], ◌∷◌, ◌∙◌, inl, inr, false, none, Bool-cases, ◌+◌, ◌⊎◌,
  arith, length, All, All-map, Occurs,
}
use kasten_frs_web.K8s.{ObjectApi}
use kasten_frs_web.K8s.RestorePoints.{Vm, VmKey, bump, known, new_vm, is_after, time_after}
use kasten_frs_web.K8s.RestorePoints.Times.{
  later_is_later, time_irreflexive, after_trans, time_trans,
}

module _ {O : Type 0} (api : ObjectApi O) where
  -- The summary of one VM, from its restore points alone: how many there are, and the newest of them.
  unfoldable pub summary : VmKey → Option Vm → List O → Option Vm
  summary k v [] = v
  summary k v (it ∷ items) = summary k (some (bump api it (known api k v))) items

  -- What a VM's entry says of the VM's restore points: its name and namespace, how many restore points
  -- there are, and the name and the time of one of them that none is newer than.
  pub record Describes (k : VmKey) (items : List O) (v : Vm) : Type 0 where
    pub name : v.app_name ≡ k.name
    pub ns : v.app_namespace ≡ k.ns
    pub counted : v.rp_count ≡ length items
    pub newest : O
    pub among : Occurs newest items
    pub named : v.last_rp_name ≡ api.get_name newest
    pub timed : v.last_rp_time ≡ some (api.get_created newest)
    pub latest : All (λ it. api.get_created it ≤ api.get_created newest) items

  -- Where name and time of the newest restore point are from: the entry before, or one of the items.
  abbrev Source : Vm → List O → Vm → Type 0
  Source old items v =
      ((v.last_rp_name ≡ old.last_rp_name) × (v.last_rp_time ≡ old.last_rp_time))
      ⊎ ((it : O) × Occurs it items
          × (v.last_rp_name ≡ api.get_name it)
          × (v.last_rp_time ≡ some (api.get_created it)))

  -- What restore points add to an entry.
  record Grows (old : Vm) (items : List O) (v : Vm) : Type 0 where
    pub name : v.app_name ≡ old.app_name
    pub ns : v.app_namespace ≡ old.app_namespace
    pub counted : v.rp_count ≡ old.rp_count + length items
    pub later : time_after old.last_rp_time v.last_rp_time ≡ false
    pub source : Source old items v
    pub newest : All (λ it. is_after (api.get_created it) v.last_rp_time ≡ false) items

  bump-Grows : (it : O) (v : Vm) → Grows v (it ∷ []) (bump api it v)
  unfolding bump
  bump-Grows it v = elim (Bool-cases (is_after (api.get_created it) v.last_rp_time)) [
    | inl y ↦ rw y (record {
      name = refl;
      ns = refl;
      counted = refl;
      later = later_is_later (api.get_created it) v.last_rp_time y;
      source = inr (it, inl refl, refl, refl);
      newest = (ground arith, tt);
    })
    | inr n ↦ rw n (record {
      name = refl;
      ns = refl;
      counted = refl;
      later = time_irreflexive v.last_rp_time;
      source = inl (refl, refl);
      newest = (n, tt);
    })
  ]

  -- One restore point and then others.
  Source-cons :
      (old middle v : Vm) (it : O) (items : List O)
      → Source old (it ∷ []) middle
      → Source middle items v
      → Source old (it ∷ items) v
  Source-cons old middle v it items (inl (n, t)) (inl (m, u)) = inl (m ∙ n, u ∙ t)
  Source-cons old middle v it items (inr (x, inl e, n, t)) (inl (m, u)) =
      inr (x, inl e, m ∙ n, u ∙ t)
  Source-cons old middle v it items (inr (x, inr o, n, t)) (inl (m, u)) = elim o [ ]
  Source-cons old middle v it items s (inr (x, o, n, t)) = inr (x, inr o, n, t)

  summary-Grows :
      (k : VmKey) (old : Vm) (items : List O)
      → (v : Vm) × (summary k (some old) items ≡ some v) × Grows old items v
  unfolding summary
  summary-Grows k old [] = (
    old,
    refl,
    record {
      name = refl;
      ns = refl;
      counted = omega arith;
      later = time_irreflexive old.last_rp_time;
      source = inl (refl, refl);
      newest = tt;
    },
  )
  summary-Grows k old (it ∷ items) =
      let (v, e, g) = summary-Grows k (bump api it old) items in
      let b = bump-Grows it old in
      (
        v,
        e,
        record {
          name = g.name ∙ b.name;
          ns = g.ns ∙ b.ns;
          counted = omega (arith, g.counted, b.counted);
          later =
              time_trans old.last_rp_time (bump api it old).last_rp_time v.last_rp_time b.later
                g.later;
          source = Source-cons old (bump api it old) v it items b.source g.source;
          newest = (
            after_trans (api.get_created it) (bump api it old).last_rp_time v.last_rp_time
                b.newest.0 g.later,
            g.newest,
          );
        },
      )

  -- The first restore point of a VM gives its entry a name and a time.
  first-Source :
      (k : VmKey) (it : O) (items : List O) (v : Vm)
      → Source (bump api it (new_vm k)) items v
      → (x : O) × Occurs x (it ∷ items)
        × (v.last_rp_name ≡ api.get_name x)
        × (v.last_rp_time ≡ some (api.get_created x))
  unfolding bump
  first-Source k it items v (inl (n, t)) = (it, inl refl, n, t)
  first-Source k it items v (inr (x, o, n, t)) = (x, inr o, n, t)

  not_after_some :
      (t : Option ℕ) (c : ℕ)
      → t ≡ some c
      → (it : O) → is_after (api.get_created it) t ≡ false
      → api.get_created it ≤ c
  not_after_some none c e it h = cc
  not_after_some (some t) c e it h = ground (arith, e, h)

  pub summary-Describes :
      (k : VmKey) (items : List O)
      → ((items ≡ []) × (summary k none items ≡ none))
        ⊎ ((v : Vm) × (summary k none items ≡ some v) × Describes k items v)
  unfolding summary
  summary-Describes k [] = inl (refl, refl)
  summary-Describes k (it ∷ items) =
      let (v, e, g) = summary-Grows k (bump api it (new_vm k)) items in
      let b = bump-Grows it (new_vm k) in
      let (x, o, n, t) = first-Source k it items v g.source in
      inr (
        v,
        e,
        record {
          name = g.name ∙ b.name;
          ns = g.ns ∙ b.ns;
          counted = omega (arith, g.counted, b.counted);
          newest = x;
          among = o;
          named = n;
          timed = t;
          latest = All-map (not_after_some v.last_rp_time (api.get_created x) t) (it ∷ items) (
            after_trans (api.get_created it) (bump api it (new_vm k)).last_rp_time v.last_rp_time
                b.newest.0 g.later,
            g.newest,
          );
        },
      )
