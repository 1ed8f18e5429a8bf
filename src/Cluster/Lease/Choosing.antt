-- ===== src/Cluster/Lease/Choosing.antt =====
-- The mode that src/cluster.rs chooses for a put takes no lease that has not ended.
use gengis_mimi.Shared.{
  ℕ, ◌-◌, ◌≤◌, ◌≡◌, refl, sym, ◌∙◌, subst, inl, inr, Bool, true, false, Bool-cases, Option, none,
  some, arith, leb, ◌==◌, in_range, if◌then◌else◌, &&-eq-true, leb→le, ==_iff,
}
use gengis_mimi.Error.{ok, ok-injective}
use gengis_mimi.Cluster.Lease.{Mode, Fetched, compare, choose}
use gengis_mimi.Cluster.Lease.Steps.{Store}
use gengis_mimi.Cluster.Lease.Facts.{one_version, Justified, StoreFacts, Noted, Read}

module _ (lease_ms : ℕ → ℕ) where
  -- The mode that was chosen, and what is noted behind it.
  abbrev pub Chosen : Store → ℕ → Option Mode × Option (ℕ × ℕ) → Type 0
  Chosen store node (none, o) = Noted lease_ms store o
  Chosen store node (some mode, o) = Justified lease_ms store node mode × Noted lease_ms store o

  Chosen-if :
      (store : Store) (node : ℕ) (b : Bool) (x y : Option Mode × Option (ℕ × ℕ))
      → (b ≡ true → Chosen store node x)
      → (b ≡ false → Chosen store node y)
      → Chosen store node (if b then x else y)
  Chosen-if store node true x y h k = h refl
  Chosen-if store node false x y h k = k refl

  -- An unchanged lease that was noted its whole ttl ago has ended.
  ended :
      (store : Store) (node etag ttl since : ℕ)
      → StoreFacts lease_ms store
      → 3000 ≤ ttl
      → leb ttl (store.now - since) ≡ true
      → Read lease_ms store (Fetched.found etag ttl)
      → Noted lease_ms store (some (etag, since))
      → Justified lease_ms store node (Mode.update etag)
  ended store node etag ttl since facts big long (v, one, e, (t, a)) (v', one', e', a') =
      let same = one_version v v' store.versions facts.fresh one one' (e ∙ sym e') in
      let past : v.at ≤ since = rw same a' in (v, one, e, inr (ground arith))

  compare-Chosen :
      (store : Store) (node etag ttl : ℕ) (o : Option (ℕ × ℕ))
      → StoreFacts lease_ms store
      → 3000 ≤ ttl
      → Read lease_ms store (Fetched.found etag ttl)
      → Noted lease_ms store o
      → Chosen store node (compare store.now etag ttl o)
  unfolding compare
  compare-Chosen store node etag ttl none facts big (v, one, e, (t, a)) h = (v, one, e, a)
  compare-Chosen store node etag ttl (some (old, since)) facts big (v, one, e, (t, a)) h =
      Chosen-if store node (old == etag) _ _
        (λ same.
          Chosen-if store node (leb ttl (store.now - since)) _ _
            (λ long.
              let h' = rw ((==_iff old etag).0 same) at h in
              (ended store node etag ttl since facts big long (v, one, e, (t, a)) h', h))
            (λ short. h))
        (λ other. (v, one, e, a))

  pub choose-Chosen :
      (store : Store) (node : ℕ) (f : Fetched) (o : Option (ℕ × ℕ))
      → StoreFacts lease_ms store
      → Read lease_ms store f
      → Noted lease_ms store o
      → {c : Option Mode × Option (ℕ × ℕ)} → choose store.now f o ≡ ok c
      → Chosen store node c
  unfolding choose
  choose-Chosen store node (Fetched.found etag ttl) o facts read h {c} e =
      elim (Bool-cases (in_range 3000 300000 ttl)) [
        | inl big ↦
            let made = rw big at e in
            subst (Chosen store node) (ok-injective made) (
              compare-Chosen store node etag ttl o facts
                (leb→le 3000 ttl (&&-eq-true (leb 3000 ttl) (leb ttl 300000) big).0) read h)
        | inr small ↦ absurd (let made = rw small at e in cc)
      ]
  choose-Chosen store node Fetched.missing o facts read h e =
      subst (Chosen store node) (ok-injective e) (tt, h)
  choose-Chosen store node Fetched.unreadable o facts read h e =
      subst (Chosen store node) (ok-injective e) h
