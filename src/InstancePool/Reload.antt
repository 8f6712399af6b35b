-- ===== src/InstancePool/Reload.antt =====
-- `reload` brings the pool to the configurations (instance_pool.py).
use poly_strategy.Prelude.{
  ℕ, ◌≡◌, refl, Bool, true, false, Option, none, some, List, [], ◌∷◌, Dict, lookup, erase, ◌==◌,
  is_some, if◌then◌else◌, ==_iff, subst, ap, sym, ◌∙◌, arith, lookup-insert, lookup-erase, elem,
  Bool-cases, inl, inr,
}
use poly_strategy.InstancePool.{
  InstanceConfig, Running, Pool, keys, config_of, put_new, renew, start_one, stop_missing,
  update_one, update_all, reload,
}

-- No two configurations have one id.
abbrev pub HasUniqueIds : List InstanceConfig → Type 0
HasUniqueIds [] = Unit
HasUniqueIds (c ∷ cs) = (config_of c.id cs ≡ none) × HasUniqueIds cs

module _ (create : InstanceConfig → Option ℕ) where
  abbrev running_of : InstanceConfig → Option ℕ → Option Running
  running_of c none = none
  running_of c (some i) = some (record { version = c.version; instance_id = i })

  -- A new instance of a configuration, if it can be created.
  abbrev pub created : InstanceConfig → Option Running
  created c = running_of c (create c)

  -- What is to run for a configuration when `old` runs: the old instance if it has the version.
  abbrev pub wanted : InstanceConfig → (old : Option Running) → Option Running
  wanted c none = created c
  wanted c (some r) = if r.version == c.version then some r else created c

  -- What is to run under an id.
  abbrev pub wanted_under : Option InstanceConfig → (old : Option Running) → Option Running
  wanted_under none old = none
  wanted_under (some c) old = wanted c old

  at_key : (i k : ℕ) (d : Dict Running) → (i == k) ≡ true → lookup k d ≡ lookup i d
  at_key i k d same = subst (λ j. lookup j d ≡ lookup i d) ((==_iff i k).0 same) refl

  lookup-put_new :
      (c : InstanceConfig) (made : Option ℕ) (k : ℕ) (d : Dict Running)
      → lookup c.id d ≡ none
      → lookup k (put_new create c made d) ≡ (if c.id == k then running_of c made else lookup k d)
  unfolding put_new
  lookup-put_new c none k d free = ground (arith, at_key c.id k d)
  lookup-put_new c (some i) k d free =
      lookup-insert c.id k (record { version = c.version; instance_id = i }) d

  lookup-start_one :
      (c : InstanceConfig) (k : ℕ) (d : Dict Running)
      → lookup c.id d ≡ none
      → lookup k (start_one create c d) ≡ (if c.id == k then created c else lookup k d)
  unfolding start_one
  lookup-start_one c k d free = lookup-put_new c (create c) k d free

  lookup-renew :
      (c : InstanceConfig) (old : Option Running) (k : ℕ) (d : Dict Running)
      → lookup c.id d ≡ old
      → lookup k (renew create c old d) ≡ (if c.id == k then wanted c old else lookup k d)
  unfolding renew
  lookup-renew c none k d free = lookup-start_one c k d free
  lookup-renew c (some r) k d is_old = ground (
    arith,
    at_key c.id k d,
    lookup-erase c.id c.id d,
    lookup-erase c.id k d,
    lookup-start_one c k (erase c.id d),
  )

  pick :
      (b : Bool) (x y z : Option Running)
      → (b ≡ true → x ≡ y)
      → (if b then x else z) ≡ (if b then y else z)
  pick true x y z h = h refl
  pick false x y z h = refl

  lookup-update_one :
      (c : InstanceConfig) (k : ℕ) (d : Dict Running)
      → lookup k (update_one create c d) ≡ (if c.id == k then wanted c (lookup k d) else lookup k d)
  unfolding update_one
  lookup-update_one c k d =
      lookup-renew c (lookup c.id d) k d refl
      ∙ pick (c.id == k) _ _ (lookup k d) (λ e. ap (wanted c) (sym (at_key c.id k d e)))

  same_config :
      (j k : ℕ) (cs : List InstanceConfig) → (j == k) ≡ true → config_of k cs ≡ config_of j cs
  same_config j k cs same = subst (λ i. config_of i cs ≡ config_of j cs) ((==_iff j k).0 same) refl

  lookup-stop_missing :
      (k : ℕ) (ks : List ℕ) (cs : List InstanceConfig) (d : Dict Running)
      → lookup k (stop_missing create ks cs d)
        ≡ (if is_some (config_of k cs) then lookup k d else if elem k ks then none else lookup k d)
  unfolding stop_missing
  lookup-stop_missing k [] cs d = ground arith
  lookup-stop_missing k (j ∷ ks) cs d =
      let rest = if is_some (config_of j cs) then d else erase j d in
      ground (arith, lookup-stop_missing k ks cs rest, lookup-erase j k d, same_config j k cs)

  taken : (b : Bool) (x y : Option Running) → b ≡ true → (if b then x else y) ≡ x
  taken b x y e = rw e refl

  passed : (b : Bool) (x y : Option Running) → b ≡ false → (if b then x else y) ≡ y
  passed b x y e = rw e refl

  -- What is under an id after the loop over the configurations.
  abbrev left_under : Option InstanceConfig → (old : Option Running) → Option Running
  left_under none old = old
  left_under (some c) old = wanted c old

  lookup-update_all :
      (k : ℕ) (cs : List InstanceConfig) (d : Dict Running)
      → HasUniqueIds cs
      → lookup k (update_all create cs d) ≡ left_under (config_of k cs) (lookup k d)
  unfolding update_all config_of
  lookup-update_all k [] d unique = refl
  lookup-update_all k (c ∷ cs) d unique =
      let ih = lookup-update_all k cs (update_one create c d) unique.1 in
      let one = lookup-update_one c k d in
      elim (Bool-cases (c.id == k)) [
        | inl e ↦
            let gone : config_of k cs ≡ none = same_config c.id k cs e ∙ unique.0 in
            let fresh : lookup k (update_one create c d) ≡ wanted c (lookup k d) =
              one ∙ taken (c.id == k) _ _ e in
            rw e (ih ∙ (rw gone fresh))
        | inr e ↦
            let kept : lookup k (update_one create c d) ≡ lookup k d =
              one ∙ passed (c.id == k) _ _ e in
            rw e (ih ∙ ap (left_under (config_of k cs)) kept)
      ]

  elem-keys : (k : ℕ) (d : Dict Running) → elem k (keys d) ≡ false → lookup k d ≡ none
  unfolding lookup
  elem-keys k [] h = refl
  elem-keys k ((i, r) ∷ rest) h = ground (arith, elem-keys k rest)

  settle :
      (o : Option InstanceConfig) (old : Option Running) (known : Bool)
      → (known ≡ false → old ≡ none)
      → left_under o (if is_some o then old else if known then none else old) ≡ wanted_under o old
  settle (some c) old known h = refl
  settle none old true h = refl
  settle none old false h = h refl

  -- With configurations of different ids, `reload` leaves exactly what is wanted under every id: nothing
  -- where no configuration is enabled, the same instance where the version has not changed, and
  -- elsewhere a new instance of the configuration, or nothing if it cannot be created.
  pub reload_reconciles :
      (k : ℕ) (cs : List InstanceConfig) (p : Pool)
      → HasUniqueIds cs
      → lookup k (reload create cs p).0.instances
        ≡ wanted_under (config_of k cs) (lookup k p.instances)
  unfolding reload
  reload_reconciles k cs p unique =
      let d = p.instances in
      lookup-update_all k cs (stop_missing create (keys d) cs d) unique
      ∙ ap (left_under (config_of k cs)) (lookup-stop_missing k (keys d) cs d)
      ∙ settle (config_of k cs) (lookup k d) (elem k (keys d)) (elem-keys k d)

  running_of-wanted :
      (c : InstanceConfig) (made : Option ℕ)
      → created c ≡ running_of c made
      → wanted c (running_of c made) ≡ running_of c made
  running_of-wanted c none e = e
  running_of-wanted c (some i) e = ground arith

  wanted-wanted :
      (c : InstanceConfig) (old : Option Running) → wanted c (wanted c old) ≡ wanted c old
  wanted-wanted c none = running_of-wanted c (create c) refl
  wanted-wanted c (some r) = elim (Bool-cases (r.version == c.version)) [
    | inl e ↦ rw e (rw e refl)
    | inr e ↦ rw e (running_of-wanted c (create c) refl)
  ]

  wanted_under-wanted_under :
      (o : Option InstanceConfig) (old : Option Running)
      → wanted_under o (wanted_under o old) ≡ wanted_under o old
  wanted_under-wanted_under none old = refl
  wanted_under-wanted_under (some c) old = wanted-wanted c old

  -- With configurations of different ids, a second `reload` of the same configurations leaves the same
  -- instance, or none, under every id.
  pub reload_twice :
      (k : ℕ) (cs : List InstanceConfig) (p : Pool)
      → HasUniqueIds cs
      → let p' = (reload create cs p).0 in
        lookup k (reload create cs p').0.instances ≡ lookup k p'.instances
  reload_twice k cs p unique =
      let once = reload_reconciles k cs p unique in
      reload_reconciles k cs (reload create cs p).0 unique
      ∙ ap (wanted_under (config_of k cs)) once
      ∙ wanted_under-wanted_under (config_of k cs) (lookup k p.instances)
      ∙ sym once
