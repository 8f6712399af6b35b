-- ===== src/SignalDedup/Window.antt =====
-- A key is a duplicate exactly while its entry is inside the window (signal_dedup.py).
use poly_strategy.Prelude.{
  ℕ, suc, ◌-◌, ◌≤◌, ◌<◌, ◌≡◌, refl, Bool, true, false, Option, none, some, [], ◌∷◌, arith, Dict,
  lookup, insert, lookup-insert, contains, HasUniqueKeys, insert-HasUniqueKeys, ltb, leb,
  if◌then◌else◌, length, Bool-cases, inl, inr, Option-cases,
}
use poly_strategy.SignalDedup.{Deduplicator, evict, drop_oldest, is_duplicate}

-- Entries stand in the order of their times, from `lo` up to `hi`.
abbrev pub Ascending : ℕ → ℕ → Dict ℕ → Type 0
Ascending lo hi [] = lo ≤ hi
Ascending lo hi ((k, t) ∷ rest) = (lo ≤ t) × Ascending t hi rest

-- The invariant of the deduplicator: keys once, times in order and not after `hi`, and no more than
-- `max_size` entries.
pub record IsValid (hi : ℕ) (d : Deduplicator) : Type 0 where
  pub once : HasUniqueKeys d.seen
  pub ordered : Ascending 0 hi d.seen
  pub bounded : length d.seen ≤ d.max_size

-- A recorded time that is at most `ttl` old.
abbrev pub is_recent : (ttl now : ℕ) → Option ℕ → Bool
is_recent ttl now none = false
is_recent ttl now (some t) = leb (now - t) ttl

Ascending-lo : (lo l hi : ℕ) (s : Dict ℕ) → l ≤ lo → Ascending lo hi s → Ascending l hi s
Ascending-lo lo l hi [] h a = omega arith
Ascending-lo lo l hi ((k, t) ∷ rest) h a = (omega arith, a.1)

pub Ascending-hi : (lo hi h : ℕ) (s : Dict ℕ) → hi ≤ h → Ascending lo hi s → Ascending lo h s
Ascending-hi lo hi h [] le a = omega arith
Ascending-hi lo hi h ((k, t) ∷ rest) le a = (a.0, Ascending-hi t hi h rest le a.1)

-- What stands behind an entry is no older.
lookup-Ascending : (lo hi k t : ℕ) (s : Dict ℕ) → Ascending lo hi s → lookup k s ≡ some t → lo ≤ t
unfolding lookup
lookup-Ascending lo hi k t [] a e = cc
lookup-Ascending lo hi k t ((i, u) ∷ rest) a e = ground (arith, lookup-Ascending u hi k t rest a.1)

young_behind :
    (ttl now lo hi k : ℕ) (s : Dict ℕ)
    → Ascending lo hi s
    → now - lo ≤ ttl
    → is_recent ttl now (lookup k s) ≡ contains k s
young_behind ttl now lo hi k s a y = elim (Option-cases (lookup k s)) [
  | inl e ↦ rw e
  | inr (t, e) ↦ rw e (ground (arith, lookup-Ascending lo hi k t s a e))
]

-- After `_evict` the keys that are there are those with a recent entry.
contains-evict :
    (ttl now lo hi k : ℕ) (s : Dict ℕ)
    → HasUniqueKeys s
    → Ascending lo hi s
    → contains k (evict ttl now s) ≡ is_recent ttl now (lookup k s)
unfolding evict lookup
contains-evict ttl now lo hi k [] u a = refl
contains-evict ttl now lo hi k ((i, t) ∷ rest) u a =
    ground (arith, contains-evict ttl now t hi k rest u.1 a.1, young_behind ttl now t hi k rest a.1)

evict-HasUniqueKeys : (ttl now : ℕ) (s : Dict ℕ) → HasUniqueKeys s → HasUniqueKeys (evict ttl now s)
unfolding evict
evict-HasUniqueKeys ttl now [] u = tt
evict-HasUniqueKeys ttl now ((i, t) ∷ rest) u = ground (arith, evict-HasUniqueKeys ttl now rest u.1)

evict-Ascending :
    (ttl now lo hi : ℕ) (s : Dict ℕ) → Ascending lo hi s → Ascending lo hi (evict ttl now s)
unfolding evict
evict-Ascending ttl now lo hi [] a = a
evict-Ascending ttl now lo hi ((i, t) ∷ rest) a =
    ground (arith, evict-Ascending ttl now lo hi rest (Ascending-lo t lo hi rest a.0 a.1))

pub length-evict-le : (ttl now : ℕ) (s : Dict ℕ) → length (evict ttl now s) ≤ length s
unfolding evict
length-evict-le ttl now [] = omega arith
length-evict-le ttl now ((i, t) ∷ rest) = ground (arith, length-evict-le ttl now rest)

-- In a valid deduplicator whose entries are not later than now, `is_duplicate` answers true exactly if
-- the key has an entry that is at most `ttl` old.
pub is_duplicate_exact :
    (now key : ℕ) (d : Deduplicator)
    → IsValid now d
    → (is_duplicate now key d).1 ≡ is_recent d.ttl now (lookup key d.seen)
unfolding is_duplicate
is_duplicate_exact now key d v =
    ground (arith, contains-evict d.ttl now 0 now key d.seen v.once v.ordered)

insert-Ascending :
    (lo hi k : ℕ) (s : Dict ℕ)
    → contains k s ≡ false
    → Ascending lo hi s
    → Ascending lo hi (insert k hi s)
unfolding lookup insert
insert-Ascending lo hi k [] c a = (a, omega arith)
insert-Ascending lo hi k ((i, t) ∷ rest) c a = ground (arith, insert-Ascending t hi k rest)

pub length-insert :
    (k v : ℕ) (s : Dict ℕ) → contains k s ≡ false → length (insert k v s) ≡ suc (length s)
unfolding lookup insert
length-insert k v [] c = refl
length-insert k v ((i, t) ∷ rest) c = ground (arith, length-insert k v rest)

drop_oldest-HasUniqueKeys : (s : Dict ℕ) → HasUniqueKeys s → HasUniqueKeys (drop_oldest s)
unfolding drop_oldest
drop_oldest-HasUniqueKeys [] u = tt
drop_oldest-HasUniqueKeys (e ∷ rest) u = u.1

drop_oldest-Ascending :
    (lo hi : ℕ) (s : Dict ℕ) → Ascending lo hi s → Ascending lo hi (drop_oldest s)
unfolding drop_oldest
drop_oldest-Ascending lo hi [] a = a
drop_oldest-Ascending lo hi ((k, t) ∷ rest) a = Ascending-lo t lo hi rest a.0 a.1

length-drop_oldest : (s : Dict ℕ) → length (drop_oldest s) ≡ length s - 1
unfolding drop_oldest
length-drop_oldest [] = refl
length-drop_oldest (e ∷ rest) = omega arith

-- While the clock does not go back, a call keeps the invariant: each key once, times in order, and at
-- most `max_size` entries.
pub is_duplicate-IsValid :
    (hi now key : ℕ) (d : Deduplicator)
    → hi ≤ now
    → IsValid hi d
    → IsValid now (is_duplicate now key d).0
unfolding is_duplicate
is_duplicate-IsValid hi now key d le v =
    let kept = evict d.ttl now d.seen in
    let once = evict-HasUniqueKeys d.ttl now d.seen v.once in
    let later = Ascending-hi 0 hi now d.seen le v.ordered in
    let ordered = evict-Ascending d.ttl now 0 now d.seen later in
    let shorter = length-evict-le d.ttl now d.seen in
    elim (Bool-cases (contains key kept)) [
      | inl old ↦ rw old (record { once = once; ordered = ordered; bounded = omega arith })
      | inr new ↦
          let added = insert key now kept in
          let added_once = insert-HasUniqueKeys key now kept once in
          let added_ordered = insert-Ascending 0 now key kept new ordered in
          let added_length = length-insert key now kept new in
          elim (Bool-cases (ltb d.max_size (length added))) [
            | inl full ↦
                rw (new, full)
                  (record {
                    once = drop_oldest-HasUniqueKeys added added_once;
                    ordered = drop_oldest-Ascending 0 now added added_ordered;
                    bounded = omega (arith, length-drop_oldest added);
                  })
            | inr room ↦
                rw (new, room)
                  (record { once = added_once; ordered = added_ordered; bounded = ground arith })
          ]
    ]

lookup-drop_oldest :
    (k v : ℕ) (e : ℕ × ℕ) (s : Dict ℕ)
    → contains k (e ∷ s) ≡ false
    → lookup k (drop_oldest (insert k v (e ∷ s))) ≡ some v
unfolding lookup insert drop_oldest
lookup-drop_oldest k v (i, t) s c = ground (arith, lookup-insert k k v s)

newest_stays :
    (max_size k v : ℕ) (s : Dict ℕ)
    → 0 < max_size
    → contains k s ≡ false
    → let added = insert k v s in
      lookup k (if ltb max_size (length added) then drop_oldest added else added) ≡ some v
newest_stays max_size k v s pos c = elim (Bool-cases (ltb max_size (length (insert k v s)))) [
  | inl full ↦ rw full (long s c (ground (arith, length-insert k v s c)))
  | inr room ↦ rw room (ground (arith, lookup-insert k k v s))
]
  where
    long :
        (r : Dict ℕ)
        → contains k r ≡ false
        → 0 < length r
        → lookup k (drop_oldest (insert k v r)) ≡ some v
    long [] c h = absurd (omega arith)
    long (e ∷ r) c h = lookup-drop_oldest k v e r c

pub recorded :
    (now key : ℕ) (d : Deduplicator)
    → 0 < d.max_size
    → (is_duplicate now key d).1 ≡ false
    → lookup key (is_duplicate now key d).0.seen ≡ some now
unfolding is_duplicate
recorded now key d pos new = elim (Bool-cases (contains key (evict d.ttl now d.seen))) [
  | inl old ↦ ground arith
  | inr fresh ↦ rw fresh (newest_stays d.max_size key now (evict d.ttl now d.seen) pos fresh)
]

ttl_kept : (now key : ℕ) (d : Deduplicator) → (is_duplicate now key d).0.ttl ≡ d.ttl
unfolding is_duplicate
ttl_kept now key d = ground arith

-- A key that was taken as new is a duplicate at every later call within `ttl` of it, if no other call
-- comes between and the window holds at least one entry.
pub is_duplicate_again :
    (hi now later key : ℕ) (d : Deduplicator)
    → IsValid hi d
    → hi ≤ now
    → now ≤ later
    → later - now ≤ d.ttl
    → 0 < d.max_size
    → (is_duplicate now key d).1 ≡ false
    → (is_duplicate later key (is_duplicate now key d).0).1 ≡ true
is_duplicate_again hi now later key d v le late young pos new =
    let d' = (is_duplicate now key d).0 in
    let v' = is_duplicate-IsValid hi now key d le v in
    let valid : IsValid later d' = record {
      once = v'.once;
      ordered = Ascending-hi 0 now later d'.seen late v'.ordered;
      bounded = v'.bounded;
    } in
    ground
      (arith, is_duplicate_exact later key d' valid, recorded now key d pos new, ttl_kept now key d)
