-- ===== src/SignalClient/Delivery.antt =====
-- How often a signal is called back (signal_client.py).
use poly_strategy.Prelude.{
  ℕ, suc, ◌+◌, ◌-◌, ◌≤◌, ◌<◌, ◌≡◌, refl, sym, false, Bool-cases, Option, none, some, List, [], ◌∷◌,
  arith, ◌⊎◌, inl, inr, Dict, lookup, insert, lookup-insert, contains, ltb, length,
}
use poly_strategy.SignalDedup.{Deduplicator, evict, is_duplicate}
use poly_strategy.SignalDedup.Window.{
  IsValid, is_duplicate_exact, is_duplicate-IsValid, recorded, length-evict-le, length-insert,
  Ascending-hi,
}
use poly_strategy.SignalClient.{Message, signal_of, handle_signal, handle_message, deliver, listen}

-- The clock of the messages starts at `hi` and does not go back.
unfoldable pub IsOrdered : ℕ → List (ℕ × Message) → Type 0
IsOrdered hi [] = Unit
IsOrdered hi ((now, m) ∷ rest) = (hi ≤ now) × IsOrdered now rest

-- Every call of `key` comes more than `ttl` after the time `t`.
unfoldable pub IsLater : (ttl key t : ℕ) → List (ℕ × ℕ) → Type 0
IsLater ttl key t [] = Unit
IsLater ttl key t ((now, k) ∷ calls) = ((k ≡ key) → ttl < now - t) × IsLater ttl key t calls

-- Any two calls of the same signal are more than `ttl` apart.
unfoldable pub IsApart : (ttl : ℕ) → List (ℕ × ℕ) → Type 0
unfolding IsLater
IsApart ttl [] = Unit
IsApart ttl ((now, k) ∷ calls) = IsLater ttl k now calls × IsApart ttl calls

-- What a call at the time `now` makes of a deduplicator with room.
unfoldable pub Follows : (now : ℕ) → Deduplicator → Deduplicator → Type 0
Follows now d d' =
    IsValid now d'
    × (d'.ttl ≡ d.ttl)
    × (d'.max_size ≡ d.max_size)
    × (length d'.seen ≤ suc (length d.seen))

at_later : (hi now : ℕ) (d : Deduplicator) → hi ≤ now → IsValid hi d → IsValid now d
at_later hi now d le v = record {
  once = v.once;
  ordered = Ascending-hi 0 hi now d.seen le v.ordered;
  bounded = v.bounded;
}

lookup-evict :
    (ttl now k t : ℕ) (s : Dict ℕ)
    → lookup k s ≡ some t
    → (lookup k (evict ttl now s) ≡ some t) ⊎ (ttl < now - t)
unfolding lookup evict
lookup-evict ttl now k t [] e = inl e
lookup-evict ttl now k t ((i, u) ∷ rest) e = ground (arith, lookup-evict ttl now k t rest)

lookup-added :
    (k key now t : ℕ) (s : Dict ℕ)
    → contains key s ≡ false
    → lookup k s ≡ some t
    → lookup k (insert key now s) ≡ some t
lookup-added k key now t s new e =
    ground (arith, lookup-insert k key now s, lookup-insert key k now s)

no_drop :
    (now key : ℕ) (d : Deduplicator)
    → length d.seen < d.max_size
    → contains key (evict d.ttl now d.seen) ≡ false
    → ltb d.max_size (length (insert key now (evict d.ttl now d.seen))) ≡ false
no_drop now key d room new =
    rw (length-insert key now (evict d.ttl now d.seen) new)
      (ground (arith, length-evict-le d.ttl now d.seen))

-- An entry stays while there is room, or is too old.
lookup-is_duplicate :
    (now key k t : ℕ) (d : Deduplicator)
    → length d.seen < d.max_size
    → lookup k d.seen ≡ some t
    → (lookup k (is_duplicate now key d).0.seen ≡ some t) ⊎ (d.ttl < now - t)
unfolding is_duplicate
lookup-is_duplicate now key k t d room e =
    let kept = evict d.ttl now d.seen in
    elim (Bool-cases (contains key kept)) [
      | inl old ↦ rw old (lookup-evict d.ttl now k t d.seen e)
      | inr new ↦ elim (lookup-evict d.ttl now k t d.seen e) [
        | inl there ↦
            inl (rw (new, no_drop now key d room new) (lookup-added k key now t kept new there))
        | inr late ↦ inr late
      ]
    ]

length-is_duplicate :
    (now key : ℕ) (d : Deduplicator)
    → length d.seen < d.max_size
    → length (is_duplicate now key d).0.seen ≤ suc (length d.seen)
unfolding is_duplicate
length-is_duplicate now key d room =
    let kept = evict d.ttl now d.seen in
    let shorter = length-evict-le d.ttl now d.seen in
    elim (Bool-cases (contains key kept)) [
      | inl old ↦ rw old (omega arith)
      | inr new ↦
          rw (new, no_drop now key d room new) (omega (arith, length-insert key now kept new))
    ]

fields_kept :
    (now key : ℕ) (d : Deduplicator)
    → ((is_duplicate now key d).0.ttl ≡ d.ttl) × ((is_duplicate now key d).0.max_size ≡ d.max_size)
unfolding is_duplicate
fields_kept now key d = ground arith

is_duplicate-Follows :
    (hi now key : ℕ) (d : Deduplicator)
    → IsValid hi d
    → hi ≤ now
    → length d.seen < d.max_size
    → Follows now d (is_duplicate now key d).0
unfolding Follows
is_duplicate-Follows hi now key d v le room = (
  is_duplicate-IsValid hi now key d le v,
  (fields_kept now key d).0,
  (fields_kept now key d).1,
  length-is_duplicate now key d room,
)

-- A key that is taken as new has an entry that is too old, if it has one.
new_is_later :
    (hi now key t : ℕ) (d : Deduplicator)
    → IsValid hi d
    → hi ≤ now
    → lookup key d.seen ≡ some t
    → (is_duplicate now key d).1 ≡ false
    → d.ttl < now - t
new_is_later hi now key t d v le e new =
    ground (arith, is_duplicate_exact now key d (at_later hi now d le v))

stays_valid : (hi now : ℕ) (d : Deduplicator) → IsValid hi d → hi ≤ now → Follows now d d
unfolding Follows
stays_valid hi now d v le = (at_later hi now d le v, refl, refl, omega arith)

delivered-IsLater :
    (ttl k t now : ℕ) (s : Option ℕ) (l : List (ℕ × ℕ))
    → ttl < now - t
    → IsLater ttl k t l
    → IsLater ttl k t (deliver now s l)
unfolding IsLater deliver
delivered-IsLater ttl k t now none l f h = h
delivered-IsLater ttl k t now (some i) l f h = ((λ _. f), h)

-- What is called back once an entry is too old comes too late for it.
old-IsLater :
    (adapt : ℕ → Option ℕ) (ttl k t hi : ℕ) (ms : List (ℕ × Message)) (d : Deduplicator)
    → ttl < hi - t
    → IsOrdered hi ms
    → IsLater ttl k t (listen adapt ms d)
unfolding listen IsLater IsOrdered handle_message
old-IsLater adapt ttl k t hi [] d old o = tt
old-IsLater adapt ttl k t hi ((now, m) ∷ ms) d old o =
    let old' : ttl < now - t = ground (arith, o.0) in
    let (d', s) = handle_signal now (signal_of adapt m) d in
    delivered-IsLater ttl k t now s (listen adapt ms d') old'
      (old-IsLater adapt ttl k t now ms d' old' o.1)

step-IsLater :
    (k t hi now : ℕ) (s : Option ℕ) (d : Deduplicator) (l : Deduplicator → List (ℕ × ℕ))
    → IsValid hi d
    → hi ≤ now
    → length d.seen < d.max_size
    → lookup k d.seen ≡ some t
    → ((d' : Deduplicator)
        → Follows now d d'
        → lookup k d'.seen ≡ some t
        → IsLater d.ttl k t (l d'))
    → ((d' : Deduplicator) → d.ttl < now - t → IsLater d.ttl k t (l d'))
    → let (d', s') = handle_signal now s d in IsLater d.ttl k t (deliver now s' (l d'))
unfolding handle_signal IsLater deliver
step-IsLater k t hi now none d l v le room e next old = next d (stays_valid hi now d v le) e
step-IsLater k t hi now (some i) d l v le room e next old =
    let d' = (is_duplicate now i d).0 in
    let rest : IsLater d.ttl k t (l d') = elim (lookup-is_duplicate now i k t d room e) [
      | inl there ↦ next d' (is_duplicate-Follows hi now i d v le room) there
      | inr late ↦ old d' late
    ] in
    elim (Bool-cases (is_duplicate now i d).1) [
      | inl seen ↦ rw seen rest
      | inr new ↦ rw new ((λ same. new_is_later hi now i t d v le (rw same e) new), rest)
    ]

-- What is called back is later than an entry of its key.
listen-IsLater :
    (adapt : ℕ → Option ℕ) (k t hi : ℕ) (ms : List (ℕ × Message)) (d : Deduplicator)
    → IsValid hi d
    → IsOrdered hi ms
    → length ms + length d.seen ≤ d.max_size
    → lookup k d.seen ≡ some t
    → IsLater d.ttl k t (listen adapt ms d)
unfolding listen IsLater IsOrdered handle_message Follows
listen-IsLater adapt k t hi [] d v o room e = tt
listen-IsLater adapt k t hi ((now, m) ∷ ms) d v o room e =
    step-IsLater k t hi now (signal_of adapt m) d (listen adapt ms) v o.0 (omega arith) e
      (λ d' f there.
        rw (sym f.1) (listen-IsLater adapt k t now ms d' f.0 o.1 (omega (arith, f.2, f.3)) there))
      (λ d' late. old-IsLater adapt d.ttl k t now ms d' late o.1)

step-IsApart :
    (hi now : ℕ) (s : Option ℕ) (d : Deduplicator) (l : Deduplicator → List (ℕ × ℕ))
    → IsValid hi d
    → hi ≤ now
    → length d.seen < d.max_size
    → ((d' : Deduplicator) → Follows now d d' → IsApart d.ttl (l d'))
    → ((d' : Deduplicator) (i : ℕ)
        → Follows now d d'
        → lookup i d'.seen ≡ some now
        → IsLater d.ttl i now (l d'))
    → let (d', s') = handle_signal now s d in IsApart d.ttl (deliver now s' (l d'))
unfolding handle_signal IsApart deliver
step-IsApart hi now none d l v le room next later = next d (stays_valid hi now d v le)
step-IsApart hi now (some i) d l v le room next later =
    let d' = (is_duplicate now i d).0 in
    let f = is_duplicate-Follows hi now i d v le room in
    elim (Bool-cases (is_duplicate now i d).1) [
      | inl seen ↦ rw seen (next d' f)
      | inr new ↦ rw new (later d' i f (recorded now i d (omega arith) new), next d' f)
    ]

-- Whatever messages arrive on whatever connections, while the clock does not go back and the
-- deduplicator has room for all of them: two callbacks of a client for the same signal are more than
-- `ttl` apart.
pub listen-IsApart :
    (adapt : ℕ → Option ℕ) (hi : ℕ) (ms : List (ℕ × Message)) (d : Deduplicator)
    → IsValid hi d
    → IsOrdered hi ms
    → length ms + length d.seen ≤ d.max_size
    → IsApart d.ttl (listen adapt ms d)
unfolding listen IsApart IsOrdered handle_message Follows
listen-IsApart adapt hi [] d v o room = tt
listen-IsApart adapt hi ((now, m) ∷ ms) d v o room =
    step-IsApart hi now (signal_of adapt m) d (listen adapt ms) v o.0 (omega arith)
      (λ d' f. rw (sym f.1) (listen-IsApart adapt now ms d' f.0 o.1 (omega (arith, f.2, f.3))))
      (λ d' i f there.
        rw (sym f.1) (listen-IsLater adapt i now now ms d' f.0 o.1 (omega (arith, f.2, f.3)) there))
