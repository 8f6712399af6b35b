-- ===== src/Prelude/Dictionaries.antt =====
-- Python dictionaries with number keys, in insertion order. Identifiers, token ids and prices are
-- keys; the programs only compare them. A written key keeps its place, and a removed key goes with
-- every entry of it.
use Prim.Native.Nat.{ℕ}
use mathlib.Core.Path.{◌≡◌, refl, subst}
use mathlib.Core.Logic.{inl, inr}
use mathlib.Core.Bool.{Bool}
use mathlib.Core.Option.{Option, none, some}
use mathlib.Core.List.{List, [], ◌∷◌}
use native.Mathlib.Omega.{arith}
use poly_strategy.Prelude.Tests.{◌==◌, ==_iff, Bool-cases, if◌then◌else◌, is_some}

abbrev pub Dict {ℓ} : Type ℓ → Type ℓ
Dict V = List (ℕ × V)

module _ {ℓ} {V : Type ℓ} where
  -- `d.get(k)`
  unfoldable pub lookup : ℕ → Dict V → Option V
  lookup k [] = none
  lookup k ((i, v) ∷ rest) = if i == k then some v else lookup k rest

  -- `d[k] = v`
  unfoldable pub insert : ℕ → V → Dict V → Dict V
  insert k v [] = (k, v) ∷ []
  insert k v ((i, w) ∷ rest) = if i == k then (k, v) ∷ rest else (i, w) ∷ insert k v rest

  -- `d.pop(k, None)`
  unfoldable pub erase : ℕ → Dict V → Dict V
  erase k [] = []
  erase k ((i, w) ∷ rest) = let tail = erase k rest in if i == k then tail else (i, w) ∷ tail

  -- `k in d`
  abbrev pub contains : ℕ → Dict V → Bool
  contains k d = is_some (lookup k d)

  pub lookup-insert :
      (k j : ℕ) (v : V) (d : Dict V)
      → lookup j (insert k v d) ≡ (if k == j then some v else lookup j d)
  unfolding lookup insert
  lookup-insert k j v [] = refl
  lookup-insert k j v ((i, w) ∷ rest) = ground (arith, lookup-insert k j v rest)

  pub lookup-erase :
      (k j : ℕ) (d : Dict V) → lookup j (erase k d) ≡ (if k == j then none else lookup j d)
  unfolding lookup erase
  lookup-erase k j [] = ground arith
  lookup-erase k j ((i, w) ∷ rest) = ground (arith, lookup-erase k j rest)

  -- No key stands twice.
  abbrev pub HasUniqueKeys : Dict V → Type ℓ
  HasUniqueKeys [] = Unit
  HasUniqueKeys ((i, w) ∷ rest) = (lookup i rest ≡ none) × HasUniqueKeys rest

  pub insert-HasUniqueKeys :
      (k : ℕ) (v : V) (d : Dict V) → HasUniqueKeys d → HasUniqueKeys (insert k v d)
  unfolding lookup insert
  insert-HasUniqueKeys k v [] h = (refl, tt)
  insert-HasUniqueKeys k v ((i, w) ∷ rest) h =
      ground (arith, insert-HasUniqueKeys k v rest h.1, lookup-insert k i v rest)

  pub erase-HasUniqueKeys : (k : ℕ) (d : Dict V) → HasUniqueKeys d → HasUniqueKeys (erase k d)
  unfolding lookup erase
  erase-HasUniqueKeys k [] h = tt
  erase-HasUniqueKeys k ((i, w) ∷ rest) h =
      ground (arith, erase-HasUniqueKeys k rest h.1, lookup-erase k i rest)

  -- A predicate of every entry.
  module _ (P : ℕ → V → Type 0) where
    abbrev pub Entries : Dict V → Type 0
    Entries [] = Unit
    Entries ((i, w) ∷ rest) = P i w × Entries rest

    pub insert-Entries : (k : ℕ) (v : V) (d : Dict V) → P k v → Entries d → Entries (insert k v d)
    unfolding insert
    insert-Entries k v [] p h = (p, tt)
    insert-Entries k v ((i, w) ∷ rest) p h = ground (arith, insert-Entries k v rest p h.1)

    pub erase-Entries : (k : ℕ) (d : Dict V) → Entries d → Entries (erase k d)
    unfolding erase
    erase-Entries k [] h = tt
    erase-Entries k ((i, w) ∷ rest) h = ground (arith, erase-Entries k rest h.1)

    pub lookup-Entries : (k : ℕ) (v : V) (d : Dict V) → Entries d → lookup k d ≡ some v → P k v
    unfolding lookup
    lookup-Entries k v [] h e = cc
    lookup-Entries k v ((i, w) ∷ rest) h e = elim (Bool-cases (i == k)) [
      | inl here ↦
          let same_key : i ≡ k = (==_iff i k).0 here in
          let same : w ≡ v = ground arith in subst (λ j. P j v) same_key (subst (P i) same h.0)
      | inr there ↦ lookup-Entries k v rest h.1 (ground arith)
    ]

pub ruleset dict_laws = (lookup-insert, lookup-erase)
