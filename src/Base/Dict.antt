-- ===== src/Base/Dict.antt =====
-- A Python dict: an association list in insertion order.
use mathlib.Core.Path.{◌≡◌, refl}
use mathlib.Core.Bool.{Bool, true, false}
use mathlib.Core.Option.{Option, none, some}
use mathlib.Core.List.{List, [], ◌∷◌, map}
use native.Mathlib.Omega.{arith}
use subnet.Base.Tests.{Eq, ◌==◌, if◌then◌else◌, beq_self}

abbrev pub Dict : Type 0 → Type 0 → Type 0
Dict K V = List (K × V)

abbrev pub keys : {K V : Type 0} → Dict K V → List K
keys d = map (λ e. e.0) d

module _ {K V : Type 0} ⦃e : Eq K⦄ where
  -- `d.get(k)`
  abbrev pub lookup : K → Dict K V → Option V
  lookup k [] = none
  lookup k ((key, value) ∷ rest) = if k == key then some value else lookup k rest

  -- `d.get(k, fallback)`
  abbrev pub get : K → V → Dict K V → V
  get k fallback d = elim (lookup k d) [ none ↦ fallback | some v ↦ v ]

  -- `k in d`
  abbrev pub contains : K → Dict K V → Bool
  contains k d = elim (lookup k d) [ none ↦ false | some _ ↦ true ]

  -- `d[k] = v`: a known key keeps its place, a new one goes last.
  abbrev pub set : K → V → Dict K V → Dict K V
  set k v [] = (k, v) ∷ []
  set k v (entry ∷ d) = if k == entry.0 then (k, v) ∷ d else entry ∷ set k v d

  pub lookup-set_self : (k : K) (v : V) (d : Dict K V) → lookup k (set k v d) ≡ some v
  lookup-set_self k v [] = rw (beq_self k)
  lookup-set_self k v (x ∷ d) = ground (arith, beq_self k, lookup-set_self k v d)

  pub lookup-set :
      (j k : K) (v : V) (d : Dict K V)
      → lookup j (set k v d) ≡ (if j == k then some v else lookup j d)
  lookup-set j k v [] = refl
  lookup-set j k v (x ∷ d) =
      ground (arith, lookup-set j k v d, e.beq_iff k x.0, e.beq_iff j x.0, e.beq_iff j k)
