-- ===== src/Base/Dict.antt =====
-- `Map<string, V>`: an association list in insertion order, as a JavaScript map iterates. Setting
-- a key that is there keeps its position.
use Prim.Native.String.{String}
use mathlib.Core.Path.{◌≡◌, refl, ap}
use mathlib.Core.List.{List, [], ◌∷◌, ◌++◌}
use mathlib.Core.Option.{Option, none, some}
use native.Mathlib.Omega.{arith}
use sync_engine_v.Base.Tests.{if◌then◌else◌}
use sync_engine_v.Base.Texts.{str_eq, str_eq_iff, str_eq_refl}

abbrev pub Dict {ℓ} : Type ℓ → Type ℓ
Dict V = List (String × V)

module _ {ℓ} {V : Type ℓ} where
  -- `map.get(k)`
  unfoldable pub lookup : String → Dict V → Option V
  lookup k [] = none
  lookup k ((j, v) ∷ m) = if str_eq j k then some v else lookup k m

  -- `map.set(k, v)`
  unfoldable pub put : String → V → Dict V → Dict V
  put k v [] = (k, v) ∷ []
  put k v ((j, w) ∷ m) = if str_eq j k then (j, v) ∷ m else (j, w) ∷ put k v m

  -- `for (const [k, v] of extra) map.set(k, v)`
  unfoldable pub put_all : Dict V → Dict V → Dict V
  put_all m [] = m
  put_all m ((k, v) ∷ extra) = put_all (put k v m) extra

  -- `[...map.values()]`
  unfoldable pub values : Dict V → List V
  values [] = []
  values ((k, v) ∷ m) = v ∷ values m

  -- `a ?? b`
  abbrev pub or_else : Option V → Option V → Option V
  or_else (some v) o = some v
  or_else none o = o

  pub lookup-put :
      (k j : String) (v : V) (m : Dict V)
      → lookup j (put k v m) ≡ (if str_eq k j then some v else lookup j m)
  unfolding lookup put
  lookup-put k j v [] = refl
  lookup-put k j v ((i, w) ∷ m) =
      ground (arith, str_eq_iff k j, str_eq_iff i k, str_eq_iff i j, lookup-put k j v m)

  pub lookup-put_self : (k : String) (v : V) (m : Dict V) → lookup k (put k v m) ≡ some v
  lookup-put_self k v m = rw (lookup-put k k v m, str_eq_refl k)

  -- A new key goes to the end.
  pub put-fresh :
      (k : String) (v : V) (m : Dict V) → lookup k m ≡ none → put k v m ≡ m ++ (k, v) ∷ []
  unfolding lookup put
  put-fresh k v [] h = refl
  put-fresh k v ((i, w) ∷ m) h = ground (arith, put-fresh k v m)

  pub lookup-append :
      (k : String) (m extra : Dict V)
      → lookup k (m ++ extra) ≡ or_else (lookup k m) (lookup k extra)
  unfolding lookup
  lookup-append k [] extra = refl
  lookup-append k ((j, v) ∷ m) extra = ground (arith, lookup-append k m extra)

  pub values-append : (m extra : Dict V) → values (m ++ extra) ≡ values m ++ values extra
  unfolding values
  values-append [] extra = refl
  values-append ((j, v) ∷ m) extra = ap (λ vs. v ∷ vs) (values-append m extra)

  put_all-append :
      (m extra : Dict V) (k : String) (v : V)
      → put_all m (extra ++ (k, v) ∷ []) ≡ put k v (put_all m extra)
  unfolding put_all
  put_all-append m [] k v = refl
  put_all-append m ((j, w) ∷ extra) k v = put_all-append (put j w m) extra k v

module _ {ℓ} {V : Type ℓ} where
  -- Setting all of `extra` in `m` gives a map in which the entries of `extra` come first.
  pub record Overlays (m extra : Dict V) : Type ℓ where
    pub at : (k : String) → lookup k (put_all m extra) ≡ or_else (lookup k extra) (lookup k m)

  pub Overlays-nil : (m : Dict V) → Overlays m []
  unfolding put_all lookup
  Overlays-nil m = record { at = λ k. refl }

  pub put_all-put :
      (m extra : Dict V) (k : String) (v : V)
      → lookup k extra ≡ none
      → put_all m (put k v extra) ≡ put k v (put_all m extra)
  put_all-put m extra k v h = rw (put-fresh k v extra h) (put_all-append m extra k v)

  pub Overlays-put :
      (m extra : Dict V) (k : String) (v : V)
      → lookup k extra ≡ none
      → Overlays m extra
      → Overlays m (put k v extra)
  Overlays-put m extra k v h o = record {
    at = λ j.
        rw (put_all-put m extra k v h)
          (ground (arith, lookup-put k j v (put_all m extra), lookup-put k j v extra, o.at j));
  }
