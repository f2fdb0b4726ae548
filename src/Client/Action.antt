-- ===== src/Client/Action.antt =====
-- An asynchronous function of src/client that is awaited: it acts on a world and returns or throws.
use sync_engine_v.Base.{◌≡◌, refl, sym, ap}
use sync_engine_v.Errors.{Result, ok, err, ok-ne-err}

abbrev pub Action : Type 0 → Type 0 → Type 0
Action World Value = World → Result Value × World

module _ {World Value Next : Type 0} where
  abbrev pub go_on : (Value → Action World Next) → Result Value × World → Result Next × World
  go_on rest (err thrown, world) = (err thrown, world)
  go_on rest (ok value, world) = rest value world

  infixl 5 ◌>>=◌
  abbrev pub ◌>>=◌ : Action World Value → (Value → Action World Next) → Action World Next
  ◌>>=◌ first rest world = go_on rest (first world)

infixl 5 ◌>>◌
abbrev pub ◌>>◌ :
    {World Next : Type 0} → Action World (Unit {0}) → Action World Next → Action World Next
◌>>◌ first rest = first >>= λ done. rest

-- what is computed at once
abbrev pub lift : {World Value : Type 0} → Result Value → Action World Value
lift result world = (result, world)

module _ {World Value Next : Type 0} where
  -- If the whole returns, then the first part has, and the rest from its value and its world.
  pub >>=-returns :
      (first : Action World Value) (rest : Value → Action World Next) (world : World) {value : Next}
      {after : World}
      → (first >>= rest) world ≡ (ok value, after)
      → (v : Value) × (middle : World) × (first world ≡ (ok v, middle))
        × (rest v middle ≡ (ok value, after))
  >>=-returns first rest world {value} {after} h = split (first world) refl h
    where
      split :
          (r : Result Value × World)
          → first world ≡ r
          → go_on rest r ≡ (ok value, after)
          → (v : Value) × (middle : World) × (first world ≡ (ok v, middle))
            × (rest v middle ≡ (ok value, after))
      split (err e, middle) same h = absurd (ok-ne-err (sym (ap (λ r. r.0) h)))
      split (ok v, middle) same h = (v, middle, same, h)
