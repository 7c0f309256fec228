-- ===== src/Patterns/Registry/Laws.antt =====
-- What the methods of the registry promise one another.
use awesome_patterns.Base.{String, ◌≡◌, ◌≢◌, refl, List, [], ◌∷◌, ◌++◌, Option, none, some, arith}
use awesome_patterns.Patterns.Registry.{
  find, remove, id_not_found, name_already_registered, ok, err, panics, Registry, new, index,
  deregister, get, prune_entries, prune, register, register_name,
}

module _ {V : Type 0} where
  find-remove_self : (k : String) (m : List (String × V)) → find k (remove k m) ≡ none
  unfolding find remove
  find-remove_self k [] = refl
  find-remove_self k ((j, v) ∷ m) = ground (arith, find-remove_self k m)

  find-remove_ne : (k j : String) (m : List (String × V)) → k ≢ j → find j (remove k m) ≡ find j m
  unfolding find remove
  find-remove_ne k j [] h = refl
  find-remove_ne k j ((i, v) ∷ m) h = ground (arith, find-remove_ne k j m h)

module _ {D : Type 0} where
  -- A registry from `New` finds nothing, and its first registration panics: the map was never made.
  new_panics :
      (v : Option D) (id : String) (ids : List String)
      → (register_name new v id ≡ panics)
        × (register new v (id ∷ ids) ≡ some panics)
        × (get (new {D = D}) id ≡ err (id_not_found id))
        × (deregister (new {D = D}) id ≡ err (id_not_found id))
  unfolding new register_name register get deregister
  new_panics v id ids = (refl, refl, refl, refl)

  -- Where a name is free, registering makes it, and no other name, give back the data; deregistering
  -- it then leaves every name as it was.
  register_name-get :
      (m : List (String × Option D)) (v : Option D) (id : String)
      → find id m ≡ none
      → (r s : Registry D) × (register_name (record { entries = some m }) v id ≡ ok r)
        × (get r id ≡ ok v)
        × ((j : String) → id ≢ j → get r j ≡ get (record { entries = some m }) j)
        × (deregister r id ≡ ok s)
        × ((j : String) → get s j ≡ get (record { entries = some m }) j)
  unfolding register_name get deregister find
  register_name-get m v id h = (
    record { entries = some ((id, v) ∷ remove id m) },
    record { entries = some (remove id ((id, v) ∷ remove id m)) },
    ground arith,
    ground arith,
    λ j n. ground (arith, find-remove_ne id j m),
    ground arith,
    λ j. ground (
      arith,
      find-remove_ne id j m,
      find-remove_ne id j (remove id m),
      find-remove_self id (remove id m),
    ),
  )

  -- A name that is taken is refused with its name, and the registry is left as it was.
  pub register_name-taken :
      (reg : Registry D) (v old : Option D) (id : String)
      → get reg id ≡ ok old
      → register_name reg v id ≡ err (name_already_registered id)
  unfolding register_name get index
  register_name-taken reg v old id h = ground arith

  -- The keys of a Go map are distinct.
  abbrev pub Unique : List (String × Option D) → Type 0
  Unique [] = Unit
  Unique ((k, v) ∷ m) = (find k m ≡ none) × Unique m

  find-prune :
      (k : String) (m : List (String × Option D))
      → Unique m
      → find k (prune_entries m)
        ≡ (elim (find k m) [ some (some d) ↦ some (some d) | some none ↦ none | none ↦ none ])
  unfolding find prune_entries
  find-prune k [] u = refl
  find-prune k ((j, none) ∷ m) u = ground (arith, find-prune k m u.1)
  find-prune k ((j, some d) ∷ m) u = ground (arith, find-prune k m u.1)

  -- After `Prune` just the names whose data is not nil are found, with their data.
  prune-get :
      (m : List (String × Option D)) (k : String)
      → Unique m
      → let before = get (record { entries = some m }) k in
        let after = get (prune (record { entries = some m })) k in
        ((d : D) → before ≡ ok (some d) → after ≡ ok (some d))
        × (before ≡ ok none → after ≡ err (id_not_found k))
        × (before ≡ err (id_not_found k) → after ≡ err (id_not_found k))
  unfolding get prune
  prune-get m k u = (
    λ d h. ground (arith, find-prune k m u),
    λ h. ground (arith, find-prune k m u),
    λ h. ground (arith, find-prune k m u),
  )

  -- All of the names are taken.
  abbrev pub Taken : List (String × Option D) → List String → Type 0
  Taken m [] = Unit
  Taken m (id ∷ ids) = (find id m ≢ none) × Taken m ids

  -- `Register` ends as soon as the library makes an identifier that is free, past any number of
  -- collisions; it registers the data under that one, as `RegisterName` would, and returns it.
  register-finds_free :
      (m : List (String × Option D)) (v : Option D) (collisions rest : List String) (id : String)
      → Taken m collisions
      → find id m ≡ none
      → (r : Registry D) × (register (record { entries = some m }) v (collisions ++ id ∷ rest)
          ≡ some (ok (r, id)))
        × (register_name (record { entries = some m }) v id ≡ ok r)
        × (get r id ≡ ok v)
  unfolding register register_name get find
  register-finds_free m v [] rest id t h =
      (record { entries = some ((id, v) ∷ remove id m) }, ground arith, ground arith, ground arith)
  register-finds_free m v (c ∷ cs) rest id t h =
      let (r, a, b, g) = register-finds_free m v cs rest id t.1 h in (r, ground (arith, t.0), b, g)
