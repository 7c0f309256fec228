-- ===== src/Patterns/Registry.antt =====
-- behavioral/registry/registry.go: a registry of data by name. A nil `interface{}` is `none`, and the
-- map is `none` where it is nil. The identifiers that the uuid library makes are arguments.
pub mod Laws
use awesome_patterns.Base.{String, ◌≡◌, List, [], ◌∷◌, Option, none, some, ite, string_discrete}

module _ {V : Type 0} where
  -- Entries of a Go map, each key once.
  pub find : String → List (String × V) → Option V
  find k [] = none
  find k ((j, v) ∷ m) = ite (string_discrete j k) (some v) (find k m)

  pub remove : String → List (String × V) → List (String × V)
  remove k [] = []
  remove k ((j, v) ∷ m) = ite (string_discrete j k) (remove k m) ((j, v) ∷ remove k m)

pub data Error : Type 0 where
  id_not_found : String → Error
  name_already_registered : String → Error

-- The result of a method: a value, an error, or a panic.
pub data Result (A : Type 0) : Type 0 where
  ok : A → Result A
  err : Error → Result A
  panics : Result A

-- `registry`: its map.
pub record Registry (D : Type 0) : Type 0 where
  pub entries : Option (List (String × Option D))

module _ {D : Type 0} where
  -- `New` leaves the map nil.
  pub new : Registry D
  new = record { entries = none }

  -- An index expression; on a nil map it finds nothing.
  pub index : Registry D → String → Option (Option D)
  unfolding find
  index reg id = elim reg.entries [ none ↦ none | some m ↦ find id m ]

  -- An assignment panics on a nil map.
  pub assign : Registry D → String → Option D → Result (Registry D)
  unfolding remove
  assign reg id v = elim reg.entries [
    | none ↦ panics
    | some m ↦ ok (record { entries = some ((id, v) ∷ remove id m) })
  ]

  pub delete : Registry D → String → Registry D
  unfolding remove
  delete reg id = elim reg.entries [ none ↦ reg | some m ↦ record { entries = some (remove id m) } ]

  pub deregister : Registry D → String → Result (Registry D)
  unfolding index delete
  deregister reg id = elim (index reg id) [
    | some v ↦ ok (delete reg id)
    | none ↦ err (id_not_found id)
  ]

  pub get : Registry D → String → Result (Option D)
  unfolding index
  get reg id = elim (index reg id) [ some v ↦ ok v | none ↦ err (id_not_found id) ]

  -- The loop of `Prune` over the entries.
  pub prune_entries : List (String × Option D) → List (String × Option D)
  prune_entries [] = []
  prune_entries ((k, none) ∷ m) = prune_entries m
  prune_entries ((k, some d) ∷ m) = (k, some d) ∷ prune_entries m

  pub prune : Registry D → Registry D
  unfolding prune_entries
  prune reg = elim reg.entries [ none ↦ reg | some m ↦ record { entries = some (prune_entries m) } ]

  -- `Register` with the identifiers that the library makes, in order; `none` where they run out.
  pub register : Registry D → Option D → List String → Option (Result (Registry D × String))
  unfolding index assign
  register reg v [] = none
  register reg v (id ∷ ids) =
      let again = register reg v ids in
      elim (index reg id) [
        | none ↦ (elim (assign reg id v) [
          | ok r ↦ some (ok (r, id))
          | err e ↦ some (err e)
          | panics ↦ some panics
        ])
        | some old ↦ again
      ]

  pub register_name : Registry D → Option D → String → Result (Registry D)
  unfolding index assign
  register_name reg v identifier = elim (index reg identifier) [
    | none ↦ assign reg identifier v
    | some old ↦ err (name_already_registered identifier)
  ]
