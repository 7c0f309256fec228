-- ===== src/Gather/Laws.antt =====
-- Every evaluator is gathered once, and none waits on a channel.
use awesome_patterns.Base.{
  ◌+◌, ◌≤◌, ◌≡◌, ◌≢◌, refl, sym, ap, ◌∙◌, false, List, [], ◌∷◌, ◌++◌, append-nil, append_assoc,
  length, length-append, arith,
}
use awesome_patterns.Channel.{make, try_send}
use awesome_patterns.Gather.{Evaluated, result, failed, Channels, stuck, send, send_all, gather_all}

module _ {R E : Type 0} where
  -- The results and the errors of a list of outcomes.
  abbrev pub results : List (Evaluated R E) → List R
  results [] = []
  results (result r ∷ os) = r ∷ results os
  results (failed e ∷ os) = results os

  abbrev pub failures : List (Evaluated R E) → List E
  failures [] = []
  failures (result r ∷ os) = failures os
  failures (failed e ∷ os) = e ∷ failures os

  length-parts :
      (os : List (Evaluated R E)) → length (results os) + length (failures os) ≡ length os
  length-parts [] = refl
  length-parts (result r ∷ os) = omega (arith, length-parts os)
  length-parts (failed e ∷ os) = omega (arith, length-parts os)

  gather_all-from :
      (os : List (Evaluated R E)) (out : List R) (errs : List E)
      → gather_all os out errs ≡ (out ++ results os, errs ++ failures os)
  unfolding gather_all
  gather_all-from [] out errs = λ i. (sym (append-nil out) i, sym (append-nil errs) i)
  gather_all-from (result r ∷ os) out errs =
      gather_all-from os (out ++ r ∷ []) errs
      ∙ ap (λ x. (x, errs ++ failures os)) (append_assoc out (r ∷ []) (results os))
  gather_all-from (failed e ∷ os) out errs =
      gather_all-from os out (errs ++ e ∷ [])
      ∙ ap (λ x. (out ++ results os, x)) (append_assoc errs (e ∷ []) (failures os))

  -- The loop returns the results and the errors that arrive, each in the order of arrival, and as
  -- many of both together as arrive.
  gather_all_lem :
      (os : List (Evaluated R E))
      → (gather_all os [] [] ≡ (results os, failures os))
        × (length (gather_all os [] []).0 + length (gather_all os [] []).1 ≡ length os)
  gather_all_lem os =
      let g = gather_all-from os [] [] in (g, ap (λ p. length p.0 + length p.1) g ∙ length-parts os)

  send_all-fits :
      (os : List (Evaluated R E)) (c : Channels R E)
      → c.gather.closed ≡ false
      → c.errors.closed ≡ false
      → length c.gather.buffer + length os ≤ c.gather.capacity
      → length c.errors.buffer + length os ≤ c.errors.capacity
      → send_all os c ≢ stuck
  unfolding send_all send try_send
  send_all-fits [] c p q a b = ground arith
  send_all-fits (result r ∷ os) c p q a b = ground (
    arith,
    send_all-fits os (record c { gather = record c.gather { buffer = c.gather.buffer ++ r ∷ [] } }),
    length-append c.gather.buffer (r ∷ []),
  )
  send_all-fits (failed e ∷ os) c p q a b = ground (
    arith,
    send_all-fits os (record c { errors = record c.errors { buffer = c.errors.buffer ++ e ∷ [] } }),
    length-append c.errors.buffer (e ∷ []),
  )

  -- With two channels that have room for one value of each evaluator, the sends of all evaluators
  -- end even if nothing is received: no goroutine is left waiting.
  send_all-ends :
      (os : List (Evaluated R E))
      → send_all os (record { gather = make (length os); errors = make (length os) }) ≢ stuck
  send_all-ends os =
      send_all-fits os (record { gather = make (length os); errors = make (length os) }) refl refl
        (omega arith) (omega arith)
