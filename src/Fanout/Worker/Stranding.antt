-- ===== src/Fanout/Worker/Stranding.antt =====
-- How a message stays in the channel of a worker with no goroutine to process it.
use mathlib.Core.Path.{subst}
use awesome_patterns.Base.{
  ℕ, zero, suc, ◌<◌, ◌≡◌, ◌≢◌, refl, sym, ap, ℕ_discrete, Option, none, ◌∙◌, true, false, List, [],
  ◌∷◌, ◌++◌, some, arith, length, get_elem?, set, set-set, get_elem?-set_self, get_elem?-set_other,
  total-get_elem?,
}
use awesome_patterns.Channel.{try_send}
use awesome_patterns.Fanout.Worker.{
  Message, max_queue_size, StreamPc, sending, checking, leaving, unlocking, clearing, ended, Worker,
  Event, silent, sent, at, blocked, moves, on_send, on_stream, continue_stream, step, Reach, later,
}
use awesome_patterns.Fanout.Worker.Exclusion.{inside, Inv, Reach-Inv}

send_step :
    (w : Worker) (j : ℕ) (msg : Message)
    → Inv w
    → get_elem? w.streams j ≡ some (sending msg)
    → length w.chain.buffer < max_queue_size
    → step w (continue_stream j)
      ≡ moves
          (record (at w j checking) {
            chain = record (w.chain) { buffer = w.chain.buffer ++ msg ∷ [] };
          })
          (sent msg)
unfolding step on_stream on_send try_send
send_step w j msg v f b = ground (arith, v)

check_step :
    (w : Worker) (j : ℕ)
    → get_elem? w.streams j ≡ some checking
    → w.running ≡ true
    → step w (continue_stream j) ≡ moves (at w j ended) silent
unfolding step on_stream
check_step w j f a = ground arith

-- The last steps of `stream`, in the deferred function.
leaves :
    {idle : ℕ} {w : Worker} {es : List Event}
    → Reach idle w es
    → (i : ℕ) → get_elem? w.streams i ≡ some leaving
    → Reach idle
        (record (at w i ended) { locked = false; running = false })
        (silent ∷ silent ∷ silent ∷ es)
unfolding step on_stream
leaves {idle = idle} {w = w} {es = es} r i e =
    let s1 = at w i unlocking in
    let s2 = record (at s1 i clearing) { locked = false } in
    let e1 = get_elem?-set_self w.streams i unlocking e in
    let e2 = get_elem?-set_self s1.streams i clearing e1 in
    let lock = (Reach-Inv r).lock in
    let unlocks : step s1 (continue_stream i) ≡ moves s2 silent =
      ground (arith, e1, lock, total-get_elem? inside w.streams i e) in
    let r1 = later r (continue_stream i) (ap (on_stream w i) e) in
    let r2 = later {w' = s2} {e = silent} r1 (continue_stream i) unlocks in
    let r3 = later r2 (continue_stream i) (ap (on_stream s2 i) e2) in
    subst
      (λ ps.
        Reach idle (record w { streams = ps; locked = false; running = false })
          (silent ∷ silent ∷ silent ∷ es))
      (set-set (set w.streams i unlocking) i clearing ended ∙ set-set w.streams i unlocking ended)
      r3

-- A goroutine that has ended makes no step.
ended_step :
    (w : Worker) (k : ℕ) (o : Option StreamPc)
    → get_elem? w.streams k ≡ o
    → ((p : StreamPc) → o ≡ some p → p ≡ ended)
    → step w (continue_stream k) ≡ blocked
unfolding step on_stream
ended_step w k none e h = ap (on_stream w k) e
ended_step w k (some p) e h = ap (on_stream w k) (e ∙ ap some (h p refl))

set_here :
    (ps : List StreamPc) (i : ℕ) (c : StreamPc) → get_elem? (set ps i ended) i ≡ some c → c ≡ ended
set_here [] i c g = cc
set_here (p ∷ ps) zero c g = cc
set_here (p ∷ ps) (suc i) c g = set_here ps i c g

-- Where two goroutines end and all others have ended, all have ended.
two_end :
    (ps : List StreamPc) (i j : ℕ)
    → ((k : ℕ) (p : StreamPc) → k ≢ i → k ≢ j → get_elem? ps k ≡ some p → p ≡ ended)
    → {q : StreamPc} → get_elem? ps j ≡ some q
    → (k : ℕ) (c : StreamPc) → get_elem? (set (set ps j ended) i ended) k ≡ some c
    → c ≡ ended
two_end ps i j others f k c g = elim (ℕ_discrete i k) [
  | yes p ↦ at_first p
  | no p ↦ elim (ℕ_discrete j k) [
    | yes q ↦ at_second p q
    | no q ↦
        others k c (λ h. p (sym h)) (λ h. q (sym h))
          (sym (
              get_elem?-set_other (set ps j ended) i k ended p ∙ get_elem?-set_other ps j k ended q)
            ∙ g)
  ]
]
  where
    at_second : i ≢ k → j ≡ k → c ≡ ended
    at_second p q =
        let h = get_elem?-set_self ps j ended f in
        let a = get_elem?-set_other (set ps j ended) i k ended p in
        cc (sym g ∙ a, ap (get_elem? (set ps j ended)) (sym q) ∙ h)

    at_first : i ≡ k → c ≡ ended
    at_first p = set_here (set ps j ended) i c (ap (get_elem? (set (set ps j ended) i ended)) p ∙ g)

-- One goroutine is about to call `After`, with `running` set, another one is about to send a message
-- into a channel with room, and all others have ended. Then these two can go on so that they end
-- too, with the message in the channel: the second one sees that a goroutine is running, the first one
-- no longer receives. No goroutine can then make a step, so that the message stays in the channel
-- until `stream` is called again.
pub message_stranded :
    {idle : ℕ} {w : Worker} {es : List Event}
    → Reach idle w es
    → (i j : ℕ) (msg : Message) → get_elem? w.streams i ≡ some leaving
    → get_elem? w.streams j ≡ some (sending msg)
    → ((k : ℕ) (p : StreamPc) → k ≢ i → k ≢ j → get_elem? w.streams k ≡ some p → p ≡ ended)
    → w.running ≡ true
    → length w.chain.buffer < max_queue_size
    → (w' : Worker) × (new : List Event) × Reach idle w' (new ++ es)
      × (w'.chain.buffer ≡ w.chain.buffer ++ msg ∷ [])
      × (w'.streams ≡ set (set w.streams j ended) i ended)
      × (w'.running ≡ false)
      × (w'.locked ≡ false)
      × ((k : ℕ) → step w' (continue_stream k) ≡ blocked)
message_stranded {idle = idle} {w = w} {es = es} r i j msg e f others a b =
    let apart : j ≢ i = λ h. ground (arith, e, f, h) in
    let s1 = record (at w j checking) {
      chain = record (w.chain) { buffer = w.chain.buffer ++ msg ∷ [] };
    } in
    let r1 = later r (continue_stream j) (send_step w j msg (Reach-Inv r) f b) in
    let f1 = get_elem?-set_self w.streams j checking f in
    let r2 = later r1 (continue_stream j) (check_step s1 j f1 a) in
    let collapse = set-set w.streams j checking ended in
    let e2 =
      ap (λ ps. get_elem? ps i) collapse ∙ get_elem?-set_other w.streams j i ended apart ∙ e in
    let r3 = leaves r2 i e2 in
    (
      record (at s1 i ended) {
        streams = set (set (set w.streams j checking) j ended) i ended;
        running = false;
        locked = false;
      },
      silent ∷ silent ∷ silent ∷ silent ∷ sent msg ∷ [],
      r3,
      refl,
      ap (λ ps. set ps i ended) collapse,
      refl,
      refl,
      λ k.
          ended_step _ k (get_elem? (set (set (set w.streams j checking) j ended) i ended) k) refl
            (λ c g.
              two_end w.streams i j others f k c
                (sym (ap (λ ps. get_elem? (set ps i ended) k) collapse) ∙ g)),
    )
