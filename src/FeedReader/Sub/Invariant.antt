-- ===== src/FeedReader/Sub/Invariant.antt =====
-- What holds in every reachable state of `sub.loop`.
use awesome_patterns.Base.{
  String, ℕ, ◌+◌, ◌<◌, ◌≡◌, refl, sym, ap, ◌∙◌, ◌≢◌, true, fun_ext, inl, inr, Option-cases,
  if◌then◌else◌, else-eq-some, then-eq-some, List, [], ◌∷◌, ◌++◌, none, some, arith, length,
  append_assoc,
}
use mathlib.Core.Path.{subst}
use mathlib.Core.Option.{some-injective}
use awesome_patterns.FeedReader.{Item, Error, FetchResult}
use awesome_patterns.FeedReader.Items.{
  collect, Intake, firsts, has, without, collect-pending, collect-seen, firsts-append, has-append,
}
use awesome_patterns.FeedReader.Sub.{
  Fetching, Loop, Times, Case, start_fetch, fetch_completes, take_result, close_request,
  send_update, Label, accepted, failed, delivered, silent, max_pending, retry_delay, initial, idle,
  running, ready, step, can_start, take_in, complete, receive_result, send_first, select_case,
  Reach, start, later, fetched_items, sent_items, last_failure,
}

pub record Inv (s : Loop) (ls : List Label) : Type 0 where
  pub order : sent_items ls ++ s.pending ≡ firsts (fetched_items ls)
  pub marked : (g : String) → s.seen g ≡ has g (fetched_items ls)
  pub room : s.fetch_done ≢ idle → length s.pending < max_pending
  pub error : s.err ≡ (elim (last_failure ls) [ none ↦ none | some (e, at) ↦ some e ])
  pub backoff : (e : Error) (at : ℕ) → last_failure ls ≡ some (e, at) → s.next ≡ at + retry_delay

initial-Inv : Inv initial []
unfolding initial firsts has
initial-Inv = record {
  order = refl;
  marked = λ g. refl;
  room = λ h. absurd (h refl);
  error = refl;
  backoff = λ e at h. cc;
}

can_start-room : (s : Loop) (t : Times) → can_start s t ≡ true → length s.pending < max_pending
unfolding can_start
can_start-room s t h = ground arith

module _ {s : Loop} {ls : List Label} (v : Inv s ls) where
  failure-Inv :
      (e : Error) (at : ℕ)
      → Inv
          (record s { fetch_done = idle; next = at + retry_delay; err = some e })
          (failed e at ∷ ls)
  failure-Inv e at = record {
    order = v.order;
    marked = v.marked;
    room = λ h. absurd (h refl);
    error = refl;
    backoff = λ e' at' h. ground arith;
  }

  batch-Inv :
      (xs : List Item) (next : ℕ)
      → let q = collect xs (record { pending = s.pending; seen = s.seen }) in
        Inv
          (record s {
            fetch_done = idle;
            next = next;
            err = none;
            pending = q.pending;
            seen = q.seen;
          })
          (accepted xs ∷ ls)
  batch-Inv xs next = record {
    order =
        ap (◌++◌ (sent_items ls)) (collect-pending xs q)
        ∙ sym (append_assoc (sent_items ls) s.pending (without s.seen (firsts xs)))
        ∙ ap (λ ys. ys ++ without s.seen (firsts xs)) v.order
        ∙ ap (λ f. firsts (fetched_items ls) ++ without f (firsts xs)) (fun_ext v.marked)
        ∙ sym (firsts-append (fetched_items ls) xs);
    marked =
        λ g. ground (arith, collect-seen xs q g, has-append g (fetched_items ls) xs, v.marked g);
    room = λ h. absurd (h refl);
    error = refl;
    backoff = λ e at h. cc;
  }
    where
      q : Intake
      q = record { pending = s.pending; seen = s.seen }

  take_in-Inv : (at : ℕ) (r : FetchResult) → Inv (take_in s at r).0 ((take_in s at r).1 ∷ ls)
  unfolding take_in
  take_in-Inv at r = elim (Option-cases r.err) [
    | inl e ↦ rw (e, take_in) (batch-Inv r.fetched r.next)
    | inr (x, e) ↦ rw (e, take_in) (failure-Inv x at)
  ]

  -- The premise of a step in the form that `select_case` returns it.
  returns-Inv :
      {s' : Loop} {l : Label} (x : Loop × Label)
      → some x ≡ some (s', l)
      → Inv x.0 (x.1 ∷ ls)
      → Inv s' (l ∷ ls)
  returns-Inv x e w = subst (λ (p : Loop × Label). Inv p.0 (p.1 ∷ ls)) (some-injective _ _ e) w

  start-Inv : length s.pending < max_pending → Inv (record s { fetch_done = running }) (silent ∷ ls)
  start-Inv h = record {
    order = v.order;
    marked = v.marked;
    room = λ _. h;
    error = v.error;
    backoff = v.backoff;
  }

  send-Inv :
      (x : Item) (xs : List Item)
      → s.pending ≡ x ∷ xs
      → Inv (record s { pending = xs }) (delivered x ∷ ls)
  send-Inv x xs e = record {
    order =
        append_assoc (sent_items ls) (x ∷ []) xs ∙ (ap (◌++◌ (sent_items ls)) (sym e) ∙ v.order);
    marked = v.marked;
    room = λ h. ground (arith, v.room h, ap length e);
    error = v.error;
    backoff = v.backoff;
  }

  complete-Inv :
      {s' : Loop} {l : Label} (f : Fetching) (r : FetchResult)
      → s.fetch_done ≡ f
      → complete s f r ≡ some (s', l)
      → Inv s' (l ∷ ls)
  unfolding complete
  complete-Inv running r e h = returns-Inv _ h (record {
    order = v.order;
    marked = v.marked;
    room = λ _. v.room (λ q. ground arith);
    error = v.error;
    backoff = v.backoff;
  })
  complete-Inv idle r e h = cc
  complete-Inv (ready _) r e h = cc

  receive_result-Inv :
      {s' : Loop} {l : Label} (f : Fetching) (at : ℕ)
      → receive_result s at f ≡ some (s', l)
      → Inv s' (l ∷ ls)
  unfolding receive_result
  receive_result-Inv (ready r) at h = returns-Inv _ h (take_in-Inv at r)
  receive_result-Inv idle at h = cc
  receive_result-Inv running at h = cc

  send_first-Inv :
      {s' : Loop} {l : Label} (xs : List Item)
      → s.pending ≡ xs
      → send_first s xs ≡ some (s', l)
      → Inv s' (l ∷ ls)
  unfolding send_first
  send_first-Inv [] e h = cc
  send_first-Inv (x ∷ xs) e h = returns-Inv _ h (send-Inv x xs e)

  select_case-Inv :
      {s' : Loop} {l : Label} (t : Times) (c : Case)
      → select_case s t c ≡ some (s', l)
      → Inv s' (l ∷ ls)
  unfolding select_case
  select_case-Inv t start_fetch h =
      let (can, e) = then-eq-some (can_start s t) _ h in
      returns-Inv _ e (start-Inv (can_start-room s t can))
  select_case-Inv t (fetch_completes r) h = complete-Inv s.fetch_done r refl h
  select_case-Inv t take_result h = receive_result-Inv s.fetch_done t.at h
  select_case-Inv t close_request h = returns-Inv _ h (record {
    order = v.order;
    marked = v.marked;
    room = v.room;
    error = v.error;
    backoff = v.backoff;
  })
  select_case-Inv t send_update h = send_first-Inv s.pending refl h

  still-Inv :
      {s' : Loop} {l : Label} (t : Times) (c : Case)
      → (if s.returned then none else select_case s t c) ≡ some (s', l)
      → Inv s' (l ∷ ls)
  still-Inv t c h = select_case-Inv t c (else-eq-some s.returned (select_case s t c) h).1

  step-Inv :
      {s' : Loop} {l : Label} (t : Times) (c : Case) → step s t c ≡ some (s', l) → Inv s' (l ∷ ls)
  unfolding step
  step-Inv t (fetch_completes r) h = complete-Inv s.fetch_done r refl h
  step-Inv t start_fetch h = still-Inv t start_fetch h
  step-Inv t take_result h = still-Inv t take_result h
  step-Inv t close_request h = still-Inv t close_request h
  step-Inv t send_update h = still-Inv t send_update h

-- So it holds along every run.
pub Reach-Inv : {s : Loop} {ls : List Label} → Reach s ls → Inv s ls
Reach-Inv (start e) = rw e initial-Inv
Reach-Inv (later r t c e) = step-Inv (Reach-Inv r) t c e
