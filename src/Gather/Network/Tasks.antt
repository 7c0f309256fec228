-- ===== src/Gather/Network/Tasks.antt =====
-- The steps of an evaluator's goroutines keep the invariant.
use mathlib.Core.Path.{subst}
use awesome_patterns.Base.{
  ℕ, ◌≡◌, inl, inr, refl, sym, ap, ◌∙◌, List, [], ◌∷◌, ◌++◌, some, arith, All, length-set,
  get_elem?, total-set, total-snoc, indexed-set,
}
use awesome_patterns.Channel.{try_send, try_receive}
use awesome_patterns.Gather.{Evaluated, result, failed, send}
use awesome_patterns.Gather.Network.{
  InnerPc, evaluating, stored, OuterPc, selecting, sending, gone, Task, State, moves, at, store,
  on_evaluate, on_select, on_select_error, on_timeout, on_deliver,
}
use awesome_patterns.Gather.Network.Invariant.{
  gone_result, gone_error, Chosen, IsSound, Inv, at-Inv,
}

module _ {R E : Type 0} (evaluate : ℕ → Evaluated R E) (timeout : ℕ → E) where
  module _ (n : ℕ) (s : State R E) (v : Inv evaluate timeout n s) where
    store-Inv :
        (i : ℕ) (t : Task R E) (x : Evaluated R E) {s' : State R E}
        → get_elem? s.tasks i ≡ some t
        → t.inner ≡ evaluating
        → evaluate i ≡ x
        → store s i t x ≡ moves s'
        → Inv evaluate timeout n s'
    unfolding store try_send
    store-Inv i t (result r) g f x h =
        let o = v.each i t g in
        let t' = record t {
          inner = stored;
          ch = record (t.ch) { buffer = t.ch.buffer ++ r ∷ [] };
        } in
        subst (Inv evaluate timeout n) {x = at s i t'} (ground (arith, h)) (
          at-Inv evaluate timeout n s v i t t' g (λ w. refl) (λ w. refl)
            (record {
              ch_open = o.ch_open;
              ech_open = o.ech_open;
              ch_room = o.ch_room;
              ech_room = o.ech_room;
              unstored = λ e. cc;
              results =
                  subst (λ b. All (λ y. result y ≡ evaluate i) (b ++ r ∷ [])) (sym (o.unstored f).0)
                    (sym x, tt);
              errors = o.errors;
              chosen = o.chosen;
            }))
    store-Inv i t (failed e) g f x h =
        let o = v.each i t g in
        let t' = record t {
          inner = stored;
          ech = record (t.ech) { buffer = t.ech.buffer ++ e ∷ [] };
        } in
        subst (Inv evaluate timeout n) {x = at s i t'} (ground (arith, h)) (
          at-Inv evaluate timeout n s v i t t' g (λ w. refl) (λ w. refl)
            (record {
              ch_open = o.ch_open;
              ech_open = o.ech_open;
              ch_room = o.ch_room;
              ech_room = o.ech_room;
              unstored = λ e. cc;
              results = o.results;
              errors =
                  subst (λ b. All (λ y. failed y ≡ evaluate i) (b ++ e ∷ [])) (sym (o.unstored f).1)
                    (sym x, tt);
              chosen = o.chosen;
            }))

    pub on_evaluate-Inv :
        (i : ℕ) (t : Task R E) (c : InnerPc) {s' : State R E}
        → get_elem? s.tasks i ≡ some t
        → t.inner ≡ c
        → on_evaluate s i (evaluate i) t c ≡ moves s'
        → Inv evaluate timeout n s'
    unfolding on_evaluate
    on_evaluate-Inv i t evaluating g f h = store-Inv i t (evaluate i) g f refl h
    on_evaluate-Inv i t stored g f h = cc

    selected-Inv :
        (i : ℕ) (t : Task R E) (rs : List R) {s' : State R E}
        → get_elem? s.tasks i ≡ some t
        → t.outer ≡ selecting
        → t.ch.buffer ≡ rs
        → on_select s i t selecting ≡ moves s'
        → Inv evaluate timeout n s'
    unfolding on_select try_receive
    selected-Inv i t [] g f b h = absurd (ground (arith, b, h))
    selected-Inv i t (r ∷ rs) g f b h =
        let o = v.each i t g in
        let held = subst (All (λ y. result y ≡ evaluate i)) b o.results in
        let t' = record t { ch = record (t.ch) { buffer = rs }; outer = sending (result r) } in
        subst (Inv evaluate timeout n) {x = at s i t'} (ground (arith, b, h)) (
          at-Inv evaluate timeout n s v i t t' g (λ w. ap (gone_result w) f)
            (λ w. ap (gone_error w) f)
            (record {
              ch_open = o.ch_open;
              ech_open = o.ech_open;
              ch_room = o.ch_room;
              ech_room = o.ech_room;
              unstored = λ e. absurd (cc (sym b ∙ (o.unstored e).0));
              results = held.1;
              errors = o.errors;
              chosen = inl held.0;
            }))

    pub on_select-Inv :
        (i : ℕ) (t : Task R E) (c : OuterPc R E) {s' : State R E}
        → get_elem? s.tasks i ≡ some t
        → t.outer ≡ c
        → on_select s i t c ≡ moves s'
        → Inv evaluate timeout n s'
    unfolding on_select
    on_select-Inv i t selecting g f h = selected-Inv i t t.ch.buffer g f refl h
    on_select-Inv i t (sending x) g f h = cc
    on_select-Inv i t (gone x) g f h = cc

    selected_error-Inv :
        (i : ℕ) (t : Task R E) (es : List E) {s' : State R E}
        → get_elem? s.tasks i ≡ some t
        → t.outer ≡ selecting
        → t.ech.buffer ≡ es
        → on_select_error s i t selecting ≡ moves s'
        → Inv evaluate timeout n s'
    unfolding on_select_error try_receive
    selected_error-Inv i t [] g f b h = absurd (ground (arith, b, h))
    selected_error-Inv i t (e ∷ es) g f b h =
        let o = v.each i t g in
        let held = subst (All (λ y. failed y ≡ evaluate i)) b o.errors in
        let t' = record t { ech = record (t.ech) { buffer = es }; outer = sending (failed e) } in
        subst (Inv evaluate timeout n) {x = at s i t'} (ground (arith, b, h)) (
          at-Inv evaluate timeout n s v i t t' g (λ w. ap (gone_result w) f)
            (λ w. ap (gone_error w) f)
            (record {
              ch_open = o.ch_open;
              ech_open = o.ech_open;
              ch_room = o.ch_room;
              ech_room = o.ech_room;
              unstored = λ x. absurd (cc (sym b ∙ (o.unstored x).1));
              results = o.results;
              errors = held.1;
              chosen = inl held.0;
            }))

    pub on_select_error-Inv :
        (i : ℕ) (t : Task R E) (c : OuterPc R E) {s' : State R E}
        → get_elem? s.tasks i ≡ some t
        → t.outer ≡ c
        → on_select_error s i t c ≡ moves s'
        → Inv evaluate timeout n s'
    unfolding on_select_error
    on_select_error-Inv i t selecting g f h = selected_error-Inv i t t.ech.buffer g f refl h
    on_select_error-Inv i t (sending x) g f h = cc
    on_select_error-Inv i t (gone x) g f h = cc

    pub on_timeout-Inv :
        (i : ℕ) (t : Task R E) (c : OuterPc R E) {s' : State R E}
        → get_elem? s.tasks i ≡ some t
        → t.outer ≡ c
        → on_timeout s i (timeout i) t c ≡ moves s'
        → Inv evaluate timeout n s'
    unfolding on_timeout
    on_timeout-Inv i t selecting g f h =
        let o = v.each i t g in
        let t' = record t { outer = sending (failed (timeout i)) } in
        subst (Inv evaluate timeout n) {x = at s i t'} (cc) (
          at-Inv evaluate timeout n s v i t t' g (λ w. ap (gone_result w) f)
            (λ w. ap (gone_error w) f)
            (record {
              ch_open = o.ch_open;
              ech_open = o.ech_open;
              ch_room = o.ch_room;
              ech_room = o.ech_room;
              unstored = o.unstored;
              results = o.results;
              errors = o.errors;
              chosen = inr refl;
            }))
    on_timeout-Inv i t (sending x) g f h = cc
    on_timeout-Inv i t (gone x) g f h = cc

    ended-IsSound :
        (i : ℕ) (t : Task R E) (x : Evaluated R E)
        → get_elem? s.tasks i ≡ some t
        → t.outer ≡ sending x
        → IsSound evaluate timeout i (record t { outer = gone x })
    ended-IsSound i t x g f =
        let o = v.each i t g in
        record {
          ch_open = o.ch_open;
          ech_open = o.ech_open;
          ch_room = o.ch_room;
          ech_room = o.ech_room;
          unstored = o.unstored;
          results = o.results;
          errors = o.errors;
          chosen = subst (Chosen evaluate timeout i) f o.chosen;
        }

    pub on_deliver-Inv :
        (i : ℕ) (t : Task R E) (c : OuterPc R E) {s' : State R E}
        → get_elem? s.tasks i ≡ some t
        → t.outer ≡ c
        → on_deliver s i t c ≡ moves s'
        → Inv evaluate timeout n s'
    unfolding on_deliver send try_send
    on_deliver-Inv i t (sending (result r)) g f h =
        let t' = record t { outer = gone (result r) } in
        let c = record (s.channels.gather) { buffer = s.channels.gather.buffer ++ r ∷ [] } in
        let q = record (at s i t') { channels = record (s.channels) { gather = c } } in
        subst (Inv evaluate timeout n) {x = q} (ground (arith, h)) (record {
          size = length-set s.tasks i t' ∙ v.size;
          gather_open = v.gather_open;
          errors_open = v.errors_open;
          gather_room = v.gather_room;
          errors_room = v.errors_room;
          each =
              indexed-set (IsSound evaluate timeout) s.tasks i t' (ended-IsSound i t (result r) g f)
                v.each;
          gathered = λ w. omega (
            arith,
            v.gathered w,
            ap (gone_result w) f,
            total-snoc w s.channels.gather.buffer r,
            total-set (λ x. gone_result w x.outer) s.tasks i t' g,
          );
          gathered_errors = λ w. omega (
            arith,
            v.gathered_errors w,
            ap (gone_error w) f,
            total-set (λ x. gone_error w x.outer) s.tasks i t' g,
          );
          rounds = v.rounds;
        })
    on_deliver-Inv i t (sending (failed e)) g f h =
        let t' = record t { outer = gone (failed e) } in
        let c = record (s.channels.errors) { buffer = s.channels.errors.buffer ++ e ∷ [] } in
        let q = record (at s i t') { channels = record (s.channels) { errors = c } } in
        subst (Inv evaluate timeout n) {x = q} (ground (arith, h)) (record {
          size = length-set s.tasks i t' ∙ v.size;
          gather_open = v.gather_open;
          errors_open = v.errors_open;
          gather_room = v.gather_room;
          errors_room = v.errors_room;
          each =
              indexed-set (IsSound evaluate timeout) s.tasks i t' (ended-IsSound i t (failed e) g f)
                v.each;
          gathered = λ w. omega (
            arith,
            v.gathered w,
            ap (gone_result w) f,
            total-set (λ x. gone_result w x.outer) s.tasks i t' g,
          );
          gathered_errors = λ w. omega (
            arith,
            v.gathered_errors w,
            ap (gone_error w) f,
            total-snoc w s.channels.errors.buffer e,
            total-set (λ x. gone_error w x.outer) s.tasks i t' g,
          );
          rounds = v.rounds;
        })
    on_deliver-Inv i t selecting g f h = cc
    on_deliver-Inv i t (gone x) g f h = cc
