-- ===== src/Driver/Reply/Delivery.antt =====
-- Where a failed reply goes.
use cdroid.Driver.Kernel.{ok, Result}
use cdroid.Prelude.{
  ◌-◌, ◌<◌, zero, true, ==_self, inr, ◌&&◌, ==_iff, not, inl, Bool-cases, leb, refl, ◌==◌,
  if◌then◌else◌, ◌∙◌, ap, arith, ◌≤◌, ◌+◌, suc, length, count, ℕ, ◌≡◌, List, [], ◌∷◌, none, some,
}
use cdroid.Driver.Reply.{
  set_error, binder_send_failed_reply, fail_shifted, points_to, put_thread, br_ok, shift_error,
  fail_thread, false, Thread, free_transaction, binder_pop_transaction, put_at, Calls, fail_from,
  Transaction, Option,
}

-- From `o` the transactions `ts`, which no thread waits for any more, lead to `last`.
abbrev pub Leads : (ℕ → Option Transaction) → Option ℕ → List ℕ → Option ℕ → Type 0
Leads txn o [] last = o ≡ last
Leads txn o (t ∷ ts) last =
    (o ≡ some t)
    × (x : Transaction) × (txn t ≡ some x)
    × (x.from ≡ none)
    × Leads txn x.from_parent ts last

Leads-freed :
    (txn : ℕ → Option Transaction) (t : ℕ) (o : Option ℕ) (ts : List ℕ) (last : Option ℕ)
    → count t ts ≡ 0
    → Leads txn o ts last
    → Leads (put_at t none txn) o ts last
Leads-freed txn t o [] last z l = l
Leads-freed txn t o (u ∷ ts) last z (at, x, e, dead, l) =
    let other : (u == t) ≡ false = ground (arith, z) in
    (at, x, rw other e, dead, Leads-freed txn t x.from_parent ts last (ground (arith, z)) l)

-- The loop with a pointer that may be null.
abbrev fail_at : ℕ → Calls → Option ℕ → ℕ → Result Calls
fail_at fuel s o error_code = elim o [ none ↦ ok s | some t ↦ fail_from fuel s t error_code ]

dead_step :
    (n : ℕ) (s : Calls) (t error_code : ℕ) (x : Transaction)
    → s.transaction t ≡ some x
    → x.from ≡ none
    → fail_from (suc n) s t error_code ≡ fail_at n (free_transaction s t x) x.from_parent error_code
unfolding fail_from binder_pop_transaction
dead_step n s t error_code x e dead = rw (fail_from, e, dead, binder_pop_transaction, e) refl

-- The transactions in `ts` are gone.
abbrev pub Freed : Calls → Calls → List ℕ → Type 0
Freed s q ts = (u : ℕ) → q.transaction u ≡ (if leb 1 (count u ts) then none else s.transaction u)

freed_too :
    (s : Calls) (t : ℕ) (ts : List ℕ) (x : Transaction) (o : Option Transaction) (u : ℕ)
    → count t ts ≡ 0
    → o ≡ (if leb 1 (count u ts) then none else put_at t none s.transaction u)
    → o ≡ (if leb 1 (count u (t ∷ ts)) then none else s.transaction u)
freed_too s t ts x o u gone h = elim (Bool-cases (u == t)) [
  | inl e ↦
      let same : u ≡ t = (==_iff u t).0 e in
      let zero_there : count u ts ≡ 0 = ap (λ w. count w ts) same ∙ gone in
      ground (arith, h, zero_there)
  | inr e ↦ ground (arith, h)
]

-- The loop frees the dead transactions one by one and goes on behind them.
walk :
    (ts : List ℕ) (n k : ℕ) (s : Calls) (o last : Option ℕ) (error_code : ℕ)
    → n ≡ length ts + k
    → Leads s.transaction o ts last
    → ((u : ℕ) → count u ts ≤ 1)
    → (q : Calls) × (fail_at n s o error_code ≡ fail_at k q last error_code)
      × (q.thread ≡ s.thread)
      × Freed s q ts
walk [] n k s o last error_code f l once =
    let same : n ≡ k = omega (arith, f) in
    (
      s,
      ap (λ m. fail_at m s o error_code) same ∙ ap (λ w. fail_at k s w error_code) l,
      refl,
      λ u. refl,
    )
walk (t ∷ ts) zero k s o last error_code f l once = absurd (omega (arith, f))
walk (t ∷ ts) (suc n) k s o last error_code f (at, x, e, dead, l) once =
    let gone : count t ts ≡ 0 = ground (arith, once t) in
    let (q, run, threads, freed) =
      walk ts n k (free_transaction s t x) x.from_parent last error_code (omega (arith, f))
        (Leads-freed s.transaction t x.from_parent ts last gone l) (λ u. ground (arith, once u)) in
    (
      q,
      ap (λ w. fail_at (suc n) s w error_code) at ∙ dead_step n s t error_code x e dead ∙ run,
      threads,
      λ u. freed_too s t ts x (q.transaction u) u gone (freed u),
    )

shift_error-stack : (th : Thread) → (shift_error th).transaction_stack ≡ th.transaction_stack
shift_error-stack th =
    elim (Bool-cases (not (th.return_error == br_ok) && (th.return_error2 == br_ok))) [
      | inl e ↦ rw e refl
      | inr e ↦ rw e refl
    ]

pop_live :
    (s : Calls) (t h : ℕ) (x : Transaction) (th : Thread)
    → s.transaction t ≡ some x
    → s.thread h ≡ some th
    → points_to th.transaction_stack t ≡ true
    → points_to x.from h ≡ true
    → binder_pop_transaction s (some h) t
      ≡ ok (free_transaction (put_thread s h (record th { transaction_stack = x.from_parent })) t x)
unfolding binder_pop_transaction
pop_live s t h x th e at top from = rw (binder_pop_transaction, e, at, top, from) refl

set_error_at :
    (s : Calls) (h error_code : ℕ) (th : Thread)
    → s.thread h ≡ some th
    → set_error s h error_code ≡ ok (put_thread s h (record th { return_error = error_code }))
set_error_at s h error_code th at = rw (set_error, at) refl

-- The thread that waits for the transaction `t` gets the error and its stack back.
delivered :
    (s : Calls) (t h error_code : ℕ) (x : Transaction) (th : Thread)
    → s.transaction t ≡ some x
    → x.from ≡ some h
    → th.transaction_stack ≡ some t
    → th.return_error ≡ br_ok
    → (q : Calls) × (fail_shifted s t h th error_code ≡ ok q)
      × (q.thread h
          ≡ some (record th { return_error = error_code; transaction_stack = x.from_parent }))
      × ((u : ℕ) → q.transaction u ≡ put_at t none s.transaction u)
unfolding fail_shifted
delivered s t h error_code x th e from top free =
    let first = put_thread s h th in
    let second = record th { transaction_stack = x.from_parent } in
    let popped = free_transaction (put_thread first h second) t x in
    let pop =
      pop_live first t h x th e (rw (==_self h) refl) (ap (λ o. points_to o t) top ∙ ==_self t)
        (ap (λ o. points_to o h) from ∙ ==_self h) in
    let room : (th.return_error == br_ok) ≡ true = (==_iff th.return_error br_ok).1 free in
    (
      put_thread popped h (record second { return_error = error_code }),
      rw (fail_shifted, room, pop) (set_error_at popped h error_code second (rw (==_self h) refl)),
      rw (==_self h) refl,
      λ u. refl,
    )

live_step :
    (n : ℕ) (s : Calls) (t h error_code : ℕ) (x : Transaction) (th : Thread)
    → s.transaction t ≡ some x
    → x.from ≡ some h
    → s.thread h ≡ some th
    → fail_from (suc n) s t error_code ≡ fail_shifted s t h (shift_error th) error_code
unfolding fail_from fail_thread
live_step n s t h error_code x th e from at = rw (fail_from, e, from, fail_thread, at) refl

freed_last :
    (last u : ℕ) (ts : List ℕ) (o p w : Option Transaction)
    → o ≡ (if u == last then none else p)
    → p ≡ (if leb 1 (count u ts) then none else w)
    → o ≡ (if leb 1 (count u (last ∷ ts)) then none else w)
freed_last last u ts o p w h k = elim (Bool-cases (u == last)) [
  | inl e ↦ ground (arith, h)
  | inr e ↦ ground (arith, h, k)
]

module _ (s : Calls) (t last error_code : ℕ) (ts : List ℕ) (asked : Transaction)
    (here : s.transaction t ≡ some asked) (two_way : asked.one_way ≡ false)
    (once : (u : ℕ) → count u (last ∷ ts) ≤ 1) where
  -- binder_send_failed_reply, for a two-way transaction from which distinct transactions without a
  -- sender lead to one whose sender is a thread that has it on top of its stack and has room for
  -- an error, returns, given more fuel than there are transactions without a sender on the way.
  -- Exactly the transactions on the way are freed, and the thread has the error and the stack
  -- below the transaction.
  pub binder_send_failed_reply-delivers :
      (x : Transaction) (h : ℕ) (th : Thread) (fuel : ℕ)
      → Leads s.transaction (some t) ts (some last)
      → s.transaction last ≡ some x
      → x.from ≡ some h
      → s.thread h ≡ some th
      → th.transaction_stack ≡ some last
      → (shift_error th).return_error ≡ br_ok
      → length ts < fuel
      → (q : Calls) × (binder_send_failed_reply fuel s t error_code ≡ ok q)
        × (q.thread h
            ≡ some (record (shift_error th) {
              return_error = error_code;
              transaction_stack = x.from_parent;
            }))
        × Freed s q (last ∷ ts)
  unfolding binder_send_failed_reply
  binder_send_failed_reply-delivers x h th fuel l e from at top free enough =
      let (q, run, threads, freed) =
        walk ts fuel (suc (fuel - length ts - 1)) s (some t) (some last) error_code
          (omega (arith, enough)) l (λ u. ground (arith, once u)) in
      let left : q.transaction last ≡ some x = freed last ∙ ground (arith, once last, e) in
      let (r, done, thread, gone) =
        delivered q last h error_code x (shift_error th) left from (shift_error-stack th ∙ top)
          free in
      let same : q.thread h ≡ some th = ap (λ f. f h) threads ∙ at in
      (
        r,
        rw (binder_send_failed_reply, here, two_way)
            (run ∙ live_step (fuel - length ts - 1) q last h error_code x th left from same ∙ done),
        thread,
        λ u.
            freed_last last u ts (r.transaction u) (q.transaction u) (s.transaction u) (gone u)
              (freed u),
      )

module _ (s : Calls) (t error_code : ℕ) (ts : List ℕ) (asked : Transaction)
    (here : s.transaction t ≡ some asked) (two_way : asked.one_way ≡ false)
    (once : (u : ℕ) → count u ts ≤ 1) where
  -- binder_send_failed_reply, for a two-way transaction from which distinct transactions without a
  -- sender lead to the root, returns, given as much fuel as there are transactions. Exactly these
  -- are freed, and no thread changes.
  pub binder_send_failed_reply_lost :
      (fuel : ℕ)
      → Leads s.transaction (some t) ts none
      → length ts ≤ fuel
      → (q : Calls) × (binder_send_failed_reply fuel s t error_code ≡ ok q)
        × (q.thread ≡ s.thread)
        × Freed s q ts
  unfolding binder_send_failed_reply
  binder_send_failed_reply_lost fuel l enough =
      let (q, run, threads, freed) =
        walk ts fuel (fuel - length ts) s (some t) none error_code (omega (arith, enough)) l once in
      (q, rw (binder_send_failed_reply, here, two_way) run, threads, freed)
