-- ===== src/Driver/Reply.antt =====
-- binder_pop_transaction and binder_send_failed_reply of driver/binder.c. Statistics and the wake-up
-- of the thread are left out.
pub mod Delivery
use cdroid.Driver.Kernel.{Result, ok, bug, ◌>>=◌}
use cdroid.Driver.Store.{put_at}
use cdroid.Prelude.{
  not, ◌&&◌, if◌then◌else◌, ◌==◌, ℕ, zero, suc, Bool, true, false, Option, none, some,
}

-- What the replies use of struct binder_transaction and struct binder_thread.
pub record Transaction : Type 0 where
  pub from : Option ℕ
  pub from_parent : Option ℕ
  pub buffer : Option ℕ
  pub one_way : Bool

pub record Thread : Type 0 where
  pub transaction_stack : Option ℕ
  pub return_error : ℕ
  pub return_error2 : ℕ

-- By address, `none` where nothing is allocated; `buffer_transaction` is buffer->transaction.
pub record Calls : Type 0 where
  pub transaction : ℕ → Option Transaction
  pub thread : ℕ → Option Thread
  pub buffer_transaction : ℕ → Option ℕ

-- BR_OK, _IO('r', 1)
abbrev pub br_ok : ℕ
br_ok = 29185

abbrev pub points_to : Option ℕ → ℕ → Bool
points_to none a = false
points_to (some b) a = b == a

abbrev pub put_thread : Calls → ℕ → Thread → Calls
put_thread s h th = record s { thread = put_at h (some th) s.thread }

-- The end of binder_pop_transaction: the buffer forgets the transaction, which is freed.
abbrev pub free_transaction : Calls → ℕ → Transaction → Calls
free_transaction s t x = record s {
  transaction = put_at t none s.transaction;
  buffer_transaction = elim x.buffer [
    | none ↦ s.buffer_transaction
    | some b ↦ put_at b none s.buffer_transaction
  ];
}

unfoldable pub binder_pop_transaction : Calls → Option ℕ → ℕ → Result Calls
binder_pop_transaction s target t = elim (s.transaction t) [
  | none ↦ bug
  | some x ↦ elim target [
    | none ↦ ok (free_transaction s t x)
    | some h ↦ elim (s.thread h) [
      | none ↦ bug
      | some th ↦
          if points_to th.transaction_stack t && points_to x.from h
          then ok (
              free_transaction (put_thread s h (record th { transaction_stack = x.from_parent })) t
                x)
          else bug
    ]
  ]
]

-- The first error of a thread makes room for the next.
abbrev pub shift_error : Thread → Thread
shift_error th =
    if not (th.return_error == br_ok) && (th.return_error2 == br_ok)
    then record th { return_error = br_ok; return_error2 = th.return_error }
    else th

abbrev pub set_error : Calls → ℕ → ℕ → Result Calls
set_error s h error_code = elim (s.thread h) [
  | none ↦ bug
  | some th ↦ ok (put_thread s h (record th { return_error = error_code }))
]

-- With a thread `h` that sent the transaction, its errors shifted: without room the error is lost.
unfoldable pub fail_shifted : Calls → ℕ → ℕ → Thread → ℕ → Result Calls
fail_shifted s t h th error_code =
    let q = put_thread s h th in
    if th.return_error == br_ok
    then (binder_pop_transaction q (some h) t >>= λ u. set_error u h error_code)
    else ok q

unfoldable pub fail_thread : Calls → ℕ → ℕ → ℕ → Result Calls
fail_thread s t h error_code = elim (s.thread h) [
  | none ↦ bug
  | some th ↦ fail_shifted s t h (shift_error th) error_code
]

-- The loop, on fuel for the transactions on the way; without fuel it has no result of its own.
unfoldable pub fail_from : ℕ → Calls → ℕ → ℕ → Result Calls
fail_from zero s t error_code = bug
fail_from (suc fuel) s t error_code = elim (s.transaction t) [
  | none ↦ bug
  | some x ↦ elim x.from [
    | some h ↦ fail_thread s t h error_code
    | none ↦ binder_pop_transaction s none t >>= λ q. elim x.from_parent [
      | none ↦ ok q
      | some next ↦ fail_from fuel q next error_code
    ]
  ]
]

unfoldable pub binder_send_failed_reply : ℕ → Calls → ℕ → ℕ → Result Calls
binder_send_failed_reply fuel s t error_code = elim (s.transaction t) [
  | none ↦ bug
  | some x ↦ if x.one_way then bug else fail_from fuel s t error_code
]
