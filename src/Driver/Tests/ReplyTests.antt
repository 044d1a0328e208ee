-- ===== src/Driver/Tests/ReplyTests.antt =====
-- A transaction whose sender is gone, below one whose sender is gone too, below a live one.
use cdroid.Driver.Reply.Delivery.{
  binder_send_failed_reply-delivers, binder_send_failed_reply_lost, Freed,
}
use cdroid.Driver.Kernel.{ok}
use cdroid.Driver.Store.{put_at}
use cdroid.Driver.Reply.{shift_error, br_ok, binder_send_failed_reply, Calls, Thread, Transaction}
use cdroid.Prelude.{arith, false, Option, refl, ◌∷◌, [], ◌≡◌, ℕ, some, none}

abbrev call : Option ℕ → Option ℕ → Transaction
call from parent = record { from = from; from_parent = parent; buffer = none; one_way = false }

abbrev waiting : Thread
waiting = record { transaction_stack = some 3; return_error = br_ok; return_error2 = br_ok }

abbrev calls : Calls
calls = record {
  transaction =
      put_at 1 (some (call none (some 2)))
        (put_at 2 (some (call none (some 3))) (put_at 3 (some (call (some 50) none)) (λ a. none)));
  thread = put_at 50 (some waiting) (λ a. none);
  buffer_transaction = λ b. none;
}

binder_send_failed_reply-delivers_example :
    (q : Calls) × (binder_send_failed_reply 3 calls 1 29189 ≡ ok q)
    × (q.thread 50
        ≡ some (record (shift_error waiting) { return_error = 29189; transaction_stack = none }))
    × Freed calls q (3 ∷ 1 ∷ 2 ∷ [])
binder_send_failed_reply-delivers_example =
    binder_send_failed_reply-delivers calls 1 3 29189 (1 ∷ 2 ∷ []) (call none (some 2)) refl refl
      (λ u. ground arith) (call (some 50) none) 50 waiting 3
      (refl, call none (some 2), refl, refl, (refl, call none (some 3), refl, refl, refl)) refl refl
      refl refl refl (omega arith)

-- The same with nobody at the root.
abbrev orphans : Calls
orphans = record calls {
  transaction = put_at 1 (some (call none (some 2))) (put_at 2 (some (call none none)) (λ a. none));
}

binder_send_failed_reply_lost_example :
    (q : Calls) × (binder_send_failed_reply 2 orphans 1 29189 ≡ ok q)
    × (q.thread ≡ orphans.thread)
    × Freed orphans q (1 ∷ 2 ∷ [])
binder_send_failed_reply_lost_example =
    binder_send_failed_reply_lost orphans 1 29189 (1 ∷ 2 ∷ []) (call none (some 2)) refl refl
      (λ u. ground arith) 2
      (refl, call none (some 2), refl, refl, (refl, call none none, refl, refl, refl)) (omega arith)
