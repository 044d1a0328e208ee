-- ===== src/ServiceManager/Parse/Commands.antt =====
-- binder_parse of src/cmds/servicemanager/binder.c on what the driver writes: whole commands.
use cdroid.ServiceManager.Parse.{
  replied, failed, take_reply, going_on, Parsing, binder_parse, parse_words, txn_words,
}
use cdroid.Prelude.{
  length-append, false, arith, All, Bool, take, drop, List, length, Option, ℕ, if◌then◌else◌, true,
  refl, ◌++◌, ◌∷◌, [], zero, suc, ◌≡◌, ◌≤◌, none, some, ltb,
}

-- BR_INCREFS, BR_ACQUIRE, BR_RELEASE and BR_DECREFS.
pub data CountChange : Type 0 where
  increfs acquire release decrefs : CountChange

-- BR_FAILED_REPLY and BR_DEAD_REPLY.
pub data Failure : Type 0 where
  failed_reply dead_reply : Failure

-- The codes of the kernel's header: direction and size of the words, 'r', and a number.
abbrev pub count_code : CountChange → ℕ
count_code increfs = 0x80087207
count_code acquire = 0x80087208
count_code release = 0x80087209
count_code decrefs = 0x8008720a

abbrev pub failure_code : Failure → ℕ
failure_code failed_reply = 0x7211
failure_code dead_reply = 0x7205

-- A command with its words; a transaction and a reply have the words of a struct binder_txn.
pub data ReadCommand : Type 0 where
  noop : ReadCommand
  complete : ReadCommand
  count_change : CountChange → ℕ → ℕ → ReadCommand
  transaction : List ℕ → ReadCommand
  reply : List ℕ → ReadCommand
  dead : ℕ → ReadCommand
  failure : Failure → ReadCommand

abbrev pub words_of : ReadCommand → List ℕ
words_of noop = 0x720c ∷ []
words_of complete = 0x7206 ∷ []
words_of (count_change k a b) = count_code k ∷ a ∷ b ∷ []
words_of (transaction txn) = 0x80287202 ∷ txn
words_of (reply txn) = 0x80287203 ∷ txn
words_of (dead p) = 0x8004720f ∷ p ∷ []
words_of (failure k) = failure_code k ∷ []

abbrev pub buffer_of : List ReadCommand → List ℕ
buffer_of [] = []
buffer_of (c ∷ cs) = words_of c ++ buffer_of cs

abbrev pub IsWhole : ReadCommand → Type 0
IsWhole (transaction txn) = length txn ≡ txn_words
IsWhole (reply txn) = length txn ≡ txn_words
IsWhole _ = Unit

module _ {S : Type 0} (func : Option (S → List ℕ → S)) (death : S → ℕ → S) where
  -- What one command does; only the first reply is kept.
  abbrev pub obey : Parsing S → ReadCommand → Parsing S
  obey st (transaction txn) = elim func [
    | none ↦ st
    | some f ↦ record st { state = f st.state txn }
  ]
  obey st (reply txn) = record st {
    r = replied;
    wants_reply = false;
    answer = if st.wants_reply then some txn else st.answer;
  }
  obey st (dead p) = record st { state = death st.state p }
  obey st (failure k) = record st { r = failed }
  obey st _ = st

  abbrev pub obey_all : Parsing S → List ReadCommand → Parsing S
  obey_all st [] = st
  obey_all st (c ∷ cs) = obey_all (obey st c) cs

take_all : (txn more : List ℕ) → take (length txn) (txn ++ more) ≡ txn
take_all [] more = refl
take_all (x ∷ txn) more = rw (take_all txn more)

drop_all : (txn more : List ℕ) → drop (length txn) (txn ++ more) ≡ more
drop_all [] more = refl
drop_all (x ∷ txn) more = drop_all txn more

whole_txn :
    (txn more : List ℕ)
    → length txn ≡ txn_words
    → (ltb (length (txn ++ more)) txn_words ≡ false)
      × (take txn_words (txn ++ more) ≡ txn)
      × (drop txn_words (txn ++ more) ≡ more)
whole_txn txn more h = (
  ground (arith, length-append txn more, h),
  rw h at (take_all txn more),
  rw h at (drop_all txn more),
)

module _ {S : Type 0} (func : Option (S → List ℕ → S)) (death : S → ℕ → S) where
  take_reply_first :
      (st : Parsing S) (txn : List ℕ)
      → take_reply func death st txn ≡ obey func death st (reply txn)
  take_reply_first st txn = by_wish st.wants_reply
    where
      by_wish :
          (w : Bool)
          → take_reply func death (record st { wants_reply = w }) txn
            ≡ obey func death (record st { wants_reply = w }) (reply txn)
      by_wish true = refl
      by_wish false = refl

  parse_words-buffer_of :
      (fuel : ℕ) (cs : List ReadCommand) (st : Parsing S)
      → All IsWhole cs
      → length (buffer_of cs) ≤ fuel
      → parse_words func death fuel (buffer_of cs) st
        ≡ some ((obey_all func death st cs).r, obey_all func death st cs)
  unfolding parse_words
  parse_words-buffer_of fuel [] st h l = refl
  parse_words-buffer_of zero (noop ∷ cs) st h l = absurd (omega arith)
  parse_words-buffer_of (suc fuel) (noop ∷ cs) st h l =
      parse_words-buffer_of fuel cs st h.1 (omega arith)
  parse_words-buffer_of zero (complete ∷ cs) st h l = absurd (omega arith)
  parse_words-buffer_of (suc fuel) (complete ∷ cs) st h l =
      parse_words-buffer_of fuel cs st h.1 (omega arith)
  parse_words-buffer_of zero (count_change k a b ∷ cs) st h l = absurd (omega arith)
  parse_words-buffer_of (suc fuel) (count_change increfs a b ∷ cs) st h l =
      parse_words-buffer_of fuel cs st h.1 (omega arith)
  parse_words-buffer_of (suc fuel) (count_change acquire a b ∷ cs) st h l =
      parse_words-buffer_of fuel cs st h.1 (omega arith)
  parse_words-buffer_of (suc fuel) (count_change release a b ∷ cs) st h l =
      parse_words-buffer_of fuel cs st h.1 (omega arith)
  parse_words-buffer_of (suc fuel) (count_change decrefs a b ∷ cs) st h l =
      parse_words-buffer_of fuel cs st h.1 (omega arith)
  parse_words-buffer_of zero (failure k ∷ cs) st h l = absurd (omega arith)
  parse_words-buffer_of (suc fuel) (failure failed_reply ∷ cs) st h l =
      parse_words-buffer_of fuel cs (record st { r = failed }) h.1 (omega arith)
  parse_words-buffer_of (suc fuel) (failure dead_reply ∷ cs) st h l =
      parse_words-buffer_of fuel cs (record st { r = failed }) h.1 (omega arith)
  parse_words-buffer_of zero (dead p ∷ cs) st h l = absurd (omega arith)
  parse_words-buffer_of (suc fuel) (dead p ∷ cs) st h l =
      parse_words-buffer_of fuel cs (record st { state = death st.state p }) h.1 (omega arith)
  parse_words-buffer_of zero (transaction txn ∷ cs) st h l = absurd (omega arith)
  parse_words-buffer_of (suc fuel) (transaction txn ∷ cs) st h l =
      let (enough, taken, left) = whole_txn txn (buffer_of cs) h.0 in
      rw (enough, taken, left)
        (parse_words-buffer_of fuel cs (obey func death st (transaction txn)) h.1
          (omega (arith, l, length-append txn (buffer_of cs))))
  parse_words-buffer_of zero (reply txn ∷ cs) st h l = absurd (omega arith)
  parse_words-buffer_of (suc fuel) (reply txn ∷ cs) st h l =
      let (enough, taken, left) = whole_txn txn (buffer_of cs) h.0 in
      rw (enough, taken, left, take_reply_first st txn)
        (parse_words-buffer_of fuel cs (obey func death st (reply txn)) h.1
          (omega (arith, l, length-append txn (buffer_of cs))))

  -- binder_parse, on a buffer of whole commands of the kinds that it knows (BR_NOOP,
  -- BR_TRANSACTION_COMPLETE, BR_INCREFS, BR_ACQUIRE, BR_RELEASE, BR_DECREFS, BR_TRANSACTION,
  -- BR_REPLY, BR_DEAD_BINDER, BR_FAILED_REPLY and BR_DEAD_REPLY), with any handler and any
  -- function for deaths, ends, reads nothing behind the buffer, and obeys the commands one after
  -- the other: it hands each transaction to the handler and each dead reference to its function,
  -- initialises the caller's message from the first reply only, and returns what the last reply or
  -- failure says, or 1 without one.
  pub binder_parse-buffer_of :
      (wants_reply : Bool) (cs : List ReadCommand) (state : S)
      → All IsWhole cs
      → let end =
          obey_all func death
            (record { state = state; r = going_on; wants_reply = wants_reply; answer = none })
            cs in
        binder_parse func death wants_reply (buffer_of cs) state ≡ some (end.r, end)
  unfolding binder_parse
  binder_parse-buffer_of wants_reply cs state h =
      parse_words-buffer_of (length (buffer_of cs)) cs
        (record { state = state; r = going_on; wants_reply = wants_reply; answer = none }) h
        (omega arith)
