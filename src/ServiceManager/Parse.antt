-- ===== src/ServiceManager/Parse.antt =====
-- binder_parse of src/cmds/servicemanager/binder.c. The words of the read buffer are a list; `func`, with
-- the reply that is sent behind it, and the function of a death are parameters, on a state of theirs.
pub mod Commands
mod Tests
use cdroid.Prelude.{
  ℕ, zero, suc, Bool, true, false, List, [], ◌∷◌, Option, none, some, ◌==◌, ltb, ◌||◌,
  if◌then◌else◌, length, take, drop,
}

-- The commands that are told apart.
pub data Br : Type 0 where
  br_noop : Br
  br_transaction_complete : Br
  br_count : Br
  br_transaction : Br
  br_reply : Br
  br_dead_binder : Br
  br_failed : Br
  br_other : Br

-- The codes are those of a 32-bit process. br_count is one of BR_INCREFS, BR_ACQUIRE, BR_RELEASE and BR_DECREFS, br_failed BR_FAILED_REPLY or
-- BR_DEAD_REPLY.
abbrev pub br_of : ℕ → Br
br_of cmd =
    if cmd == 0x720c
    then br_noop
    else if cmd == 0x7206
    then br_transaction_complete
    else if (cmd == 0x80087207) || (cmd == 0x80087208) || (cmd == 0x80087209) || (cmd == 0x8008720a)
    then br_count
    else if cmd == 0x80287202
    then br_transaction
    else if cmd == 0x80287203
    then br_reply
    else if cmd == 0x8004720f
    then br_dead_binder
    else if (cmd == 0x7211) || (cmd == 0x7205)
    then br_failed
    else br_other

-- sizeof(struct binder_txn) / sizeof(uint32_t)
abbrev pub txn_words : ℕ
txn_words = 10

-- The values of r: 1, 0 and -1.
pub data ParseResult : Type 0 where
  going_on : ParseResult
  replied : ParseResult
  failed : ParseResult

-- `wants_reply` is that bio is not null, `answer` the words it was initialised from.
pub record Parsing (S : Type 0) : Type 0 where
  pub state : S
  pub r : ParseResult
  pub wants_reply : Bool
  pub answer : Option (List ℕ)

module _ {S : Type 0} (func : Option (S → List ℕ → S)) (death : S → ℕ → S) where
  abbrev pub run_handler : Parsing S → List ℕ → Parsing S
  run_handler st txn = elim func [ none ↦ st | some f ↦ record st { state = f st.state txn } ]

  abbrev pub take_reply : Parsing S → List ℕ → Parsing S
  take_reply st txn =
      if st.wants_reply
      then record st { r = replied; wants_reply = false; answer = some txn }
      else record st { r = replied }

  -- The loop on fuel; `none` is a loop that has not ended or a word read behind the buffer.
  unfoldable pub parse_words : ℕ → List ℕ → Parsing S → Option (ParseResult × Parsing S)
  parse_words fuel [] st = some (st.r, st)
  parse_words zero (cmd ∷ ptr) st = none
  parse_words (suc fuel) (cmd ∷ ptr) st = elim (br_of cmd) [
    | br_noop ↦ parse_words fuel ptr st
    | br_transaction_complete ↦ parse_words fuel ptr st
    | br_count ↦ parse_words fuel (drop 2 ptr) st
    | br_transaction ↦
        let rest = parse_words fuel (drop txn_words ptr) (run_handler st (take txn_words ptr)) in
        if ltb (length ptr) txn_words then some (failed, st) else rest
    | br_reply ↦
        let rest = parse_words fuel (drop txn_words ptr) (take_reply st (take txn_words ptr)) in
        if ltb (length ptr) txn_words then some (failed, st) else rest
    | br_dead_binder ↦ elim ptr [
      | [] ↦ none
      | ◌∷◌ p ps ↦ parse_words fuel ps (record st { state = death st.state p })
    ]
    | br_failed ↦ parse_words fuel ptr (record st { r = failed })
    | br_other ↦ some (failed, st)
  ]

  unfoldable pub binder_parse : Bool → List ℕ → S → Option (ParseResult × Parsing S)
  binder_parse wants_reply words state =
      parse_words (length words) words
        (record { state = state; r = going_on; wants_reply = wants_reply; answer = none })
