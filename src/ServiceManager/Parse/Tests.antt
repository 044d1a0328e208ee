-- ===== src/ServiceManager/Parse/Tests.antt =====
-- binder_parse of src/cmds/servicemanager/binder.c at a concrete buffer.
use cdroid.ServiceManager.Parse.Commands.{
  decrefs, failure, dead_reply, count_change, ReadCommand, complete, reply, dead, transaction,
  binder_parse-buffer_of, noop, buffer_of,
}
use cdroid.ServiceManager.Parse.{replied, binder_parse}
use cdroid.Prelude.{false, take, ℕ, List, ◌++◌, ◌∷◌, [], refl, some, ◌≡◌, true, replicate}

-- The state notes the codes of transactions, and the deaths.
abbrev note_txn : List ℕ → List ℕ → List ℕ
note_txn notes txn = take 3 txn ++ notes

abbrev note_death : List ℕ → ℕ → List ℕ
note_death notes p = p ∷ notes

abbrev commands : List ReadCommand
commands =
    noop
    ∷ count_change decrefs 1 2
    ∷ transaction (replicate 10 7)
    ∷ dead 9
    ∷ failure dead_reply
    ∷ reply (replicate 10 8)
    ∷ complete
    ∷ []

binder_parse-buffer_of_example :
    binder_parse (some note_txn) note_death true (buffer_of commands) []
    ≡ some (
      replied,
      record {
        state = 9 ∷ 7 ∷ 7 ∷ 7 ∷ [];
        r = replied;
        wants_reply = false;
        answer = some (replicate 10 8);
      },
    )
binder_parse-buffer_of_example =
    binder_parse-buffer_of (some note_txn) note_death true commands []
      (tt, (tt, (refl, (tt, (tt, (refl, (tt, tt)))))))
