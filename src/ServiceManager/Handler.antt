-- ===== src/ServiceManager/Handler.antt =====
-- svcmgr_handler of src/cmds/servicemanager/service_manager.c. `none` is a null pointer that is read.
pub mod Requests
use cdroid.Prelude.{
  ℕ, zero, suc, ◌+◌, ◌*◌, Bool, true, false, not, ◌&&◌, ◌||◌, List, [], ◌∷◌, Option, none, some,
  ◌==◌, ltb, if◌then◌else◌, length,
}
use cdroid.ServiceManager.{Manager, SvcInfo, same_name, do_find_service, do_add_service, aid_system}
use cdroid.Memory.{read16s}
use cdroid.ServiceManager.Bio.{
  bio_get_ref, bio_put_ref, bio_put_string16, bio_get_string16, bio_get_uint32, bio_put_uint32,
  BinderIo, BinderTxn,
}

-- svcmgr_handle, as main sets it to BINDER_SERVICE_MANAGER.
abbrev pub svcmgr_handle : ℕ
svcmgr_handle = 0

abbrev pub svcmgr_id : List ℕ
svcmgr_id =
    97 ∷ 110 ∷ 100 ∷ 114 ∷ 111 ∷ 105 ∷ 100 ∷ 46 ∷ 111 ∷ 115 ∷ 46 ∷ 73 ∷ 83 ∷ 101 ∷ 114 ∷ 118 ∷ 105
    ∷ 99 ∷ 101 ∷ 77 ∷ 97 ∷ 110 ∷ 97 ∷ 103 ∷ 101 ∷ 114 ∷ []

-- true is the result 0, false is -1.
abbrev pub Handled : Type 0
Handled = Option (Bool × Manager × BinderIo)

-- Whether find_svc compares a name of this length with an entry.
abbrev pub has_length : ℕ → List SvcInfo → Bool
has_length len [] = false
has_length len (si ∷ list) = (len == length si.name) || has_length len list

abbrev pub find_named : Manager → (ℕ → ℕ) → Option ℕ → ℕ → ℕ → Option ℕ
find_named m mem none len uid = if has_length len m.svclist then none else some 0
find_named m mem (some s) len uid = some (do_find_service m (read16s mem s len) uid)

-- SVC_MGR_GET_SERVICE and SVC_MGR_CHECK_SERVICE
abbrev pub reply_found : Manager → BinderIo → Option ℕ → Handled
reply_found m reply none = none
reply_found m reply (some ptr) =
    some (true, m, if ptr == 0 then bio_put_uint32 reply 0 else bio_put_ref reply ptr)

unfoldable pub handle_get : Manager → ℕ → BinderIo → BinderIo → Handled
handle_get m uid msg reply =
    let s = bio_get_string16 msg in reply_found m reply (find_named m s.2.memory s.0 s.1 uid)

-- The longest name that may be registered has fewer units than are read behind `s` here.
abbrev pub behind_units : ℕ
behind_units = 32

abbrev pub add_named :
    Manager → (ℕ → ℕ) → Option ℕ → ℕ → ℕ → ℕ → Bool → Bool → Option (Bool × Manager)
add_named m mem none len ptr uid allow memory =
    if (ptr == 0) || (len == 0) || ltb 127 len
    then some (false, m)
    else if ((uid == 0) || (uid == aid_system)) && not (has_length len m.svclist) && not memory
    then some (false, m)
    else none
add_named m mem (some s) len ptr uid allow memory = some (
    do_add_service m (read16s mem s len) (read16s mem (s + 2 * len) behind_units) ptr uid allow
      memory)

abbrev pub reply_added : BinderIo → Option (Bool × Manager) → Handled
reply_added reply none = none
reply_added reply (some (done, m)) = some (done, m, if done then bio_put_uint32 reply 0 else reply)

-- SVC_MGR_ADD_SERVICE
unfoldable pub handle_add : Manager → ℕ → BinderIo → BinderIo → Bool → Handled
handle_add m uid msg reply memory =
    let s = bio_get_string16 msg in
    let o = bio_get_ref s.2 in
    let a = bio_get_uint32 o.1 in
    reply_added reply (add_named m msg.memory s.0 s.1 o.0 uid (not (a.0 == 0)) memory)

abbrev pub nth_svc : ℕ → List SvcInfo → Option SvcInfo
nth_svc n [] = none
nth_svc zero (si ∷ list) = some si
nth_svc (suc n) (si ∷ list) = nth_svc n list

-- SVC_MGR_LIST_SERVICES
unfoldable pub handle_list : Manager → BinderIo → BinderIo → Handled
handle_list m msg reply = elim (nth_svc (bio_get_uint32 msg).0 m.svclist) [
  | none ↦ some (false, m, reply)
  | some si ↦ some (true, m, bio_put_string16 reply (some si.name))
]

unfoldable pub dispatch : Manager → BinderTxn → BinderIo → BinderIo → Bool → Handled
dispatch m txn msg reply memory =
    if (txn.code == 1) || (txn.code == 2)
    then handle_get m txn.sender_euid msg reply
    else if txn.code == 3
    then handle_add m txn.sender_euid msg reply memory
    else if txn.code == 4
    then handle_list m msg reply
    else some (false, m, reply)

-- Behind the header, whose string is at `s`.
abbrev pub checked : Manager → BinderTxn → Option ℕ × ℕ × BinderIo → BinderIo → Bool → Handled
checked m txn (none, len, msg) reply memory =
    if len == length svcmgr_id then none else some (false, m, reply)
checked m txn (some s, len, msg) reply memory =
    if not (same_name svcmgr_id (read16s msg.memory s len))
    then some (false, m, reply)
    else dispatch m txn msg reply memory

unfoldable pub svcmgr_handler : Manager → BinderTxn → BinderIo → BinderIo → Bool → Handled
svcmgr_handler m txn msg reply memory =
    if not (txn.target == svcmgr_handle)
    then some (false, m, reply)
    else checked m txn (bio_get_string16 (bio_get_uint32 msg).1) reply memory
