-- ===== src/ServiceManager/Handler/Requests.antt =====
-- What svcmgr_handler does with the requests that a client writes.
use cdroid.Memory.{read16, read16s}
use cdroid.ServiceManager.Bio.RoundTrip.{sent-Ready}
use cdroid.ServiceManager.Bio.Reading.{next_handle, next_text, next_word, Ready}
use cdroid.Prelude.{
  if◌then◌else◌, All, ◌⊎◌, append-nil, sym, Option, ◌∙◌, ◌||◌, ap, ==_iff, arith, ℕ, ◌+◌, ◌*◌, ◌≡◌,
  refl, Bool, true, false, not, List, [], ◌∷◌, ◌++◌, some, ◌==◌, length,
}
use cdroid.ServiceManager.{
  do_find_service, same_name, is_allowed, allowed, aid_system, is_allowed, str16eq,
  svc_can_register, Manager, do_add_service,
}
use cdroid.ServiceManager.Handler.{
  find_named, reply_found, handle_get, behind_units, add_named, reply_added, handle_add, dispatch,
  svcmgr_id, svcmgr_handle, svcmgr_handler, checked,
}
use cdroid.ServiceManager.Bio.{
  bio_put_ref, bio_put_uint32, type_handle, Translation, bio_init, call_txn, bio_get_uint32,
  bio_get_ref, bio_get_string16, bio_init_from_txn, BinderIo, BinderTxn,
}
use cdroid.ServiceManager.Bio.Items.{IsDelivered, IsItem, put_items, Item, word, text, handle}

str16eq_nul : (us zs b : List ℕ) → str16eq (us ++ 0 ∷ zs) b ≡ str16eq us b
unfolding str16eq
str16eq_nul [] zs [] = refl
str16eq_nul [] zs (b ∷ bs) = refl
str16eq_nul (u ∷ us) zs [] = refl
str16eq_nul (u ∷ us) zs (b ∷ bs) = ground (arith, str16eq_nul us zs bs)

is_allowed_nul :
    (table : List (ℕ × List ℕ)) (uid : ℕ) (us zs : List ℕ)
    → is_allowed table uid (us ++ 0 ∷ zs) ≡ is_allowed table uid us
is_allowed_nul [] uid us zs = refl
is_allowed_nul ((u, n) ∷ table) uid us zs =
    rw (str16eq_nul us zs n, is_allowed_nul table uid us zs) refl

can_register_nul :
    (uid : ℕ) (us zs : List ℕ)
    → svc_can_register uid (us ++ 0 ∷ zs) ≡ svc_can_register uid (us ++ [])
unfolding svc_can_register
can_register_nul uid us zs =
    ap (λ b. (uid == 0) || (uid == aid_system) || b)
      (is_allowed_nul allowed uid us zs ∙ ap (is_allowed allowed uid) (sym (append-nil us)))

-- The units behind a NUL do not matter.
add_nul :
    (m : Manager) (name zs : List ℕ) (ptr uid : ℕ) (allow memory : Bool)
    → do_add_service m name (0 ∷ zs) ptr uid allow memory
      ≡ do_add_service m name [] ptr uid allow memory
unfolding do_add_service
add_nul m name zs ptr uid allow memory = rw (do_add_service, can_register_nul uid name zs) refl

module _ (m : Manager) (txn : BinderTxn) (policy : ℕ) (is : List Item) (reply : BinderIo)
    (memory : Bool) (here : txn.target ≡ svcmgr_handle)
    (ready : Ready (bio_init_from_txn txn) (word policy ∷ text svcmgr_id ∷ is)) where
  -- Behind the header of a request.
  header :
      (r : BinderIo) × Ready r is
      × (svcmgr_handler m txn (bio_init_from_txn txn) reply memory ≡ dispatch m txn r reply memory)
  unfolding svcmgr_handler
  header =
      let msg = bio_init_from_txn txn in
      let (r1, e1, ready1, mem1) = next_word msg (text svcmgr_id ∷ is) policy ready in
      let (p, r2, e2, ready2, mem2, units, nul) = next_text r1 is svcmgr_id ready1 in
      let mine : (txn.target == svcmgr_handle) ≡ true = (==_iff txn.target svcmgr_handle).1 here in
      let mine_too : same_name svcmgr_id (read16s r2.memory p (length svcmgr_id)) ≡ true =
        ap (λ f. same_name svcmgr_id (read16s f p (length svcmgr_id))) mem2
        ∙ ap (same_name svcmgr_id) units in
      (
        r2,
        ready2,
        (rw (svcmgr_handler, mine) refl
            ∙ ap (λ q. checked m txn (bio_get_string16 q.1) reply memory) e1
            ∙ ap (λ q. checked m txn q reply memory) e2
            ∙ rw (mine_too) refl),
      )

behind_nul :
    (mem : ℕ → ℕ) (a : ℕ)
    → read16 mem a ≡ 0
    → read16s mem a behind_units ≡ 0 ∷ read16s mem (a + 2) 31
unfolding read16s
behind_nul mem a e = ap (λ u. u ∷ read16s mem (a + 2) 31) e

-- Behind the header, a request to register a service.
add_request :
    (m : Manager) (uid : ℕ) (reply : BinderIo) (memory : Bool) (name : List ℕ) (ptr allow : ℕ)
    (r : BinderIo)
    → Ready r (text name ∷ handle ptr ∷ word allow ∷ [])
    → handle_add m uid r reply memory
      ≡ reply_added reply (some (do_add_service m name [] ptr uid (not (allow == 0)) memory))
unfolding handle_add
add_request m uid reply memory name ptr allow r ready =
    let (p, r2, e2, ready2, mem2, units, nul) =
      next_text r (handle ptr ∷ word allow ∷ []) name ready in
    let (r3, e3, ready3, mem3) = next_handle r2 (word allow ∷ []) ptr ready2 in
    let (r4, e4, ready4, mem4) = next_word r3 [] allow ready3 in
    let add = λ (s : Option ℕ) (len o a : ℕ).
      reply_added reply (add_named m r.memory s len o uid (not (a == 0)) memory) in
    let done = λ (n b : List ℕ).
      reply_added reply (some (do_add_service m n b ptr uid (not (allow == 0)) memory)) in
    ap (λ q. let o = bio_get_ref q.2 in add q.0 q.1 o.0 (bio_get_uint32 o.1).0) e2
    ∙ ap (λ o. add (some p) (length name) o.0 (bio_get_uint32 o.1).0) e3
    ∙ ap (λ a. add (some p) (length name) ptr a.0) e4
    ∙ ap (λ n. done n (read16s r.memory (p + 2 * length name) behind_units)) units
    ∙ ap (done name) (behind_nul r.memory (p + 2 * length name) nul)
    ∙ ap (λ z. reply_added reply (some z))
        (add_nul m name (read16s r.memory (p + 2 * length name + 2) 31) ptr uid (not (allow == 0))
          memory)

-- Behind the header, a request to find one.
get_request :
    (m : Manager) (uid : ℕ) (reply : BinderIo) (name : List ℕ) (r : BinderIo)
    → Ready r (text name ∷ [])
    → handle_get m uid r reply ≡ reply_found m reply (some (do_find_service m name uid))
unfolding handle_get
get_request m uid reply name r ready =
    let (p, r2, e2, ready2, mem2, units, nul) = next_text r [] name ready in
    ap (λ q. reply_found m reply (find_named m q.2.memory q.0 q.1 uid)) e2
    ∙ ap (λ n. reply_found m reply (some (do_find_service m n uid)))
        (ap (λ f. read16s f p (length name)) mem2 ∙ units)

-- The requests as a client writes them.
abbrev pub add_items : ℕ → List ℕ → ℕ → ℕ → List Item
add_items policy name ptr allow =
    word policy ∷ text svcmgr_id ∷ text name ∷ handle ptr ∷ word allow ∷ []

abbrev pub get_items_of : ℕ → List ℕ → List Item
get_items_of policy name = word policy ∷ text svcmgr_id ∷ text name ∷ []

-- A message with these items, as the service manager receives it.
abbrev pub request : Translation → BinderIo → ℕ → ℕ → List Item → ℕ → ℕ → BinderTxn
request give bio maxdata maxoffs items code uid =
    call_txn give (put_items (bio_init bio maxdata maxoffs) items) svcmgr_handle code uid

module _ (give : Translation) (bio : BinderIo) (maxdata maxoffs uid policy : ℕ) (name : List ℕ)
    (m : Manager) (reply : BinderIo) (memory : Bool) where
  -- svcmgr_handler, on a message that a client has written with the bio_put_ functions and that
  -- did not overflow, of a policy word, the interface name, a service name, a reference and a
  -- flag, sent to the service manager with the code for registration and delivered by a driver
  -- that gives it a reference, not null, for the sender's, follows no null pointer and does what
  -- do_add_service specifies for that name, the reference delivered, the sender and the flag. If
  -- that succeeds it puts the word 0 into the reply and returns 0, else it leaves the reply as it
  -- was and returns -1.
  pub svcmgr_handler_add :
      (ptr allow : ℕ)
      → All IsItem (add_items policy name ptr allow)
      → All (IsDelivered give) (add_items policy name ptr allow)
      → (put_items (bio_init bio maxdata maxoffs) (add_items policy name ptr allow)).overflow
        ≡ false
      → svcmgr_handler m
          (request give bio maxdata maxoffs (add_items policy name ptr allow) 3 uid)
          (bio_init_from_txn
            (request give bio maxdata maxoffs (add_items policy name ptr allow) 3 uid))
          reply
          memory
        ≡ (let (done, after) =
              do_add_service m name [] (give type_handle ptr).1 uid (not (allow == 0)) memory in
            some (done, after, if done then bio_put_uint32 reply 0 else reply))
  unfolding dispatch call_txn
  svcmgr_handler_add ptr allow valid known fits =
      let items = add_items policy name ptr allow in
      let txn = request give bio maxdata maxoffs items 3 uid in
      let (r, ready, e) =
        header m txn policy (text name ∷ handle (give type_handle ptr).1 ∷ word allow ∷ []) reply
          memory refl
          (sent-Ready bio maxdata maxoffs give svcmgr_handle 3 uid items valid known fits) in
      e ∙ add_request m uid reply memory name (give type_handle ptr).1 allow r ready

  -- svcmgr_handler, on a message that a client has written with the bio_put_ functions and that
  -- did not overflow, of a policy word, the interface name and a service name, sent with one of
  -- the two codes for a lookup, follows no null pointer, leaves the registry as it is, puts the
  -- reference that do_find_service specifies for the name and the sender into the reply by
  -- bio_put_ref, or the word 0 if that is null, and returns 0.
  pub svcmgr_handler_get :
      (code : ℕ)
      → (code ≡ 1) ⊎ (code ≡ 2)
      → All IsItem (get_items_of policy name)
      → (put_items (bio_init bio maxdata maxoffs) (get_items_of policy name)).overflow ≡ false
      → svcmgr_handler m
          (request give bio maxdata maxoffs (get_items_of policy name) code uid)
          (bio_init_from_txn (request give bio maxdata maxoffs (get_items_of policy name) code uid))
          reply
          memory
        ≡ (let found = do_find_service m name uid in
            some (true, m, if found == 0 then bio_put_uint32 reply 0 else bio_put_ref reply found))
  unfolding dispatch call_txn
  svcmgr_handler_get code is_get valid fits =
      let items = get_items_of policy name in
      let txn = request give bio maxdata maxoffs items code uid in
      let (r, ready, e) = header m txn policy (text name ∷ []) reply memory refl (
        sent-Ready bio maxdata maxoffs give svcmgr_handle code uid items valid (tt, (tt, (tt, tt)))
          fits) in
      let asks : ((code == 1) || (code == 2)) ≡ true = ground (arith, is_get) in
      e ∙ rw (dispatch, asks) (get_request m uid reply name r ready)
