-- ===== src/ServiceManager/MessageTests.antt =====
-- Messages of a client, and what the service manager makes of them.
use cdroid.ServiceManager.Bio.RoundTrip.{get_items-put_items}
use cdroid.ServiceManager.{do_add_service, do_find_service}
use cdroid.ServiceManager.Handler.{svcmgr_handler}
use cdroid.Memory.{read32}
use cdroid.ServiceManager.Bio.Limits.{bio_get_string16_wraps, bio_get-Within, Within}
use cdroid.Prelude.{
  ◌+◌, inr, map, ◌==◌, some, arith, if◌then◌else◌, [], ◌≡◌, refl, false, true, All,
}
use cdroid.ServiceManager.Tests.{nfc, empty, with_nfc}
use cdroid.ServiceManager.Bio.{
  Translation, call_txn, advance, bio_init_from_txn, bio_get, bio_get_string16, BinderIo, bio_init,
  bio_alloc, bio_put_uint32, bio_put_string16, bio_put_ref, bio_alloc_obj, put_units,
}
use cdroid.ServiceManager.Bio.Items.{IsDelivered, kind_of, get_items, put_items, IsItem}
use cdroid.ServiceManager.Handler.Requests.{
  svcmgr_handler_add, svcmgr_handler_get, request, add_items, get_items_of,
}

abbrev blank : BinderIo
blank = record {
  data_at = 0;
  offs = [];
  data_avail = 0;
  offs_avail = 0;
  overflow = false;
  shared = false;
  memory = λ a. 0;
}

adding : All IsItem (add_items 0 nfc 7 1)
adding = omega arith

-- The driver gives the receiver its reference 5 for the sender's 7.
abbrev given : Translation
given type ptr = (type, if ptr == 7 then 5 else ptr + 1, 0)

adding_known : All (IsDelivered given) (add_items 0 nfc 7 1)
adding_known = (tt, (tt, (tt, ((refl, omega arith), (tt, tt)))))

adding_fits : (put_items (bio_init blank 512 4) (add_items 0 nfc 7 1)).overflow ≡ false
unfolding bio_init bio_alloc bio_put_uint32 bio_put_string16 bio_put_ref bio_alloc_obj put_units
adding_fits = refl

asking : All IsItem (get_items_of 0 nfc)
asking = omega arith

asking_fits : (put_items (bio_init blank 512 4) (get_items_of 0 nfc)).overflow ≡ false
unfolding bio_init bio_alloc bio_put_uint32 bio_put_string16 bio_put_ref bio_alloc_obj put_units
asking_fits = refl

get_items-put_items_example :
    (t : BinderIo) × (get_items
        (bio_init_from_txn
          (call_txn given (put_items (bio_init blank 512 4) (add_items 0 nfc 7 1)) 0 3 1027))
        (map kind_of (add_items 0 nfc 7 1))
      ≡ (add_items 0 nfc 5 1, t))
    × (t.overflow ≡ false)
    × (t.data_avail ≡ 0)
get_items-put_items_example =
    get_items-put_items blank 512 4 given 0 3 1027 (add_items 0 nfc 7 1) adding adding_known
      adding_fits

svcmgr_handler_add_example :
    svcmgr_handler empty
      (request given blank 512 4 (add_items 0 nfc 7 1) 3 1027)
      (bio_init_from_txn (request given blank 512 4 (add_items 0 nfc 7 1) 3 1027))
      blank
      true
    ≡ (let (done, after) = do_add_service empty nfc [] 5 1027 true true in
        some (done, after, if done then bio_put_uint32 blank 0 else blank))
svcmgr_handler_add_example =
    svcmgr_handler_add given blank 512 4 1027 0 nfc empty blank true 7 1 adding adding_known
      adding_fits

svcmgr_handler_get_example :
    svcmgr_handler with_nfc
      (request given blank 512 4 (get_items_of 0 nfc) 2 10001)
      (bio_init_from_txn (request given blank 512 4 (get_items_of 0 nfc) 2 10001))
      blank
      true
    ≡ (let found = do_find_service with_nfc nfc 10001 in
        some
          (true, with_nfc, if found == 0 then bio_put_uint32 blank 0 else bio_put_ref blank found))
svcmgr_handler_get_example =
    svcmgr_handler_get given blank 512 4 10001 0 nfc with_nfc blank true 2 (inr refl) asking
      asking_fits

-- A reader with eight bytes left, the first four of which are 0x7fffffff.
abbrev crafted : BinderIo
crafted = record blank { data_avail = 8; memory = λ a. if a == 3 then 127 else 255 }

bio_get-Within_example : Within crafted 6 (bio_get crafted 6)
bio_get-Within_example = bio_get-Within crafted 6 (omega arith)

huge : read32 crafted.memory 0 ≡ 2147483647
unfolding read32
huge = refl

bio_get_string16_wraps_example :
    bio_get_string16 crafted ≡ (some 4, 2147483647, advance (advance crafted 4) 0)
bio_get_string16_wraps_example = bio_get_string16_wraps crafted (omega arith) huge
