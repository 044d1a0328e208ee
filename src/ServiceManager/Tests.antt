-- ===== src/ServiceManager/Tests.antt =====
-- A service of the NFC process, registered with an empty registry.
use cdroid.ServiceManager.Registry.{do_add_service-Registered, Found}
use cdroid.ServiceManager.{str16eq, svc_can_register, find_svc, Manager, do_add_service}
use cdroid.Prelude.{ℕ, refl, [], ◌∷◌, ◌≡◌, true, false, List}

abbrev pub nfc : List ℕ
nfc = 110 ∷ 102 ∷ 99 ∷ []

abbrev pub empty : Manager
empty = record { svclist = []; commands = [] }

abbrev pub with_nfc : Manager
with_nfc = (do_add_service empty nfc [] 7 1027 false true).1

adds_nfc : do_add_service empty nfc [] 7 1027 false true ≡ (true, with_nfc)
unfolding do_add_service find_svc svc_can_register str16eq
adds_nfc = refl

do_add_service-Registered_example : Found empty with_nfc nfc 7
do_add_service-Registered_example =
    do_add_service-Registered empty with_nfc nfc [] 7 1027 false true true adds_nfc

-- A name of another process is refused.
refuses_phone :
    (do_add_service empty (112 ∷ 104 ∷ 111 ∷ 110 ∷ 101 ∷ []) [] 7 1027 false true).0 ≡ false
unfolding do_add_service find_svc svc_can_register str16eq
refuses_phone = refl
