-- ===== src/ServiceManager.antt =====
-- The registry of services of cmds/servicemanager/service_manager.c. A name is the list of its 16-bit
-- units, a reference to a service a number, 0 for a null pointer. An entry of the list is known by
-- its name. Debug output is left out.
pub mod Registry
pub mod Bio
pub mod Handler
pub mod Parse
mod Tests
mod MessageTests
use cdroid.Prelude.{
  ◌++◌, ltb, length, not, ◌&&◌, ◌||◌, if◌then◌else◌, ◌==◌, leb, ℕ, ◌%◌, List, [], ◌∷◌, ◌++◌, Bool,
  true, false, Option, none, some,
}

-- AID_ constants.
abbrev pub aid_system : ℕ
aid_system = 1000

abbrev aid_radio : ℕ
aid_radio = 1001

abbrev aid_bluetooth : ℕ
aid_bluetooth = 1002

abbrev aid_media : ℕ
aid_media = 1013

abbrev aid_keystore : ℕ
aid_keystore = 1017

abbrev aid_drm : ℕ
aid_drm = 1019

abbrev aid_nfc : ℕ
aid_nfc = 1027

abbrev allowed : List (ℕ × List ℕ)
allowed =
    -- media.audio_flinger
    (
      aid_media,
      109 ∷ 101 ∷ 100 ∷ 105 ∷ 97 ∷ 46 ∷ 97 ∷ 117 ∷ 100 ∷ 105 ∷ 111 ∷ 95 ∷ 102 ∷ 108 ∷ 105 ∷ 110
          ∷ 103 ∷ 101 ∷ 114 ∷ [],
    )
    ∷
        -- media.log
        (aid_media, 109 ∷ 101 ∷ 100 ∷ 105 ∷ 97 ∷ 46 ∷ 108 ∷ 111 ∷ 103 ∷ [])
    ∷
        -- media.player
        (aid_media, 109 ∷ 101 ∷ 100 ∷ 105 ∷ 97 ∷ 46 ∷ 112 ∷ 108 ∷ 97 ∷ 121 ∷ 101 ∷ 114 ∷ [])
    ∷
        -- media.camera
        (aid_media, 109 ∷ 101 ∷ 100 ∷ 105 ∷ 97 ∷ 46 ∷ 99 ∷ 97 ∷ 109 ∷ 101 ∷ 114 ∷ 97 ∷ [])
    ∷
        -- media.audio_policy
        (
          aid_media,
          109 ∷ 101 ∷ 100 ∷ 105 ∷ 97 ∷ 46 ∷ 97 ∷ 117 ∷ 100 ∷ 105 ∷ 111 ∷ 95 ∷ 112 ∷ 111 ∷ 108 ∷ 105
              ∷ 99 ∷ 121 ∷ [],
        )
    ∷
        -- drm.drmManager
        (
          aid_drm,
          100 ∷ 114 ∷ 109 ∷ 46 ∷ 100 ∷ 114 ∷ 109 ∷ 77 ∷ 97 ∷ 110 ∷ 97 ∷ 103 ∷ 101 ∷ 114 ∷ [],
        )
    ∷
        -- nfc
        (aid_nfc, 110 ∷ 102 ∷ 99 ∷ [])
    ∷
        -- bluetooth
        (aid_bluetooth, 98 ∷ 108 ∷ 117 ∷ 101 ∷ 116 ∷ 111 ∷ 111 ∷ 116 ∷ 104 ∷ [])
    ∷
        -- radio.phone
        (aid_radio, 114 ∷ 97 ∷ 100 ∷ 105 ∷ 111 ∷ 46 ∷ 112 ∷ 104 ∷ 111 ∷ 110 ∷ 101 ∷ [])
    ∷
        -- radio.sms
        (aid_radio, 114 ∷ 97 ∷ 100 ∷ 105 ∷ 111 ∷ 46 ∷ 115 ∷ 109 ∷ 115 ∷ [])
    ∷
        -- radio.phonesubinfo
        (
          aid_radio,
          114 ∷ 97 ∷ 100 ∷ 105 ∷ 111 ∷ 46 ∷ 112 ∷ 104 ∷ 111 ∷ 110 ∷ 101 ∷ 115 ∷ 117 ∷ 98 ∷ 105 ∷ 110
              ∷ 102 ∷ 111 ∷ [],
        )
    ∷
        -- radio.simphonebook
        (
          aid_radio,
          114 ∷ 97 ∷ 100 ∷ 105 ∷ 111 ∷ 46 ∷ 115 ∷ 105 ∷ 109 ∷ 112 ∷ 104 ∷ 111 ∷ 110 ∷ 101 ∷ 98 ∷ 111
              ∷ 111 ∷ 107 ∷ [],
        )
    ∷
        -- phone
        (aid_radio, 112 ∷ 104 ∷ 111 ∷ 110 ∷ 101 ∷ [])
    ∷
        -- sip
        (aid_radio, 115 ∷ 105 ∷ 112 ∷ [])
    ∷
        -- isms
        (aid_radio, 105 ∷ 115 ∷ 109 ∷ 115 ∷ [])
    ∷
        -- iphonesubinfo
        (aid_radio, 105 ∷ 112 ∷ 104 ∷ 111 ∷ 110 ∷ 101 ∷ 115 ∷ 117 ∷ 98 ∷ 105 ∷ 110 ∷ 102 ∷ 111 ∷ [])
    ∷
        -- simphonebook
        (aid_radio, 115 ∷ 105 ∷ 109 ∷ 112 ∷ 104 ∷ 111 ∷ 110 ∷ 101 ∷ 98 ∷ 111 ∷ 111 ∷ 107 ∷ [])
    ∷
        -- common_time.clock
        (
          aid_media,
          99 ∷ 111 ∷ 109 ∷ 109 ∷ 111 ∷ 110 ∷ 95 ∷ 116 ∷ 105 ∷ 109 ∷ 101 ∷ 46 ∷ 99 ∷ 108 ∷ 111 ∷ 99
              ∷ 107 ∷ [],
        )
    ∷
        -- common_time.config
        (
          aid_media,
          99 ∷ 111 ∷ 109 ∷ 109 ∷ 111 ∷ 110 ∷ 95 ∷ 116 ∷ 105 ∷ 109 ∷ 101 ∷ 46 ∷ 99 ∷ 111 ∷ 110 ∷ 102
              ∷ 105 ∷ 103 ∷ [],
        )
    ∷
        -- android.security.keystore
        (
          aid_keystore,
          97 ∷ 110 ∷ 100 ∷ 114 ∷ 111 ∷ 105 ∷ 100 ∷ 46 ∷ 115 ∷ 101 ∷ 99 ∷ 117 ∷ 114 ∷ 105 ∷ 116 ∷ 121
              ∷ 46 ∷ 107 ∷ 101 ∷ 121 ∷ 115 ∷ 116 ∷ 111 ∷ 114 ∷ 101 ∷ [],
        )
    ∷ []

-- str16eq; a list ends where a NUL stands.
unfoldable pub str16eq : List ℕ → List ℕ → Bool
str16eq [] [] = true
str16eq [] (b ∷ bs) = b == 0
str16eq (a ∷ as_) [] = a == 0
str16eq (a ∷ as_) (b ∷ bs) =
    let rest = str16eq as_ bs in
    if a == 0 || b == 0 then (a == 0) && (b == 0) else if a == b then rest else false

abbrev pub is_allowed : List (ℕ × List ℕ) → ℕ → List ℕ → Bool
is_allowed [] uid name = false
is_allowed ((u, n) ∷ table) uid name = ((uid == u) && str16eq name n) || is_allowed table uid name

unfoldable pub svc_can_register : ℕ → List ℕ → Bool
svc_can_register uid name = (uid == 0) || (uid == aid_system) || is_allowed allowed uid name

pub record SvcInfo : Type 0 where
  pub ptr : ℕ
  pub allow_isolated : Bool
  pub name : List ℕ

-- What the registry asks of the driver.
pub data Command : Type 0 where
  binder_release : ℕ → Command
  binder_acquire : ℕ → Command
  binder_link_to_death : ℕ → List ℕ → Command

-- `commands` are those sent so far, the last one first.
pub record Manager : Type 0 where
  pub svclist : List SvcInfo
  pub commands : List Command

-- Equal lengths, and memcmp.
abbrev pub same_name : List ℕ → List ℕ → Bool
same_name [] [] = true
same_name [] (b ∷ bs) = false
same_name (a ∷ as_) [] = false
same_name (a ∷ as_) (b ∷ bs) = (a == b) && same_name as_ bs

unfoldable pub find_svc : List ℕ → List SvcInfo → Option SvcInfo
find_svc name [] = none
find_svc name (si ∷ list) =
    let rest = find_svc name list in if same_name name si.name then some si else rest

-- The entry with this name, changed.
abbrev pub put_svc : List ℕ → (SvcInfo → SvcInfo) → List SvcInfo → List SvcInfo
put_svc name f [] = []
put_svc name f (si ∷ list) =
    if same_name name si.name then f si ∷ list else si ∷ put_svc name f list

unfoldable pub svcinfo_death : Manager → SvcInfo → Manager
svcinfo_death m si = if si.ptr == 0 then m else record m {
  svclist = put_svc si.name (λ i. record i { ptr = 0 }) m.svclist;
  commands = binder_release si.ptr ∷ m.commands;
}

-- AID_USER, AID_ISOLATED_START and AID_ISOLATED_END
abbrev pub is_isolated : ℕ → Bool
is_isolated uid = leb 99000 (uid % 100000) && leb (uid % 100000) 99999

unfoldable pub do_find_service : Manager → List ℕ → ℕ → ℕ
do_find_service m name uid = elim (find_svc name m.svclist) [
  | none ↦ 0
  | some si ↦
      if si.ptr == 0 then 0 else if not si.allow_isolated && is_isolated uid then 0 else si.ptr
]

-- The commands at the end of do_add_service.
abbrev pub watch : Manager → ℕ → List ℕ → Manager
watch m ptr name = record m {
  commands = binder_link_to_death ptr name ∷ binder_acquire ptr ∷ m.commands;
}

-- `behind` are the units in memory behind those of the name, up to a NUL.
abbrev pub refuses : List ℕ → List ℕ → ℕ → ℕ → Bool
refuses name behind ptr uid =
    (ptr == 0)
    || (length name == 0)
    || ltb 127 (length name)
    || not (svc_can_register uid (name ++ behind))

-- true is the result 0; `memory` says that malloc finds room.
unfoldable pub do_add_service : Manager → List ℕ → List ℕ → ℕ → ℕ → Bool → Bool → Bool × Manager
do_add_service m name behind ptr uid allow_isolated memory =
    if refuses name behind ptr uid then (false, m) else elim (find_svc name m.svclist) [
      | some si ↦
          let q = svcinfo_death m si in
          (
            true,
            watch (record q { svclist = put_svc name (λ i. record i { ptr = ptr }) q.svclist }) ptr
                name,
          )
      | none ↦
          if memory
          then (
            true,
            watch
                (record m {
                  svclist =
                      record { ptr = ptr; allow_isolated = allow_isolated; name = name }
                      ∷ m.svclist;
                })
                ptr name,
          )
          else (false, m)
    ]
