-- ===== src/ReactNative/Context.antt =====
-- js/packages/react-native/src/index.ts: what a device says of itself, and the storage that is
-- chosen. The package `react-native-device-info` is the record of what its functions give, `none`
-- for an exception.
use iforevents_sdks.Prelude.{
  String, Bool, true, ◌||◌, Option, none, some, List, [], ◌∷◌, ◌==◌, if◌then◌else◌,
}
use iforevents_sdks.Js.Value.{string, object, Properties, empty, entry, put, assign}
use iforevents_sdks.Context.{library_of}
use iforevents_sdks.Node.{put_intl}

pub record DeviceInfo : Type 0 where
  pub brand : Option String
  pub model : Option String
  pub system_version : Option String
  pub version : Option String
  pub build_number : Option String
  pub application_name : Option String

-- `device_info` is `none` where the package is missing, `intl` where `Intl` throws.
pub record Device : Type 0 where
  pub os : String
  pub version : String
  pub device_info : Option DeviceInfo
  pub intl : Option (Option String × Option String)

pub data StorageChoice : Type 0 where
  passed async_storage memory : StorageChoice

-- `pickStorage`: whether the module has a function `getItem`, if it can be imported.
unfoldable pub pick_storage : Option Bool → StorageChoice
pick_storage (some true) = async_storage
pick_storage has_get_item = memory

-- Assignments in order, up to a function that throws.
unfoldable pub put_all : List (String × Option String) → Properties → Properties
put_all [] p = p
put_all ((key, none) ∷ rest) p = p
put_all ((key, some text) ∷ rest) p = put_all rest (put key (string text) p)

-- What is known without the package.
abbrev pub base_context : Device → Properties
base_context device = entry "sdk_name" (string "@iforevents/react-native") (
    entry "sdk_version" (string "0.1.0") (
      entry "runtime" (string "react-native") (
        entry "device_platform" (string device.os) (
          entry "device_os_version" (string device.version) (
            entry "device_brand" (string "")
              (entry "device_model" (string "") (entry "device_app_version" (string "") empty)))))))

abbrev pub put_device : Option DeviceInfo → Properties → Properties
put_device none p = p
put_device (some info) p =
    put_all
      (("device_brand", info.brand)
        ∷ ("device_model", info.model)
        ∷ ("device_os_version", info.system_version)
        ∷ ("device_app_version", info.version)
        ∷ ("device_build_number", info.build_number)
        ∷ [])
      p

-- `reactNativeContext`
unfoldable pub react_native_context : Device → Properties → Properties
unfolding put_all
react_native_context device extra =
    assign (assign empty (put_device device.device_info (base_context device))) extra

abbrev pub device_type : String → String
device_type os = if (os == "ios") || (os == "android") then os else "desktop"

-- The assignments to the event context that use the package, in order.
abbrev pub put_app : DeviceInfo → Properties → Properties
put_app info p = elim info.application_name [
  | none ↦ p
  | some name ↦ elim info.version [
    | none ↦ p
    | some version ↦ elim info.build_number [
      | none ↦ p
      | some build ↦
          put "app"
            (object (
              entry "name" (string name)
                (entry "version" (string version) (entry "build" (string build) empty))))
            p
    ]
  ]
]

abbrev pub put_os : String → DeviceInfo → Properties → Properties
put_os os info p = elim info.system_version [
  | none ↦ p
  | some version ↦ put_app info (put "os" (library_of os version) p)
]

abbrev pub put_info : String → Option DeviceInfo → Properties → Properties
put_info os none p = p
put_info os (some info) p = elim info.brand [
  | none ↦ p
  | some brand ↦ elim info.model [
    | none ↦ p
    | some model ↦ put_os os info (
        put "device"
          (object (
            entry "type" (string (device_type os))
              (entry "manufacturer" (string brand) (entry "model" (string model) empty))))
          p)
  ]
]

-- `reactNativeEventContext`
unfoldable pub react_native_event_context : Device → Properties
react_native_event_context device = put_info device.os device.device_info (
    put_intl device.intl (
      entry "library" (library_of "@iforevents/react-native" "0.1.0") (
        entry "device" (object (entry "type" (string (device_type device.os)) empty))
          (entry "os" (library_of device.os device.version) empty))))
