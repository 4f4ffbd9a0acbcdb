-- ===== src/Context/Platforms/Native.antt =====
-- The context of the react-native package.
use iforevents_sdks.Prelude.{
  ◌⊎◌, ◌≡◌, refl, String, true, Option, none, some, ◌==◌, eq_iff, arith, Bool-cases, Option-cases,
  inl, inr,
}
use iforevents_sdks.Js.Value.{string, object, Properties, empty, entry, has, get}
use iforevents_sdks.Context.{library_of}
use iforevents_sdks.Context.Shapes.{shape_at, fits, event_context_fields}
use iforevents_sdks.ReactNative.Context.{
  Device, DeviceInfo, device_type, put_info, react_native_event_context,
}
use iforevents_sdks.ReactNative.Context as NativeContext
use iforevents_sdks.Context.Platforms.Server.{put_intl-SentBy}
use iforevents_sdks.Context.Platforms.Labels.{SentBy, put-SentBy}

device_type_cases :
    (os : String)
    → (device_type os ≡ "ios") ⊎ (device_type os ≡ "android") ⊎ (device_type os ≡ "desktop")
device_type_cases os = elim (Bool-cases (os == "ios")) [
  | inl ios ↦ let e : os ≡ "ios" = ground (arith, eq_iff os "ios") in inl (rw e refl)
  | inr not_ios ↦ elim (Bool-cases (os == "android")) [
    | inl android ↦
        let e : os ≡ "android" = ground (arith, eq_iff os "android") in inr (inl (rw e refl))
    | inr other ↦ inr (inr (rw (not_ios, other) refl))
  ]
]

device_fits :
    (os brand model : String)
    → fits
        (object (
          entry "type"
            (string (device_type os))
            (entry "manufacturer" (string brand) (entry "model" (string model) empty))))
        (shape_at "device" event_context_fields)
      ≡ true
unfolding fits
device_fits os brand model = elim (device_type_cases os) [
  | inl ios ↦ rw ios refl
  | inr (inl android) ↦ rw android refl
  | inr (inr desktop) ↦ rw desktop refl
]

native_base :
    (device : Device)
    → SentBy "@iforevents/react-native" (
        entry "library" (library_of "@iforevents/react-native" "0.1.0") (
          entry "device"
            (object (entry "type" (string (device_type device.os)) empty))
            (entry "os" (library_of device.os device.version) empty)))
unfolding fits has get
native_base device = elim (device_type_cases device.os) [
  | inl ios ↦ rw ios (refl, refl)
  | inr (inl android) ↦ rw android (refl, refl)
  | inr (inr desktop) ↦ rw desktop (refl, refl)
]

put_build-SentBy :
    (info : DeviceInfo) (p : Properties)
    → SentBy "@iforevents/react-native" p
    → SentBy "@iforevents/react-native" (NativeContext.put_app info p)
unfolding fits
put_build-SentBy info p h = elim (Option-cases info.application_name) [
  | inl missing ↦ rw (missing, NativeContext.put_app) h
  | inr (name, n) ↦ elim (Option-cases info.version) [
    | inl missing ↦ rw (n, missing, NativeContext.put_app) h
    | inr (version, v) ↦ elim (Option-cases info.build_number) [
      | inl missing ↦ rw (n, v, missing, NativeContext.put_app) h
      | inr (build, b) ↦
          rw (n, v, b, NativeContext.put_app)
            (put-SentBy "@iforevents/react-native" "app" _ p refl refl h)
    ]
  ]
]

put_system-SentBy :
    (os : String) (info : DeviceInfo) (p : Properties)
    → SentBy "@iforevents/react-native" p
    → SentBy "@iforevents/react-native" (NativeContext.put_os os info p)
unfolding fits
put_system-SentBy os info p h = elim (Option-cases info.system_version) [
  | inl missing ↦ rw (missing, NativeContext.put_os) h
  | inr (version, v) ↦
      rw (v, NativeContext.put_os)
        (put_build-SentBy info _ (put-SentBy "@iforevents/react-native" "os" _ p refl refl h))
]

put_info-SentBy :
    (os : String) (info : Option DeviceInfo) (p : Properties)
    → SentBy "@iforevents/react-native" p
    → SentBy "@iforevents/react-native" (put_info os info p)
put_info-SentBy os none p h = h
put_info-SentBy os (some info) p h = elim (Option-cases info.brand) [
  | inl missing ↦ rw (missing, put_info) h
  | inr (brand, b) ↦ elim (Option-cases info.model) [
    | inl missing ↦ rw (b, missing, put_info) h
    | inr (model, m) ↦
        rw (b, m, put_info)
          (put_system-SentBy os info _ (
            put-SentBy "@iforevents/react-native" "device" _ p refl (device_fits os brand model) h))
  ]
]

pub native-SentBy :
    (device : Device) → SentBy "@iforevents/react-native" (react_native_event_context device)
unfolding react_native_event_context
native-SentBy device =
    put_info-SentBy device.os device.device_info _
      (put_intl-SentBy "@iforevents/react-native" device.intl _ (native_base device))
