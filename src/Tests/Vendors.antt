-- ===== src/Tests/Vendors.antt =====
-- The adapters of vendors over a client whose every second call throws.
use iforevents_sdks.Prelude.{◌≡◌, refl, zero, true, false, none, some, List, [], ◌∷◌, suc}
use iforevents_sdks.Js.Value.{null, string, object, Properties, empty, entry, has}
use iforevents_sdks.Errors.{other}
use iforevents_sdks.Exec.{out_of_fuel}
use iforevents_sdks.Types.{no_hooks, track as track_type}
use iforevents_sdks.Facade.{Member, Facade, Clock, PageOptions, new_facade}
use iforevents_sdks.Facade
use iforevents_sdks.Integration.{base_integration, safe_execute}
use iforevents_sdks.Tests.Facade.{clock}
use iforevents_sdks.Vendors.{Vendor, Adapter, new_adapter, without_client, load_vendor}
use iforevents_sdks.Vendors.AmplitudeNode
use iforevents_sdks.Vendors.MixpanelNode
use iforevents_sdks.Vendors.PostHogNode
use iforevents_sdks.Vendors.SegmentNode
use iforevents_sdks.Vendors.People.{
  PersonCall, identified, tracked, viewed, forgotten, IsQuiet, nobody, runs, Attributed,
}
use iforevents_sdks.Vendors.People.Readers.{
  read_amplitude, read_mixpanel, read_posthog, read_segment,
}
use iforevents_sdks.Vendors.People.Amplitude.{fallback as device}
use iforevents_sdks.Vendors.People.PostHog.{fallback as stranger}
use iforevents_sdks.Vendors.People.Segment.{fallback as visitor}
use iforevents_sdks.Vendors.People.History.{runs_of_adapters-Attributed}
use iforevents_sdks.Vendors.Settling.Silence.{facade_silent}

abbrev vendor : Vendor
vendor = record {
  installed = false;
  answers = λ n. elim n [ zero ↦ none | suc k ↦ some (other "offline") ];
  stringify = λ v. "{}";
  milliseconds = λ t. 1000;
  has_flush = true;
  has_shutdown = false;
}

abbrev amplitude_options : AmplitudeNode.Options
amplitude_options = record {
  hooks = no_hooks;
  api_key = some "key";
  config = empty;
  device_id = none;
}

abbrev mixpanel_options : MixpanelNode.Options
mixpanel_options = record { hooks = no_hooks; token = some "key"; config = empty }

abbrev posthog_options : PostHogNode.Options
posthog_options = record {
  hooks = no_hooks;
  api_key = some "key";
  config = empty;
  anonymous_id = some "visitor";
}

abbrev segment_options : SegmentNode.Options
segment_options = record {
  hooks = no_hooks;
  write_key = some "key";
  config = empty;
  anonymous_id = none;
}

abbrev given : Properties
given =
    entry "plan" (string "pro")
      (entry "seats" null (entry "address" (object (entry "city" (string "Lima") empty)) empty))

abbrev history : List PersonCall
history =
    tracked (record { name = "Opened"; kind = track_type; properties = empty; timestamp = "t" })
    ∷ identified (record { custom_id = "ana"; traits = given })
    ∷ viewed (record {
      name = "Home";
      properties = given;
      navigation_type = none;
      to_route = some "/";
      previous_route = none;
      timestamp = "t";
    })
    ∷ forgotten
    ∷ tracked (record { name = "Left"; kind = track_type; properties = given; timestamp = "t" })
    ∷ []

quiet : IsQuiet no_hooks
quiet = record { identify = λ e. refl; track = λ e. refl; page = λ e. refl; reset = refl }

runs_of_adapters-Attributed_example :
    Attributed read_amplitude
      (device none)
      history
      none
      []
      (runs (AmplitudeNode.integration amplitude_options vendor) history (new_adapter true))
    × Attributed read_mixpanel nobody history none []
        (runs (MixpanelNode.integration mixpanel_options vendor) history (new_adapter true))
    × Attributed read_posthog
        (stranger (some "visitor"))
        history
        none
        []
        (runs (PostHogNode.integration posthog_options vendor) history (new_adapter true))
    × Attributed read_segment
        (visitor none)
        history
        none
        []
        (runs (SegmentNode.integration segment_options vendor) history (new_adapter true))
unfolding has
runs_of_adapters-Attributed_example =
    runs_of_adapters-Attributed amplitude_options mixpanel_options posthog_options segment_options
      vendor history quiet quiet quiet quiet (tt, (refl, (tt, (tt, (tt, tt)))))
      (refl, (tt, (refl, (tt, (refl, tt)))))

-- Mixpanel's adapter next to a plain integration, with the package missing.
abbrev members : List (Member Adapter)
members =
    record { behaviour = base_integration no_hooks "Plain"; state = new_adapter false }
    ∷ record {
      behaviour = MixpanelNode.integration mixpanel_options vendor;
      state = new_adapter false;
    }
    ∷ []

abbrev initialised : Facade Adapter
initialised = (Facade.init clock [] none (new_facade members (λ n. none))).1

abbrev no_options : PageOptions
no_options = record { navigation_type = none; to_route = none; previous_route = none }

facade_silent_example :
    ((Facade.track clock "Bought" given initialised).0 ≡ out_of_fuel)
    × ((Facade.page clock (some "Bought") given no_options initialised).0 ≡ out_of_fuel)
unfolding Facade.init Facade.new_facade Facade.fan_out Facade.run_all MixpanelNode.init
    without_client load_vendor safe_execute
facade_silent_example =
    facade_silent mixpanel_options vendor clock initialised
      (record { behaviour = base_integration no_hooks "Plain"; state = new_adapter false } ∷ [])
      (new_adapter false) [] "Bought" given no_options refl refl refl (λ e. refl) (λ e. refl) refl
