-- ===== src/Vendors/People/History.antt =====
-- A history of calls and the logs of the four server-side adapters.
use iforevents_sdks.Prelude.{true, none, List, [], ◌∷◌, All}
use iforevents_sdks.Vendors.{Vendor, new_adapter}
use iforevents_sdks.Vendors.AmplitudeNode
use iforevents_sdks.Vendors.MixpanelNode
use iforevents_sdks.Vendors.PostHogNode
use iforevents_sdks.Vendors.SegmentNode
use iforevents_sdks.Vendors.People.{
  PersonCall, NamesSomebody, IsQuiet, nobody, runs, Attributed, runs-Attributed,
}
use iforevents_sdks.Vendors.People.Readers.{
  read_amplitude, read_mixpanel, read_posthog, read_segment,
}
use iforevents_sdks.Vendors.People.Amplitude.{amplitude-Attributes, fallback as device}
use iforevents_sdks.Vendors.People.Mixpanel.{Allowed, mixpanel-Attributes}
use iforevents_sdks.Vendors.People.PostHog.{posthog-Attributes, fallback as stranger}
use iforevents_sdks.Vendors.People.Segment.{segment-Attributes, fallback as visitor}

-- Whatever the clients answer, after a history of calls without an empty user id and with hooks
-- that do not throw, each server-side adapter that was made with a client has handed on exactly one
-- call for each `identify`, `track` and `page` of it, in order, and each names the user identified
-- last before it and since the last `reset`; where there is none, Amplitude's and Segment's name
-- the anonymous id of the options, PostHog's takes it for a user, "server" stands for one that is
-- missing, and Mixpanel's name nobody, provided that no event brings a `distinct_id` of its own.
pub runs_of_adapters-Attributed :
    (amplitude : AmplitudeNode.Options) (mixpanel : MixpanelNode.Options)
    (posthog : PostHogNode.Options) (segment : SegmentNode.Options) (vendor : Vendor)
    (cs : List PersonCall)
    → IsQuiet amplitude.hooks
    → IsQuiet mixpanel.hooks
    → IsQuiet posthog.hooks
    → IsQuiet segment.hooks
    → All NamesSomebody cs
    → All Allowed cs
    → Attributed read_amplitude
        (device amplitude.device_id)
        cs
        none
        []
        (runs (AmplitudeNode.integration amplitude vendor) cs (new_adapter true))
      × Attributed read_mixpanel nobody cs none []
          (runs (MixpanelNode.integration mixpanel vendor) cs (new_adapter true))
      × Attributed read_posthog
          (stranger posthog.anonymous_id)
          cs
          none
          []
          (runs (PostHogNode.integration posthog vendor) cs (new_adapter true))
      × Attributed read_segment
          (visitor segment.anonymous_id)
          cs
          none
          []
          (runs (SegmentNode.integration segment vendor) cs (new_adapter true))
runs_of_adapters-Attributed amplitude mixpanel posthog segment vendor cs qa qm qp qs named allowed =
    (
      runs-Attributed _ _ _ _ (amplitude-Attributes amplitude vendor qa) cs none [] tt named
          (all_units cs),
      runs-Attributed _ _ _ _ (mixpanel-Attributes mixpanel vendor qm) cs none [] tt named allowed,
      runs-Attributed _ _ _ _ (posthog-Attributes posthog vendor qp) cs none [] tt named
          (all_units cs),
      runs-Attributed _ _ _ _ (segment-Attributes segment vendor qs) cs none [] tt named
          (all_units cs),
    )
  where
    all_units : (ds : List PersonCall) → All {A = PersonCall} (λ c. Unit {0}) ds
    all_units [] = tt
    all_units (d ∷ ds) = (tt, all_units ds)
