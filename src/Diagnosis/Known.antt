-- ===== src/Diagnosis/Known.antt =====
-- `diagnose` of src/launcher/diagnosis.cpp. The regular expression of a failed start is a parameter.
use rift_lift.Common.{
  Bool, not, ◌&&◌, List, [], ◌∷◌, Option, none, some, Text, codes, is_empty, any, find,
  if◌then◌else◌,
}
use rift_lift.Rules.Strings.{lower, split}
use rift_lift.Diagnosis.Lines.{has_part}

pub record Cause : Type 0 where
  pub cause : Text
  pub advice : Text

-- The empty signatures that fill the array are left out.
pub record Rule : Type 0 where
  pub signatures : List Text
  pub names : Cause

abbrev pub rule : List Text → Text → Text → Rule
rule signatures cause advice = record {
  signatures = signatures;
  names = record { cause = cause; advice = advice };
}

abbrev pub known_rules : List Rule
known_rules =
    rule (codes "riftlift: patched 0 executable runtime imports" ∷ [])
      (codes "RiftLift could not hook the game's Oculus runtime calls.")
      (codes "Send a debug report: this game needs a compatibility fix.")
    ∷ rule (codes "non-oculus openxr runtime is not supported" ∷ [])
        (codes "The game's Unity Oculus plugin only accepts Meta's own OpenXR runtime.")
        (codes "Send a debug report: this game needs a compatibility fix.")
    ∷ rule (codes "xr_error_api_version_unsupported" ∷ [])
        (codes "Your OpenXR runtime does not support the OpenXR version the game asked for.")
        (codes "Update your VR runtime (WiVRn, Monado or SteamVR), then start the game again.")
    ∷ rule
        (codes "xr_error_runtime_unavailable"
          ∷ codes "xrcreateinstance failed: -51"
          ∷ codes "openxr result -51"
          ∷ [])
        (codes "Your VR runtime was not running when the game started VR.")
        (codes "Start your VR runtime and connect the headset, then start the game again.")
    ∷ rule (codes "failed to inject" ∷ codes "failed to create process" ∷ [])
        (codes "RiftLift's launcher could not start the game or load its compatibility layer.")
        (codes "Send a debug report.")
    ∷ rule
        (codes "gpu reset"
          ∷ codes "ring timeout"
          ∷ codes "vm fault"
          ∷ codes "illegal opcode in command stream"
          ∷ [])
        (codes "The graphics driver reset the GPU during the game.")
        (codes
          "Update the graphics driver and turn off overlays (MangoHud, vkBasalt, OBS capture), then try again.")
    ∷ rule (codes "vk_error_device_lost" ∷ codes "device lost" ∷ [])
        (codes "The game lost the graphics device.")
        (codes
          "Update the graphics driver and turn off overlays (MangoHud, vkBasalt, OBS capture), then try again.")
    ∷ rule (codes "xr_error_form_factor_unavailable" ∷ [])
        (codes "Your VR runtime had no headset connected.")
        (codes "Connect the headset and make sure it is tracking, then start the game again.")
    ∷ rule (codes "xr_error_graphics_device_invalid" ∷ [])
        (codes "The game and your VR runtime are using different GPUs.")
        (codes "Run both on the same GPU (check settings such as DRI_PRIME), then try again.")
    ∷ rule (codes "out_of_device_memory" ∷ codes "out of device memory" ∷ [])
        (codes "The GPU ran out of memory.")
        (codes
          "Close other programs that use the GPU or lower the headset resolution, then try again.")
    ∷ []

unfoldable pub matches : Text → Rule → Bool
matches text r = any (λ signature. not (is_empty signature) && has_part text signature) r.signatures

-- A line of the game that says that VR did not start.
unfoldable pub failed_start : (Text → Bool) → Text → Bool
failed_start vr_failed line = has_part line (codes "failed to initiali") && vr_failed line

abbrev pub vr_cause : Cause
vr_cause = record {
  cause = codes "The game reported that it could not start VR.";
  advice = codes "Start your VR runtime and connect the headset, then start the game again.";
}

abbrev pub last_resort : (Text → Bool) → Text → Option Rule → Option Cause
last_resort vr_failed text (some r) = some r.names
last_resort vr_failed text none =
    if any (failed_start vr_failed) (split b'\n' text) then some vr_cause else none

unfoldable pub diagnose : (Text → Bool) → Text → Option Cause
diagnose vr_failed evidence =
    let text = lower evidence in last_resort vr_failed text (find (matches text) known_rules)
