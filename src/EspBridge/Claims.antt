-- ===== src/EspBridge/Claims.antt =====
-- `describe_channel_exhaustion` of src/hil_controller/adapters/esp_usbip_bridge.py. A snapshot is read
-- into its fields; a missing count is 0.
use sbc_mcu_dut_controller.Prelude.{
  ℕ, ◌<◌, String, Bool, true, false, ◌&&◌, Option, none, some, List, [], ◌∷◌, ◌≡◌, ◌≢◌, ◌↔◌, refl,
  arith, if◌then◌else◌, ltb, leb, strip, is_empty, str_of, ◌<>◌, select,
}

-- An entry of `devices`.
pub record Holder : Type 0 where
  pub busid : String
  pub claimed_endpoints : ℕ
  pub in_flight : ℕ

pub record Snapshot : Type 0 where
  pub exhaustion_events : ℕ
  pub last_exhaustion_ms_ago : Option ℕ
  pub last_exhaustion_busid : String
  pub estimated_channels_in_use : Option ℕ
  pub channels_total : Option ℕ
  pub devices : List Holder

-- `sorted(…, key=claimed_endpoints, reverse=True)` is stable.
abbrev pub insert_holder : Holder → List Holder → List Holder
insert_holder h [] = h ∷ []
insert_holder h (x ∷ xs) =
    if leb x.claimed_endpoints h.claimed_endpoints then h ∷ x ∷ xs else x ∷ insert_holder h xs

abbrev pub sort_holders : List Holder → List Holder
sort_holders [] = []
sort_holders (h ∷ hs) = insert_holder h (sort_holders hs)

abbrev pub holder_text : Holder → String
holder_text h =
    h.busid
    <> " ("
    <> str_of h.claimed_endpoints
    <> " eps"
    <> (if ltb 0 h.in_flight then ", in flight" else "")
    <> ")"

abbrev pub join_holders : List Holder → String
join_holders [] = ""
join_holders (h ∷ []) = holder_text h
join_holders (h ∷ (i ∷ hs)) = holder_text h <> ", " <> join_holders (i ∷ hs)

-- The message, where the evidence is there.
unfoldable pub exhaustion_message : Snapshot → String
exhaustion_message after =
    let held : String =
      join_holders (select (λ h. ltb 0 h.claimed_endpoints) (sort_holders after.devices)) in
    let busid : String = strip after.last_exhaustion_busid in
    "bridge USB host channels exhausted"
    <> (if is_empty busid then "" else " while claiming for " <> busid)
    <> elim after.estimated_channels_in_use [
      | none ↦ ""
      | some est ↦ elim after.channels_total [
        | none ↦ ""
        | some total ↦ " (~" <> str_of est <> "/" <> str_of total <> " channels held)"
      ]
    ]
    <> (if is_empty held then "" else "; holders: " <> held)
    <> " — end another session or power off an unused port, then retry"

-- The tests that return None, by the snapshot before.
unfoldable pub has_evidence : (before : Option Snapshot) (recent_ms : ℕ) → Snapshot → Bool
has_evidence before recent_ms after = ltb 0 after.exhaustion_events && elim before [
  | some b ↦ ltb b.exhaustion_events after.exhaustion_events
  | none ↦ elim after.last_exhaustion_ms_ago [ none ↦ false | some ms_ago ↦ leb ms_ago recent_ms ]
]

unfoldable pub describe_channel_exhaustion :
    (before after : Option Snapshot) (recent_ms : ℕ) → Option String
unfolding has_evidence exhaustion_message
describe_channel_exhaustion before none recent_ms = none
describe_channel_exhaustion before (some after) recent_ms =
    if has_evidence before recent_ms after then some (exhaustion_message after) else none

grew :
    (before after : Snapshot) (recent_ms : ℕ)
    → (has_evidence (some before) recent_ms after ≡ true)
      ↔ (before.exhaustion_events < after.exhaustion_events)
unfolding has_evidence
grew before after recent_ms = ground arith

answers : (b : Bool) (message : String) → ((if b then some message else none) ≢ none) ↔ (b ≡ true)
answers true message = (λ h. refl, λ e h. cc)
answers false message = (λ h. absurd (h refl), λ e h. cc)

-- With snapshots on both sides of an operation, exhaustion is named exactly where the bridge's counter
-- grew during it.
describe_channel_exhaustion_iff :
    (before after : Snapshot) (recent_ms : ℕ)
    → (describe_channel_exhaustion (some before) (some after) recent_ms ≢ none)
      ↔ (before.exhaustion_events < after.exhaustion_events)
unfolding describe_channel_exhaustion
describe_channel_exhaustion_iff before after recent_ms =
    let a = answers (has_evidence (some before) recent_ms after) (exhaustion_message after) in
    let g = grew before after recent_ms in (λ h. g.0 (a.0 h), λ l. a.1 (g.1 l))
