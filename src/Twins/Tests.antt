-- ===== src/Twins/Tests.antt =====
-- Two boards that are put in turn into one device slot.
use sbc_mcu_dut_controller.Prelude.{
  ℕ, String, true, false, ◌&&◌, Option, none, some, List, [], ◌∷◌, ◌≡◌, refl, ◌≤◌, select, any,
  length, find_first,
}
use sbc_mcu_dut_controller.Prelude.Json.{Fields, no_fields}
use sbc_mcu_dut_controller.Auth.{superuser}
use sbc_mcu_dut_controller.Twins.Tables.{
  verified, Identity, device, Slot, Observation, ownership, valid_creation, TwinIdentity, TwinPort,
  Tables, ok, raise_if, unless, ◌>>=◌,
}
use sbc_mcu_dut_controller.Twins.Upserts.{is_newer, is_port, upsert_port, upsert_identity}
use sbc_mcu_dut_controller.Twins.Ingest.{
  Answer, at_slot, candidates, choose_twin, observe_port, observe_identity, assign_slot, ingest_new,
  ingest,
}
use sbc_mcu_dut_controller.Twins.Api.{
  is_refused, authorize, observe, conflict, preview, Request, observes, handle, serve,
}
use sbc_mcu_dut_controller.Twins.Replayed.{observe-observe}
use sbc_mcu_dut_controller.Twins.Occupied.{serve-one_occupant}
use sbc_mcu_dut_controller.Twins.Histories.{occupies}
use sbc_mcu_dut_controller.Twins.Swapped.{occupant_of, Swapped, observe-Swapped}
use sbc_mcu_dut_controller.Twins.Claimed.{of_value, of_holder, serve-one_claim}
use sbc_mcu_dut_controller.Twins.Newest.{Ordered, upserts-swap}
use sbc_mcu_dut_controller.Twins.Ports.{upserts}

abbrev encoded : Fields → String
encoded f = "{}"

abbrev payload : Observation → String
payload o = o.source

abbrev serial : String → Identity
serial value = record {
  namespace = "usb";
  kind = "board_serial";
  value = value;
  owner = "board";
  component = "main";
  unique = true;
  confidence = verified;
  evidence = "label";
}

abbrev seat : Option String → Slot
seat expected = record { kind = device; id = "d1"; expected_twin_id = expected }

abbrev seen : (id : String) (at : ℕ) (value : String) → Option String → Observation
seen id at value expected = record {
  observation_id = id;
  source = "scan";
  observed_at = at;
  twin_id = none;
  kind = some "board";
  label = some "Pico";
  pool = "public";
  identities = serial value ∷ [];
  attributes = no_fields;
  ports = record { id = "usb0"; kind = "usb"; mode = some "host"; attributes = no_fields } ∷ [];
  slot = some (seat expected);
}

abbrev empty : Tables
empty = record {
  twins = [];
  observations = [];
  identities = [];
  ports = [];
  assignments = [];
  connections = [];
  topology = record {
    devices = "d1" ∷ "d2" ∷ [];
    hosts = [];
    strand_components = [];
    peripherals = [];
    auxes = [];
    cameras = [];
  };
}

abbrev first : Observation
first = seen "o1" 10 "S1" none

abbrev second : Observation
second = seen "o2" 20 "S2" (some "u1")

abbrev swap : List Request
swap = observes superuser "u1" 11 first ∷ observes superuser "u2" 21 second ∷ []

abbrev first_answer : Answer
first_answer = record { twin_id = "u1"; observation_id = "o1"; replayed = false }

valid_input : (ownership (serial "S1") && valid_creation first) ≡ true
unfolding ownership valid_creation
valid_input = refl

first_taken : (observe encoded payload superuser "u1" 11 first empty).0 ≡ ok first_answer
unfolding observe authorize is_refused ingest ingest_new choose_twin candidates observe_port
    observe_identity assign_slot upsert_port upsert_identity raise_if unless ◌>>=◌
first_taken = refl

swapped_twins :
    select (occupies 15) (serve encoded payload swap empty).assignments
    ≡ record {
      slot_kind = "device";
      slot_id = "d1";
      twin_id = "u1";
      assigned_at = 10;
      ended_at = some 20;
      observation_id = "o1";
      ended_by_observation = some "o2";
    }
      ∷ []
unfolding serve handle observe authorize is_refused ingest ingest_new choose_twin candidates
    observe_port observe_identity assign_slot upsert_port upsert_identity raise_if unless ◌>>=◌
swapped_twins = refl

-- The unit is known by its serial.
known :
    preview encoded payload superuser "u3" 30
      (seen "o3" 30 "S1" none)
      (serve encoded payload swap empty)
    ≡ (
      ok (
          conflict ("u1" ∷ []) (record {
            status = 409;
            detail = "Verified identity already known; preview and choose explicit twin_id";
          })),
      serve encoded payload swap empty,
    )
unfolding serve handle preview observe authorize is_refused ingest ingest_new choose_twin candidates
    observe_port observe_identity assign_slot upsert_port upsert_identity raise_if unless ◌>>=◌
known = refl

replayed_example :
    observe encoded payload superuser "u9" 50 first (
      serve encoded payload
        (observes superuser "u2" 21 second ∷ [])
        (observe encoded payload superuser "u1" 11 first empty).1)
    ≡ (
      ok (record { twin_id = "u1"; observation_id = "o1"; replayed = true }),
      serve encoded payload
          (observes superuser "u2" 21 second ∷ [])
          (observe encoded payload superuser "u1" 11 first empty).1,
    )
replayed_example =
    observe-observe encoded payload superuser "u1" 11 first empty first_answer
      (observes superuser "u2" 21 second ∷ []) "u9" 50 first_taken

one_occupant_example :
    length (
      select
        (occupies 20)
        (select (at_slot "device" "d1") (serve encoded payload swap empty).assignments))
    ≤ 1
one_occupant_example =
    serve-one_occupant encoded payload swap empty "device" "d1" 20 (λ kind id. tt)

taken_example :
    Swapped
      (seat none)
      (occupant_of (seat none) empty)
      "u1"
      (observe encoded payload superuser "u1" 11 first empty).1
taken_example =
    observe-Swapped encoded payload superuser "u1" 11 first (seat none) empty first_answer refl
      first_taken refl

abbrev claimed : List TwinIdentity
claimed = select (of_value "usb" "board_serial" "S2") (serve encoded payload swap empty).identities

abbrev held : List TwinIdentity
held =
    select (of_holder "usb" "board_serial" "u2" "board" "main")
      (serve encoded payload swap empty).identities

one_claim_example :
    (any (λ (r : TwinIdentity). r.is_unique) claimed ≡ true → length claimed ≡ 1)
    × (any (λ (r : TwinIdentity). r.is_unique) held ≡ true → length held ≡ 1)
one_claim_example =
    serve-one_claim encoded payload swap empty "usb" "board_serial" "S2" "u2" "board" "main" tt

abbrev plugged : (mode : String) (at : ℕ) (observation_id : String) → TwinPort
plugged mode at observation_id = record {
  twin_id = "u1";
  id = "usb0";
  kind = "usb";
  mode = some mode;
  attributes_json = "{}";
  observed_at = at;
  observation_id = observation_id;
}

ordered : Ordered (plugged "host" 10 "o1") (plugged "device" 10 "o2")
unfolding is_newer
ordered = (refl, λ _. refl)

ports_example :
    find_first
      (is_port "u1" "usb0")
      (upserts (plugged "host" 10 "o1" ∷ plugged "device" 10 "o2" ∷ []) [])
    ≡ find_first
        (is_port "u1" "usb0")
        (upserts (plugged "device" 10 "o2" ∷ plugged "host" 10 "o1" ∷ []) [])
ports_example =
    upserts-swap "u1" "usb0" [] (plugged "host" 10 "o1") (plugged "device" 10 "o2") [] [] ordered
