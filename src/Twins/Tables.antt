-- ===== src/Twins/Tables.antt =====
-- src/hil_controller/db/twins.sql and twin_models.py: the rows and the observations of physical units.
-- A timestamp is the instant in microseconds: the texts of `iso`, all in UTC, are ordered as their
-- instants. A table is the list of its rows in the order of their insertion.
use sbc_mcu_dut_controller.Prelude.{
  ℕ, String, Bool, true, false, not, ◌&&◌, ◌||◌, Option, List, [], ◌∷◌, if◌then◌else◌, str_eq,
  truthy, any, is_null,
}
use sbc_mcu_dut_controller.Prelude.Json.{Fields}

pub data Confidence : Type 0 where
  verified reported inferred : Confidence

pub record Identity : Type 0 where
  pub namespace : String
  pub kind : String
  pub value : String
  pub owner : String
  pub component : String
  pub unique : Bool
  pub confidence : Confidence
  pub evidence : String

pub record Port : Type 0 where
  pub id : String
  pub kind : String
  pub mode : Option String
  pub attributes : Fields

pub data SlotKind : Type 0 where
  device host strand_component peripheral aux camera : SlotKind

pub record Slot : Type 0 where
  pub kind : SlotKind
  pub id : String
  pub expected_twin_id : Option String

pub record Observation : Type 0 where
  pub observation_id : String
  pub source : String
  pub observed_at : ℕ
  pub twin_id : Option String
  pub kind : Option String
  pub label : Option String
  pub pool : String
  pub identities : List Identity
  pub attributes : Fields
  pub ports : List Port
  pub slot : Option Slot

pub record Connection : Type 0 where
  pub id : String
  pub from_twin_id : String
  pub from_port : String
  pub to_twin_id : String
  pub to_port : String
  pub kind : String
  pub state : String
  pub attributes : Fields
  pub source : String
  pub confidence : Confidence
  pub evidence : String
  pub started_at : ℕ

pub record CloseConnection : Type 0 where
  pub ended_at : ℕ
  pub source : String
  pub reason : String

abbrev pub is_verified : Confidence → Bool
is_verified verified = true
is_verified _ = false

-- The validator of an identity.
unfoldable pub ownership : Identity → Bool
ownership i =
    if str_eq i.kind "endpoint_serial" && not (str_eq i.owner "endpoint")
    then false
    else if str_eq i.owner "endpoint" && not (str_eq i.kind "endpoint_serial")
    then false
    else if str_eq i.kind "silicon_uid" && not (str_eq i.owner "chip")
    then false
    else if str_eq i.kind "board_serial" && not (str_eq i.owner "board")
    then false
    else if i.unique && not (is_verified i.confidence)
    then false
    else true

abbrev pub distinct_ids : List Port → Bool
distinct_ids [] = true
distinct_ids (p ∷ ps) = not (any (λ (q : Port). str_eq q.id p.id) ps) && distinct_ids ps

-- The validator of an observation.
unfoldable pub valid_creation : Observation → Bool
valid_creation o =
    if is_null o.twin_id && (not (truthy o.kind) || not (truthy o.label))
    then false
    else distinct_ids o.ports

-- A row of physical_twins. `valid_creation` makes kind and label texts.
pub record PhysicalTwin : Type 0 where
  pub id : String
  pub kind : Option String
  pub label : Option String
  pub pool : String
  pub created_at : ℕ

pub record TwinObservation : Type 0 where
  pub observation_id : String
  pub twin_id : String
  pub source : String
  pub observed_at : ℕ
  pub received_at : ℕ
  pub actor : String
  pub payload_json : String

pub record TwinIdentity : Type 0 where
  pub twin_id : String
  pub namespace : String
  pub kind : String
  pub value : String
  pub owner : String
  pub component : String
  pub is_unique : Bool
  pub confidence : Confidence
  pub evidence : String
  pub first_seen_at : ℕ
  pub last_seen_at : ℕ
  pub observation_id : String

pub record TwinPort : Type 0 where
  pub twin_id : String
  pub id : String
  pub kind : String
  pub mode : Option String
  pub attributes_json : String
  pub observed_at : ℕ
  pub observation_id : String

pub record Assignment : Type 0 where
  pub slot_kind : String
  pub slot_id : String
  pub twin_id : String
  pub assigned_at : ℕ
  pub ended_at : Option ℕ
  pub observation_id : String
  pub ended_by_observation : Option String

pub record TwinConnection : Type 0 where
  pub id : String
  pub from_twin_id : String
  pub from_port : String
  pub to_twin_id : String
  pub to_port : String
  pub kind : String
  pub state : String
  pub attributes_json : String
  pub source : String
  pub confidence : Confidence
  pub evidence : String
  pub started_at : ℕ
  pub ended_at : Option ℕ
  pub close_source : Option String
  pub close_reason : Option String
  pub close_actor : Option String
  pub actor : String

-- The ids in the tables of the runtime topology.
pub record Topology : Type 0 where
  pub devices : List String
  pub hosts : List String
  pub strand_components : List String
  pub peripherals : List String
  pub auxes : List String
  pub cameras : List String

abbrev pub kind_text : SlotKind → String
kind_text device = "device"
kind_text host = "host"
kind_text strand_component = "strand_component"
kind_text peripheral = "peripheral"
kind_text aux = "aux"
kind_text camera = "camera"

-- `SLOT_TABLES[kind]`
abbrev pub slot_table : SlotKind → Topology → List String
slot_table device t = t.devices
slot_table host t = t.hosts
slot_table strand_component t = t.strand_components
slot_table peripheral t = t.peripherals
slot_table aux t = t.auxes
slot_table camera t = t.cameras

pub record Tables : Type 0 where
  pub twins : List PhysicalTwin
  pub observations : List TwinObservation
  pub identities : List TwinIdentity
  pub ports : List TwinPort
  pub assignments : List Assignment
  pub connections : List TwinConnection
  pub topology : Topology

-- The status and the detail of an HTTP error.
pub record TwinError : Type 0 where
  pub status : ℕ
  pub detail : String

pub data Outcome {ℓ} (A : Type ℓ) : Type ℓ where
  ok : A → Outcome A
  raise : TwinError → Outcome A

-- A statement of the open transaction.
abbrev pub M : Type 0 → Type 0
M A = Tables → Outcome A × Tables

abbrev pub pure : {A : Type 0} → A → M A
pure a t = (ok a, t)

abbrev pub error : {A : Type 0} → (status : ℕ) (detail : String) → M A
error status detail t = (raise (record { status = status; detail = detail }), t)

abbrev pub continue : {A B : Type 0} → Outcome A → (A → M B) → M B
continue (ok a) f t = f a t
continue (raise e) f t = (raise e, t)

infixl 5 ◌>>=◌ ◌>>◌
unfoldable pub ◌>>=◌ : {A B : Type 0} → M A → (A → M B) → M B
◌>>=◌ m f t = let (r, t') = m t in continue r f t'

abbrev pub ◌>>◌ : {B : Type 0} → M Unit → M B → M B
m >> k = m >>= λ _. k

-- `if refused: raise TwinError(status, detail)`
unfoldable pub raise_if : {A : Type 0} → Bool → (status : ℕ) (detail : String) → M A → M A
raise_if refused status detail m t = if refused then error status detail t else m t

-- `if not done: …`
unfoldable pub unless : Bool → M Unit → M Unit
unless done m t = if done then pure tt t else m t

-- The statements that write to a table.
abbrev pub set_twins : List PhysicalTwin → M Unit
set_twins rows t = pure tt (record t { twins = rows })

abbrev pub set_observations : List TwinObservation → M Unit
set_observations rows t = pure tt (record t { observations = rows })

abbrev pub set_identities : List TwinIdentity → M Unit
set_identities rows t = pure tt (record t { identities = rows })

abbrev pub set_ports : List TwinPort → M Unit
set_ports rows t = pure tt (record t { ports = rows })

abbrev pub set_assignments : List Assignment → M Unit
set_assignments rows t = pure tt (record t { assignments = rows })

abbrev pub set_connections : List TwinConnection → M Unit
set_connections rows t = pure tt (record t { connections = rows })

-- A for loop.
abbrev pub each : {A : Type 0} → (A → M Unit) → List A → M Unit
each f [] = pure tt
each f (x ∷ xs) = f x >> each f xs
