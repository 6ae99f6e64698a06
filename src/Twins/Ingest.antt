-- ===== src/Twins/Ingest.antt =====
-- `candidates` and `ingest` of src/hil_controller/twins.py. Each function is a statement, or a step of
-- them, inside the caller's transaction.
use sbc_mcu_dut_controller.Prelude.{
  ℕ, String, Bool, true, false, not, ◌&&◌, ◌||◌, Option, none, some, List, [], ◌∷◌, ◌++◌, map,
  if◌then◌else◌, leb, str_eq, sql_eq, any, select, find_first, is_null,
}
use sbc_mcu_dut_controller.Prelude.Json.{Fields}
use sbc_mcu_dut_controller.Twins.Tables.{
  Identity, Port, Slot, Observation, is_verified, PhysicalTwin, TwinObservation, TwinIdentity,
  TwinPort, Assignment, kind_text, slot_table, Tables, M, pure, error, raise_if, unless, set_twins,
  set_observations, set_identities, set_ports, set_assignments, ◌>>=◌, ◌>>◌, each,
}
use sbc_mcu_dut_controller.Twins.Upserts.{
  is_port, upsert_port, upsert_identity, claimed_elsewhere, owned_otherwise,
}

pub record Answer : Type 0 where
  pub twin_id : String
  pub observation_id : String
  pub replayed : Bool

abbrev pub is_twin : String → PhysicalTwin → Bool
is_twin id t = str_eq t.id id

-- The two columns where equal ids are the same unit's.
abbrev pub verified_match : Identity → TwinIdentity → Bool
verified_match i r =
    (str_eq r.namespace i.namespace && (str_eq r.kind i.kind && str_eq r.value i.value))
    && (str_eq r.owner i.owner && (r.is_unique && is_verified r.confidence))

-- The twins of the rows that the loop of `candidates` finds, one for each match.
unfoldable pub candidates : List Identity → Tables → List String
candidates [] t = []
candidates (i ∷ is) t =
    if i.unique && is_verified i.confidence
    then map (λ (r : TwinIdentity). r.twin_id) (select (verified_match i) t.identities)
      ++ candidates is t
    else candidates is t

abbrev pub found_or_404 : Option PhysicalTwin → M PhysicalTwin
found_or_404 none = error 404 "Physical twin not found"
found_or_404 (some row) = pure row

abbrev pub require_twin : String → M PhysicalTwin
require_twin id t = found_or_404 (find_first (is_twin id) t.twins) t

abbrev pub is_observation : String → TwinObservation → Bool
is_observation id r = str_eq r.observation_id id

abbrev pub same_kind : Observation → PhysicalTwin → Bool
same_kind o row = is_null o.kind || sql_eq o.kind row.kind

abbrev pub is_empty {ℓ} : {A : Type ℓ} → List A → Bool
is_empty [] = true
is_empty (x ∷ xs) = false

abbrev pub at_slot : (kind id : String) → Assignment → Bool
at_slot kind id a = str_eq a.slot_kind kind && str_eq a.slot_id id

abbrev pub is_current : (kind id : String) → Assignment → Bool
is_current kind id a = at_slot kind id a && is_null a.ended_at

-- `current_id == expected`, with None for NULL
abbrev pub is_expected : Option String → Option String → Bool
is_expected none none = true
is_expected (some a) (some b) = str_eq a b
is_expected _ _ = false

abbrev pub too_early : ℕ → Option Assignment → Bool
too_early at none = false
too_early at (some a) = leb at a.assigned_at

abbrev pub occupant : Option Assignment → Option String
occupant none = none
occupant (some a) = some a.twin_id

-- The UPDATE of one row.
abbrev pub ended : (kind id : String) (at : ℕ) (observation_id : String) → Assignment → Assignment
ended kind id at observation_id a =
    if is_current kind id a
    then record a { ended_at = some at; ended_by_observation = some observation_id }
    else a

module _ (encoded : Fields → String) (twin_id : String) (at : ℕ) (observation_id : String) where
  abbrev pub port_row : Port → TwinPort
  port_row p = record {
    twin_id = twin_id;
    id = p.id;
    kind = p.kind;
    mode = p.mode;
    attributes_json = encoded p.attributes;
    observed_at = at;
    observation_id = observation_id;
  }

  abbrev pub other_kind : Port → Option TwinPort → Bool
  other_kind p none = false
  other_kind p (some old) = not (str_eq old.kind p.kind)

  unfoldable pub observe_port : Port → M Unit
  unfolding upsert_port
  observe_port p t =
      raise_if (other_kind p (find_first (is_port twin_id p.id) t.ports)) 409
        "Port kind is immutable; use a distinct port ID"
        (set_ports (upsert_port (port_row p) t.ports)) t

  abbrev pub identity_row : Identity → TwinIdentity
  identity_row i = record {
    twin_id = twin_id;
    namespace = i.namespace;
    kind = i.kind;
    value = i.value;
    owner = i.owner;
    component = i.component;
    is_unique = i.unique;
    confidence = i.confidence;
    evidence = i.evidence;
    first_seen_at = at;
    last_seen_at = at;
    observation_id = observation_id;
  }

  unfoldable pub observe_identity : Identity → M Unit
  unfolding upsert_identity
  observe_identity i t =
      let new : TwinIdentity = identity_row i in
      raise_if (str_eq i.owner "endpoint" && not (any (is_port twin_id i.component) t.ports)) 422
        "Endpoint identity component must reference an owned port"
        (raise_if (any (claimed_elsewhere new) t.identities) 409
          "Identity is claimed by another physical twin"
          (raise_if (any (owned_otherwise new) t.identities) 409
            "Owned unique identity changed; create a replacement twin"
            (set_identities (upsert_identity new t.identities))))
        t

  abbrev pub new_assignment : Slot → Assignment
  new_assignment s = record {
    slot_kind = kind_text s.kind;
    slot_id = s.id;
    twin_id = twin_id;
    assigned_at = at;
    ended_at = none;
    observation_id = observation_id;
    ended_by_observation = none;
  }

  unfoldable pub assign_slot : Slot → M Unit
  assign_slot s t =
      let current : Option Assignment =
        find_first (is_current (kind_text s.kind) s.id) t.assignments in
      raise_if (not (any (str_eq s.id) (slot_table s.kind t.topology))) 422
        "Logical slot does not exist in runtime topology"
        (raise_if (not (is_expected (occupant current) s.expected_twin_id)) 409
          "Slot occupant changed; refresh expected_twin_id"
          (unless (is_expected (occupant current) (some twin_id)) (
            raise_if (too_early at current) 409 "Replacement must be later than current assignment"
              (set_assignments (
                map (ended (kind_text s.kind) s.id at observation_id) t.assignments
                ++ new_assignment s ∷ [])))))
        t

  abbrev pub observe_slot : Option Slot → M Unit
  observe_slot none = pure tt
  observe_slot (some s) = assign_slot s

abbrev pub new_twin : (fresh : String) → Observation → PhysicalTwin
new_twin fresh o = record {
  id = fresh;
  kind = o.kind;
  label = o.label;
  pool = o.pool;
  created_at = o.observed_at;
}

-- `str(uuid4())` is `fresh`.
abbrev pub create_twin : (fresh : String) → Observation → M String
create_twin fresh o t =
    raise_if (not (is_empty (candidates o.identities t))) 409
      "Verified identity already known; preview and choose explicit twin_id"
      (set_twins (t.twins ++ new_twin fresh o ∷ []) >> pure fresh) t

abbrev pub check_twin : Observation → (twin_id : String) → PhysicalTwin → M String
check_twin o twin_id row =
    raise_if (not (str_eq o.pool row.pool)) 409 "Observation pool differs from physical twin pool" (
      raise_if (not (same_kind o row)) 409 "Physical kind is immutable; create a replacement twin"
        (pure twin_id))

unfoldable pub choose_twin : (fresh : String) → Observation → Option String → M String
unfolding candidates
choose_twin fresh o (some twin_id) = require_twin twin_id >>= check_twin o twin_id
choose_twin fresh o none = create_twin fresh o

module _ (payload : Observation → String) where
  abbrev pub observation_row :
      (actor : String) (now : ℕ) → Observation → (twin_id : String) → TwinObservation
  observation_row actor now o twin_id = record {
    observation_id = o.observation_id;
    twin_id = twin_id;
    source = o.source;
    observed_at = o.observed_at;
    received_at = now;
    actor = actor;
    payload_json = payload o;
  }

  abbrev pub record_observation :
      (actor : String) (now : ℕ) → Observation → (twin_id : String) → M Unit
  record_observation actor now o twin_id t =
      set_observations (t.observations ++ observation_row actor now o twin_id ∷ []) t

module _ (encoded : Fields → String) (payload : Observation → String) where
  unfoldable pub ingest_new : (actor fresh : String) (now : ℕ) → Observation → M Answer
  unfolding choose_twin observe_port observe_identity assign_slot
  ingest_new actor fresh now o = do
    twin_id ← choose_twin fresh o o.twin_id
    record_observation payload actor now o twin_id
    each (observe_port encoded twin_id o.observed_at o.observation_id) o.ports
    each (observe_identity encoded twin_id o.observed_at o.observation_id) o.identities
    observe_slot encoded twin_id o.observed_at o.observation_id o.slot
    pure (record { twin_id = twin_id; observation_id = o.observation_id; replayed = false })

  abbrev pub replay : Observation → TwinObservation → M Answer
  replay o previous =
      raise_if (not (str_eq previous.payload_json (payload o))) 409
        "Observation ID already used with different content"
        (pure (record {
          twin_id = previous.twin_id;
          observation_id = o.observation_id;
          replayed = true;
        }))

  abbrev pub replay_or : Observation → Option TwinObservation → M Answer → M Answer
  replay_or o (some previous) m = replay o previous
  replay_or o none m = m

  unfoldable pub ingest : (actor fresh : String) (now : ℕ) → Observation → M Answer
  unfolding ingest_new
  ingest actor fresh now o t =
      replay_or o (find_first (is_observation o.observation_id) t.observations)
        (ingest_new actor fresh now o) t
