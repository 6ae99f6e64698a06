-- ===== src/Twins/Api.antt =====
-- `connect` of src/hil_controller/twins.py and the requests of api/twins.py, each a transaction. An
-- HTTPException is a TwinError: its status and its detail.
use sbc_mcu_dut_controller.Prelude.{
  ℕ, String, Bool, true, false, not, ◌&&◌, ◌||◌, Option, none, some, List, [], ◌∷◌, ◌++◌, map,
  if◌then◌else◌, ◌==◌, ltb, truthy, str_eq, sql_eq, any, select, find_first, is_null,
}
use sbc_mcu_dut_controller.Prelude.Json.{Fields}
use sbc_mcu_dut_controller.Auth.{Principal, allows_pool, has_capability}
use sbc_mcu_dut_controller.Twins.Tables.{
  Confidence, verified, reported, inferred, SlotKind, Observation, Connection, CloseConnection,
  Assignment, TwinConnection, kind_text, slot_table, Tables, TwinError, Outcome, ok, raise, M, pure,
  error, raise_if, set_connections, ◌>>=◌, ◌>>◌,
}
use sbc_mcu_dut_controller.Twins.Upserts.{is_port}
use sbc_mcu_dut_controller.Twins.Ingest.{Answer, candidates, require_twin, is_current, ingest}

abbrev pub is_connection : String → TwinConnection → Bool
is_connection id c = str_eq c.id id

abbrev same_confidence : Confidence → Confidence → Bool
same_confidence verified verified = true
same_confidence reported reported = true
same_confidence inferred inferred = true
same_confidence _ _ = false

-- The twin has the port.
unfoldable pub check_port : (twin_id port : String) → M Unit
check_port twin_id port = require_twin twin_id >>= λ _ t.
    raise_if (not (any (is_port twin_id port) t.ports)) 422
      "Connection references an unknown owned port" (pure tt) t

module _ (encoded : Fields → String) where
  -- Every value of the request is the row's.
  abbrev pub same_values : Connection → TwinConnection → Bool
  same_values item c =
      (str_eq c.from_twin_id item.from_twin_id && str_eq c.from_port item.from_port)
      && ((str_eq c.to_twin_id item.to_twin_id && str_eq c.to_port item.to_port)
          && ((str_eq c.kind item.kind && str_eq c.state item.state)
              && ((str_eq c.attributes_json (encoded item.attributes)
                    && str_eq c.source item.source)
                  && (same_confidence c.confidence item.confidence
                      && (str_eq c.evidence item.evidence && (c.started_at == item.started_at))))))

  abbrev pub connection_row : (actor : String) → Connection → TwinConnection
  connection_row actor item = record {
    id = item.id;
    from_twin_id = item.from_twin_id;
    from_port = item.from_port;
    to_twin_id = item.to_twin_id;
    to_port = item.to_port;
    kind = item.kind;
    state = item.state;
    attributes_json = encoded item.attributes;
    source = item.source;
    confidence = item.confidence;
    evidence = item.evidence;
    started_at = item.started_at;
    ended_at = none;
    close_source = none;
    close_reason = none;
    close_actor = none;
    actor = actor;
  }

  abbrev pub insert_connection : (actor : String) → Connection → M TwinConnection
  insert_connection actor item t =
      let new : TwinConnection = connection_row actor item in
      (set_connections (t.connections ++ new ∷ []) >> pure new) t

  abbrev pub connect_or : (actor : String) → Connection → Option TwinConnection → M TwinConnection
  connect_or actor item (some existing) =
      raise_if (not (same_values item existing)) 409
        "Connection ID already used with different content" (pure existing)
  connect_or actor item none =
      check_port item.from_twin_id item.from_port
      >> (check_port item.to_twin_id item.to_port >> insert_connection actor item)

  unfoldable pub connect : (actor : String) → Connection → M TwinConnection
  unfolding check_port
  connect actor item t = connect_or actor item (find_first (is_connection item.id) t.connections) t

abbrev is_at : ℕ → Option ℕ → Bool
is_at at none = false
is_at at (some n) = at == n

-- The connection is closed, and otherwise than asked.
abbrev pub closed_otherwise : CloseConnection → TwinConnection → Bool
closed_otherwise item c =
    not (is_null c.ended_at)
    && (not (is_at item.ended_at c.ended_at)
        || (not (sql_eq c.close_source (some item.source))
            || not (sql_eq c.close_reason (some item.reason))))

-- The UPDATE of one row.
abbrev pub closed : (actor id : String) → CloseConnection → TwinConnection → TwinConnection
closed actor id item c =
    if is_connection id c
    then record c {
      ended_at = some item.ended_at;
      close_source = some item.source;
      close_reason = some item.reason;
      close_actor = some actor;
    }
    else c

abbrev pub close_found : (actor id : String) → CloseConnection → Option TwinConnection → M ℕ
close_found actor id item none t = error 404 "Connection not found" t
close_found actor id item (some c) t =
    raise_if (ltb item.ended_at c.started_at) 422 "Connection cannot end before it starts"
      (raise_if (closed_otherwise item c) 409 "Connection is already closed with different evidence"
        (set_connections (map (closed actor id item) t.connections) >> pure item.ended_at))
      t

unfoldable pub close : (actor id : String) → CloseConnection → M ℕ
close actor id item t = close_found actor id item (find_first (is_connection id) t.connections) t

abbrev pub settle : {A : Type 0} → Tables → Outcome A × Tables → Outcome A × Tables
settle t (ok a, t') = (ok a, t')
settle t (raise e, t') = (raise e, t)

-- BEGIN IMMEDIATE, then COMMIT or ROLLBACK.
abbrev pub transaction : {A : Type 0} → M A → M A
transaction m t = settle t (m t)

unfoldable pub is_refused : Principal → (write : Bool) → Bool
unfolding allows_pool has_capability
is_refused principal write =
    let permitted : Bool =
      has_capability principal (if write then "inventory:write" else "inventory:read")
      || (not write && has_capability principal "inventory:write") in
    not permitted || not (allows_pool principal "*")

unfoldable pub authorize : Principal → (write : Bool) → M Unit
unfolding is_refused
authorize principal write =
    raise_if (is_refused principal write) 403
      "Physical inventory requires inventory capability and all pools" (pure tt)

pub data Preview : Type 0 where
  valid : (candidates : List String) (action : String) (replayed : Bool) → Preview
  conflict : (candidates : List String) → TwinError → Preview

-- A row of the LEFT JOIN
pub record SlotRow : Type 0 where
  pub id : String
  pub twin_id : Option String
  pub assigned_at : Option ℕ

abbrev pub joined : (id : String) → List Assignment → List SlotRow
joined id [] = record { id = id; twin_id = none; assigned_at = none } ∷ []
joined id (a ∷ as') =
    map
      (λ (b : Assignment). record {
        id = id;
        twin_id = some b.twin_id;
        assigned_at = some b.assigned_at;
      })
      (a ∷ as')

abbrev pub slot_rows : SlotKind → List String → List Assignment → List SlotRow
slot_rows kind [] rows = []
slot_rows kind (id ∷ ids) rows =
    joined id (select (is_current (kind_text kind) id) rows) ++ slot_rows kind ids rows

-- The slots of the answer; the ids of a table are listed in their order.
unfoldable pub list_slots : Principal → SlotKind → M (List SlotRow)
unfolding authorize
list_slots principal kind = authorize principal false >> λ t.
    pure (slot_rows kind (slot_table kind t.topology) t.assignments) t

module _ (encoded : Fields → String) (payload : Observation → String) (principal : Principal) where
  unfoldable pub observe : (fresh : String) (now : ℕ) → Observation → M Answer
  unfolding ingest authorize
  observe fresh now o =
      authorize principal true >> transaction (ingest encoded payload principal.subject fresh now o)

  abbrev pub previewed : Observation → List String → Outcome Answer → Preview
  previewed o matches (raise e) = conflict matches e
  previewed o matches (ok a) =
      valid matches
        (if a.replayed then "replay" else if truthy o.twin_id then "update" else "create")
        a.replayed

  unfoldable pub preview : (fresh : String) (now : ℕ) → Observation → M Preview
  unfolding ingest authorize candidates
  preview fresh now o = authorize principal false >> λ t.
      pure
        (previewed o (candidates o.identities t)
          (ingest encoded payload principal.subject fresh now o t).0)
        t

  unfoldable pub create_connection : Connection → M TwinConnection
  unfolding connect authorize
  create_connection item =
      authorize principal true >> transaction (connect encoded principal.subject item)

  unfoldable pub close_connection : (id : String) → CloseConnection → M ℕ
  unfolding close authorize
  close_connection id item =
      authorize principal true >> transaction (close principal.subject id item)

-- A request that writes to the inventory, with what the controller makes up for it.
pub data Request : Type 0 where
  observes : Principal → (fresh : String) (now : ℕ) → Observation → Request
  connects : Principal → Connection → Request
  closes : Principal → (id : String) → CloseConnection → Request

module _ (encoded : Fields → String) (payload : Observation → String) where
  unfoldable pub handle : Request → Tables → Tables
  unfolding observe create_connection close_connection
  handle (observes p fresh now o) t = (observe encoded payload p fresh now o t).1
  handle (connects p item) t = (create_connection encoded payload p item t).1
  handle (closes p id item) t = (close_connection encoded payload p id item t).1

  unfoldable pub serve : List Request → Tables → Tables
  unfolding handle
  serve [] t = t
  serve (r ∷ rs) t = serve rs (handle r t)
