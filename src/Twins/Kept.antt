-- ===== src/Twins/Kept.antt =====
-- What the requests of src/hil_controller/api/twins.py keep, from what the steps of
-- src/hil_controller/twins.py keep.
use sbc_mcu_dut_controller.Prelude.{
  ℕ, String, true, Option, none, some, List, [], ◌∷◌, ◌++◌, find_first,
}
use sbc_mcu_dut_controller.Prelude.Json.{Fields}
use sbc_mcu_dut_controller.Twins.Tables.{
  Identity, Port, Slot, Observation, Connection, CloseConnection, PhysicalTwin, TwinObservation,
  TwinIdentity, TwinPort, Assignment, TwinConnection, Tables, pure, ◌>>=◌, ◌>>◌, set_twins,
  set_connections,
}
use sbc_mcu_dut_controller.Twins.Ingest.{
  is_observation, create_twin, choose_twin, record_observation, observe_port, observe_identity,
  assign_slot, observe_slot, ingest_new, replay_or, ingest,
}
use sbc_mcu_dut_controller.Twins.Api.{
  is_connection, connection_row, insert_connection, connect_or, close_found, check_port, connect,
  close, observe, create_connection, close_connection, Request, observes, connects, closes, handle,
  serve,
}
use sbc_mcu_dut_controller.Twins.Keeps.{
  Keeps, Keeps-bind, Keeps-then, Keeps-each, Keeps-require_twin, Keeps-transaction, Keeps-raise_if,
  Keeps-unless, Keeps-authorize, Keeps-check_twin,
}

-- What is kept whatever is written to the tables of one kind.
module _ (P : Tables → Type 0) where
  pub Keeps-create_twin :
      ((t : Tables) (rows : List PhysicalTwin) → P t → P (record t { twins = rows }))
      → (fresh : String) (o : Observation) → Keeps P (create_twin fresh o)
  unfolding ◌>>=◌
  Keeps-create_twin frame fresh o t =
      Keeps-raise_if P _ _ _ (set_twins _ >> pure fresh) (λ u p. frame u _ p) t

  module _ (encoded : Fields → String) (twin_id : String) (at : ℕ) (observation_id : String) where
    pub Keeps-observe_port :
        ((t : Tables) (rows : List TwinPort) → P t → P (record t { ports = rows }))
        → (p : Port) → Keeps P (observe_port encoded twin_id at observation_id p)
    unfolding observe_port
    Keeps-observe_port frame p t = Keeps-raise_if P _ _ _ _ (λ u q. frame u _ q) t

    pub Keeps-observe_identity :
        ((t : Tables) (rows : List TwinIdentity) → P t → P (record t { identities = rows }))
        → (i : Identity) → Keeps P (observe_identity encoded twin_id at observation_id i)
    unfolding observe_identity
    Keeps-observe_identity frame i t =
        Keeps-raise_if P _ _ _ _
          (Keeps-raise_if P _ _ _ _ (Keeps-raise_if P _ _ _ _ (λ u q. frame u _ q))) t

    pub Keeps-assign_slot :
        ((t : Tables) (rows : List Assignment) → P t → P (record t { assignments = rows }))
        → (s : Slot) → Keeps P (assign_slot encoded twin_id at observation_id s)
    unfolding assign_slot
    Keeps-assign_slot frame s t =
        Keeps-raise_if P _ _ _ _
          (Keeps-raise_if P _ _ _ _
            (Keeps-unless P _ _ (Keeps-raise_if P _ _ _ _ (λ u q. frame u _ q))))
          t

  Keeps-check_port : (twin_id port : String) → Keeps P (check_port twin_id port)
  unfolding check_port
  Keeps-check_port twin_id port =
      Keeps-bind P _ _ (Keeps-require_twin P twin_id) λ row t. Keeps-raise_if P _ _ _ _ (λ u p. p) t

  module _
      (frame : (t : Tables) (rows : List TwinConnection)
        → P t
        → P (record t { connections = rows })) where
    pub Keeps-connect :
        (encoded : Fields → String) (actor : String) (item : Connection)
        → Keeps P (connect encoded actor item)
    unfolding connect ◌>>=◌
    Keeps-connect encoded actor item t = of (find_first (is_connection item.id) t.connections) t
      where
        of : (o : Option TwinConnection) → Keeps P (connect_or encoded actor item o)
        of none =
            Keeps-then P _
              (check_port item.to_twin_id item.to_port >> insert_connection encoded actor item)
              (Keeps-check_port item.from_twin_id item.from_port)
              (Keeps-then P _ (insert_connection encoded actor item)
                (Keeps-check_port item.to_twin_id item.to_port)
                (λ t p. frame t (t.connections ++ connection_row encoded actor item ∷ []) p))
        of (some c) = Keeps-raise_if P _ _ _ _ (λ t p. p)

    pub Keeps-close : (actor id : String) (item : CloseConnection) → Keeps P (close actor id item)
    unfolding close ◌>>=◌
    Keeps-close actor id item t = of (find_first (is_connection id) t.connections) t
      where
        of : (o : Option TwinConnection) → Keeps P (close_found actor id item o)
        of none = λ t p. p
        of (some c) = λ t.
            Keeps-raise_if P _ _ _ _
              (Keeps-raise_if P _ _ _ (set_connections _ >> pure item.ended_at)
                (λ u p. frame u _ p))
              t

pub Keeps-choose_twin :
    (P : Tables → Type 0)
    → ((fresh : String) (o : Observation) → Keeps P (create_twin fresh o))
    → (fresh : String) (o : Observation) (chosen : Option String)
    → Keeps P (choose_twin fresh o chosen)
unfolding choose_twin
Keeps-choose_twin P creates fresh o none = creates fresh o
Keeps-choose_twin P creates fresh o (some twin_id) =
    Keeps-bind P _ _ (Keeps-require_twin P twin_id) (Keeps-check_twin P o twin_id)

pub Keeps-observe_slot :
    (encoded : Fields → String) (P : Tables → Type 0) (twin_id : String) (at : ℕ)
    (observation_id : String)
    → ((s : Slot) → Keeps P (assign_slot encoded twin_id at observation_id s))
    → (s : Option Slot) → Keeps P (observe_slot encoded twin_id at observation_id s)
Keeps-observe_slot encoded P twin_id at observation_id slots none = λ t p. p
Keeps-observe_slot encoded P twin_id at observation_id slots (some s) = slots s

-- The requests keep what their steps keep.
module _ (encoded : Fields → String) (payload : Observation → String) (P : Tables → Type 0)
    (creates : (fresh : String) (o : Observation) → Keeps P (create_twin fresh o))
    (records : (actor : String) (now : ℕ) (o : Observation) (twin_id : String)
      → Keeps P (record_observation payload actor now o twin_id))
    (ports : (twin_id : String) (at : ℕ) (observation_id : String) (p : Port)
      → Keeps P (observe_port encoded twin_id at observation_id p))
    (identities : (twin_id : String) (at : ℕ) (observation_id : String) (i : Identity)
      → Keeps P (observe_identity encoded twin_id at observation_id i))
    (slots : (twin_id : String) (at : ℕ) (observation_id : String) (s : Slot)
      → Keeps P (assign_slot encoded twin_id at observation_id s)) where
  Keeps-ingest_new :
      (actor fresh : String) (now : ℕ) (o : Observation)
      → Keeps P (ingest_new encoded payload actor fresh now o)
  unfolding ingest_new
  Keeps-ingest_new actor fresh now o =
      Keeps-bind P _ _ (Keeps-choose_twin P creates fresh o o.twin_id) λ id.
        Keeps-then P _ _ (records actor now o id) (
          Keeps-then P _ _ (Keeps-each P _ o.ports (ports id o.observed_at o.observation_id)) (
            Keeps-then P _ _
              (Keeps-each P _ o.identities (identities id o.observed_at o.observation_id))
              (Keeps-then P _ _
                (Keeps-observe_slot encoded P id o.observed_at o.observation_id
                  (slots id o.observed_at o.observation_id) o.slot)
                (λ t p. p))))

  pub Keeps-ingest :
      (actor fresh : String) (now : ℕ) (o : Observation)
      → Keeps P (ingest encoded payload actor fresh now o)
  unfolding ingest
  Keeps-ingest actor fresh now o t =
      of (find_first (is_observation o.observation_id) t.observations) t
    where
      of :
          (r : Option TwinObservation)
          → Keeps P (replay_or encoded payload o r (ingest_new encoded payload actor fresh now o))
      of none = Keeps-ingest_new actor fresh now o
      of (some previous) = Keeps-raise_if P _ _ _ _ (λ t p. p)

  module _
      (connect_keeps : (actor : String) (item : Connection) → Keeps P (connect encoded actor item))
      (close_keeps : (actor id : String) (item : CloseConnection)
        → Keeps P (close actor id item)) where
    Keeps-handle : (r : Request) (t : Tables) → P t → P (handle encoded payload r t)
    unfolding handle observe create_connection close_connection
    Keeps-handle (observes p fresh now o) =
        Keeps-then P _ _ (Keeps-authorize P p true)
          (Keeps-transaction P _ (Keeps-ingest p.subject fresh now o))
    Keeps-handle (connects p item) =
        Keeps-then P _ _ (Keeps-authorize P p true)
          (Keeps-transaction P _ (connect_keeps p.subject item))
    Keeps-handle (closes p id item) =
        Keeps-then P _ _ (Keeps-authorize P p true)
          (Keeps-transaction P _ (close_keeps p.subject id item))

    pub Keeps-serve : (rs : List Request) (t : Tables) → P t → P (serve encoded payload rs t)
    unfolding serve
    Keeps-serve [] t p = p
    Keeps-serve (r ∷ rs) t p = Keeps-serve rs (handle encoded payload r t) (Keeps-handle r t p)
