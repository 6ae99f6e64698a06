-- ===== src/Twins/Upserts.antt =====
-- The statements of src/hil_controller/twins.py on twin_ports and twin_identities.
use sbc_mcu_dut_controller.Prelude.{
  ℕ, String, Bool, true, false, not, ◌&&◌, ◌||◌, List, [], ◌∷◌, if◌then◌else◌, ◌==◌, ltb, leb,
  str_eq, codes,
}
use sbc_mcu_dut_controller.Twins.Tables.{
  Confidence, verified, reported, inferred, TwinIdentity, TwinPort,
}

-- SQLite's order of two texts
abbrev pub is_after : List ℕ → List ℕ → Bool
is_after [] bs = false
is_after (a ∷ more) [] = true
is_after (a ∷ more) (b ∷ bs) = if a == b then is_after more bs else ltb b a

-- The WHERE of the upsert of a port.
unfoldable pub is_newer : TwinPort → TwinPort → Bool
is_newer excluded r =
    ltb r.observed_at excluded.observed_at
    || (excluded.observed_at == r.observed_at
        && is_after (codes excluded.observation_id) (codes r.observation_id))

abbrev pub is_port : (twin_id id : String) → TwinPort → Bool
is_port twin_id id r = str_eq r.twin_id twin_id && str_eq r.id id

abbrev pub refreshed : TwinPort → TwinPort → TwinPort
refreshed excluded r =
    if is_newer excluded r
    then record r {
      mode = excluded.mode;
      attributes_json = excluded.attributes_json;
      observed_at = excluded.observed_at;
      observation_id = excluded.observation_id;
    }
    else r

unfoldable pub upsert_port : TwinPort → List TwinPort → List TwinPort
unfolding is_newer
upsert_port new [] = new ∷ []
upsert_port new (r ∷ rs) =
    if is_port new.twin_id new.id r then refreshed new r ∷ rs else r ∷ upsert_port new rs

-- The columns of the unique index of twin_identities.
abbrev pub same_text : TwinIdentity → TwinIdentity → Bool
same_text x r = str_eq r.namespace x.namespace && str_eq r.kind x.kind

abbrev pub same_value : TwinIdentity → TwinIdentity → Bool
same_value x r = str_eq r.value x.value

abbrev pub same_holder : TwinIdentity → TwinIdentity → Bool
same_holder x r =
    str_eq r.twin_id x.twin_id && (str_eq r.owner x.owner && str_eq r.component x.component)

-- `excluded.confidence='verified' OR (confidence='inferred' AND excluded.confidence='reported')`
abbrev pub is_better : Confidence → Confidence → Bool
is_better verified c = true
is_better reported inferred = true
is_better _ _ = false

abbrev pub min : ℕ → ℕ → ℕ
min a b = if leb a b then a else b

abbrev pub max : ℕ → ℕ → ℕ
max a b = if leb a b then b else a

abbrev pub seen_again : TwinIdentity → TwinIdentity → TwinIdentity
seen_again excluded r =
    let better : Bool = is_better excluded.confidence r.confidence in
    record r {
      first_seen_at = min r.first_seen_at excluded.first_seen_at;
      last_seen_at = max r.last_seen_at excluded.last_seen_at;
      is_unique = r.is_unique || excluded.is_unique;
      confidence = if better then excluded.confidence else r.confidence;
      evidence = if better then excluded.evidence else r.evidence;
      observation_id = if better then excluded.observation_id else r.observation_id;
    }

unfoldable pub upsert_identity : TwinIdentity → List TwinIdentity → List TwinIdentity
upsert_identity new [] = new ∷ []
upsert_identity new (r ∷ rs) =
    if same_text new r && (same_value new r && same_holder new r)
    then seen_again new r ∷ rs
    else r ∷ upsert_identity new rs

-- The two queries for conflicts.
abbrev pub claimed_elsewhere : TwinIdentity → TwinIdentity → Bool
claimed_elsewhere new r =
    (same_text new r && same_value new r)
    && (not (same_holder new r) && (r.is_unique || new.is_unique))

abbrev pub owned_otherwise : TwinIdentity → TwinIdentity → Bool
owned_otherwise new r =
    (same_text new r && same_holder new r)
    && (not (same_value new r) && (r.is_unique || new.is_unique))
