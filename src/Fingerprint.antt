-- ===== src/Fingerprint.antt =====
-- src/hil_controller/adapters/usb_fingerprint.py: a device's USB ids, learnt by switching it off and on.
-- An awaited call of the hub, of the scan or of sleep is an entry of `calls`; the World says how the
-- n-th of them ends, and what the rest of the controller does to the tables meanwhile. The statements on
-- device_usb_ids do not raise.
pub mod Upsert
pub mod Recorded
pub mod Learn
pub mod Held
pub mod Tests
use sbc_mcu_dut_controller.Prelude.{
  ℕ, zero, suc, String, Bool, true, false, not, ◌&&◌, Option, none, some, List, [], ◌∷◌, ◌++◌, map,
  if◌then◌else◌, ◌==◌, str_eq, truthy, sql_eq, coalesce, find_first, select, length, lower_text,
  is_null,
}
use sbc_mcu_dut_controller.Store.{Stamp, Device, Lease, Db}
use sbc_mcu_dut_controller.Queue.Leases.{LeaseError, Outcome, ok, raise, acquire, release, text_of}

-- A row of device_usb_ids.
pub record UsbId : Type 0 where
  pub id : ℕ
  pub device_id : String
  pub vid : String
  pub pid : String
  pub iserial : Option String
  pub role : String
  pub description : Option String
  pub first_seen_at : Stamp
  pub last_seen_at : Stamp
  pub learned_from_job : Option String
  pub source : String

-- An entry of the scan.
pub record Entry : Type 0 where
  pub busid : Option String
  pub vid : Option String
  pub pid : Option String
  pub description : Option String

pub record UsbTable : Type 0 where
  pub rows : List UsbId
  pub last_id : ℕ

-- `(e.get(…) or "").lower()`
abbrev pub usb_key : Option String → String
usb_key v = lower_text (text_of v)

abbrev pub is_row : (device_id vid pid : String) → UsbId → Bool
is_row device_id vid pid r =
    str_eq r.device_id device_id
    && (str_eq r.vid vid && (str_eq r.pid pid && str_eq (text_of r.iserial) ""))

-- The loop of `_upsert`, with the rows that it returns.
module _ (device_id role : String) (job_id : Option String) (now : Stamp) where
  -- The UPDATE of the row that the SELECT finds.
  abbrev pub seen_again : Option String → UsbId → UsbId
  seen_again description r = record r {
    role = role;
    description = coalesce r.description description;
    last_seen_at = now;
    learned_from_job = job_id;
    source = "learn-job";
  }

  -- The INSERT.
  abbrev pub first_seen : (vid pid : String) → Option String → ℕ → UsbId
  first_seen vid pid description id = record {
    id = id;
    device_id = device_id;
    vid = vid;
    pid = pid;
    iserial = none;
    role = role;
    description = description;
    first_seen_at = now;
    last_seen_at = now;
    learned_from_job = job_id;
    source = "learn-job";
  }

  abbrev pub write_row :
      Option UsbId → (vid pid : String) → Option String → UsbTable → UsbId × UsbTable
  write_row (some existing) vid pid description t = (
    seen_again description existing,
    record t {
      rows =
          map (λ (r : UsbId). if r.id == existing.id then seen_again description r else r) t.rows;
    },
  )
  write_row none vid pid description t =
      let new : UsbId = first_seen vid pid description (suc t.last_id) in
      (new, record { rows = t.rows ++ new ∷ []; last_id = new.id })

  unfoldable pub upsert_entry : Entry → UsbTable → Option UsbId × UsbTable
  upsert_entry e t =
      let vid : String = usb_key e.vid in
      let pid : String = usb_key e.pid in
      let description : Option String = if truthy e.description then e.description else none in
      let (row, t') =
        write_row (find_first (is_row device_id vid pid) t.rows) vid pid description t in
      if truthy (some vid) && truthy (some pid) then (some row, t') else (none, t)

  abbrev pub collected : Option UsbId → List UsbId → List UsbId
  collected none out = out
  collected (some r) out = r ∷ out

  unfoldable pub upsert : List Entry → UsbTable → List UsbId × UsbTable
  unfolding upsert_entry
  upsert [] t = ([], t)
  upsert (e ∷ es) t =
      let (row, t') = upsert_entry e t in let (out, t'') = upsert es t' in (collected row out, t'')

pub data HubCall : Type 0 where
  all_off scan sleep : HubCall
  port_on port_off : ℕ → HubCall

-- An awaited call, and the tables when it was made.
pub record Called : Type 0 where
  pub call : HubCall
  pub db : Db

pub data Raised : Type 0 where
  unknown_device no_port_path : Raised
  not_leased : LeaseError → Raised
  -- an Exception of the hub or of the scan
  failed : Raised
  -- CancelledError, which is no Exception
  cancelled : Raised

pub data Result (A : Type 0) : Type 0 where
  got : A → Result A
  raises : Raised → Result A

pub record Bench : Type 0 where
  pub db : Db
  pub usb_ids : UsbTable
  pub calls : List Called

-- What the n-th awaited call gives: the entries of a scan, or the exception.
pub record World : Type 0 where
  pub reply : ℕ → Result (List Entry)
  pub meanwhile : ℕ → Db → Db
  pub clock : ℕ → Stamp

abbrev pub M : Type 0 → Type 0
M A = Bench → Result A × Bench

abbrev pub pure : {A : Type 0} → A → M A
pure a s = (got a, s)

abbrev pub continue : {A B : Type 0} → Result A → (A → M B) → M B
continue (got a) f s = f a s
continue (raises e) f s = (raises e, s)

infixl 5 ◌>>=◌ ◌>>◌
unfoldable pub ◌>>=◌ : {A B : Type 0} → M A → (A → M B) → M B
◌>>=◌ m f s = let (r, s') = m s in continue r f s'

abbrev pub ◌>>◌ : {B : Type 0} → M (List Entry) → M B → M B
m >> k = m >>= λ _. k

-- `except Exception`
abbrev pub caught : Result (List Entry) → Result (List Entry)
caught (raises failed) = got []
caught r = r

abbrev pub ignoring_exceptions : M (List Entry) → M (List Entry)
ignoring_exceptions m s = let (r, s') = m s in (caught r, s')

module _ (world : World) where
  unfoldable pub awaits : HubCall → M (List Entry)
  awaits c s =
      let n : ℕ = length s.calls in
      (
        world.reply n,
        record s {
          db = world.meanwhile n s.db;
          calls = s.calls ++ record { call = c; db = s.db } ∷ [];
        },
      )

  abbrev pub captured_at : (hub_port_path : String) → M (List Entry)
  captured_at hub_port_path = do
    entries ← awaits scan
    pure (select (λ (e : Entry). sql_eq e.busid (some hub_port_path)) entries)

  abbrev pub upserted : (device_id role : String) → Option String → List Entry → M (List UsbId)
  upserted device_id role job_id captured s =
      let (out, t) =
        upsert device_id role job_id (world.clock (length s.calls)) captured s.usb_ids in
      (got out, record s { usb_ids = t })

  -- `if channel is not None`
  abbrev pub on_channel : Option ℕ → (ℕ → M (List Entry)) → M (List Entry)
  on_channel none m = pure []
  on_channel (some channel) m = m channel

  module _ (device_id port_path : String) (channel : Option ℕ) (job_id : Option String) where
    abbrev pub reset_cycle : M (List UsbId)
    reset_cycle = do
      first ← captured_at port_path
      bootloader ← upserted device_id "bootloader" job_id first
      on_channel channel
          (λ c. awaits (port_off c) >> (awaits sleep >> (awaits (port_on c) >> awaits sleep)))
      second ← captured_at port_path
      runtime ← upserted device_id "runtime" job_id second
      pure (bootloader ++ runtime)

    abbrev pub single_capture : M (List UsbId)
    single_capture = do
      observed ← captured_at port_path
      upserted device_id "unknown" job_id observed

    -- The body of the try block.
    unfoldable pub power_and_capture : (include_reset_cycle : Bool) → M (List UsbId)
    unfolding awaits upsert
    power_and_capture include_reset_cycle = do
      awaits all_off
      awaits sleep
      ignoring_exceptions (captured_at port_path)
      on_channel channel (λ c. awaits (port_on c))
      awaits sleep
      if include_reset_cycle then reset_cycle else single_capture

  -- The finally block; an exception of the release is logged.
  abbrev pub let_go : (release_raises : Bool) → Lease → Bench → Bench
  let_go true l s = s
  let_go false l s = record s { db = (release (world.clock (length s.calls)) l.id s.db).1 }

  abbrev pub with_hub :
      Outcome Lease × Db → (release_raises : Bool) → M (List UsbId) → M (List UsbId)
  with_hub (raise e, db) release_raises m s = (raises (not_leased e), s)
  with_hub (ok l, db) release_raises m s =
      let (r, s') = m (record s { db = db }) in (r, let_go release_raises l s')

  abbrev pub learn_row :
      Option Device → Option String → Bool → (release_raises : Bool) → M (List UsbId)
  learn_row none job_id include_reset_cycle release_raises s = (raises unknown_device, s)
  learn_row (some d) job_id include_reset_cycle release_raises s =
      let hub : Option String = if truthy d.hub_host_id then d.hub_host_id else d.host_id in
      if truthy d.hub_port_path
      then with_hub
          (acquire (world.clock (length s.calls)) "exclusive_hub" none hub job_id none s.db)
          release_raises
          (power_and_capture d.id (text_of d.hub_port_path) d.solenoid_channel job_id
            include_reset_cycle)
          s
      else (raises no_port_path, s)

  unfoldable pub learn :
      (device_id : String) (job_id : Option String) (include_reset_cycle release_raises : Bool)
      → M (List UsbId)
  unfolding power_and_capture acquire release
  learn device_id job_id include_reset_cycle release_raises s =
      learn_row (find_first (λ (d : Device). str_eq d.id device_id) s.db.devices) job_id
        include_reset_cycle release_raises s
