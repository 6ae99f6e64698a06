-- ===== src/Store.antt =====
-- src/hil_controller/db/schema.sql, the tables that the queue, the leases, the availability
-- reconciler and the host recovery share. A table is the list of its rows in rowid order; a row is
-- a record of the columns that the modelled statements read or write. An ISO timestamp is a `Stamp`:
-- the instant, in microseconds, or a text that `datetime.fromisoformat` refuses.
use sbc_mcu_dut_controller.Prelude.{ℕ, String, Option, List}

pub data Stamp : Type 0 where
  at : ℕ → Stamp
  malformed : String → Stamp

pub record Host : Type 0 where
  pub id : String
  pub status : String
  pub last_seen_at : Option Stamp

pub record Device : Type 0 where
  pub id : String
  pub host_id : Option String
  pub kind : String
  pub model : String
  pub status : Option String
  pub serial_port : Option String
  pub hub_host_id : Option String
  pub hub_port_path : Option String
  pub unavailable_kind : Option String
  pub unavailable_reason : Option String
  pub unavailable_since : Option Stamp
  pub retry_attempts : ℕ
  pub retry_after : Option Stamp
  pub last_checked_at : Option Stamp
  pub build_target : Option String
  pub power_control : Option String
  pub solenoid_channel : Option ℕ

pub record Job : Type 0 where
  pub id : String
  pub state : String
  pub assigned_host : Option String
  pub assigned_device : Option String
  pub result : Option String
  pub started_at : Option Stamp
  pub finished_at : Option Stamp
  pub summary : Option String

pub record Lease : Type 0 where
  pub id : ℕ
  pub device_id : Option String
  pub hub_host_id : Option String
  pub job_id : Option String
  pub kind : String
  pub acquired_at : Stamp
  pub expires_at : Option Stamp
  pub released_at : Option Stamp

-- `lease_seq` is the AUTOINCREMENT counter of device_leases: the largest id given so far.
pub record Db : Type 0 where
  pub hosts : List Host
  pub devices : List Device
  pub jobs : List Job
  pub leases : List Lease
  pub lease_seq : ℕ
