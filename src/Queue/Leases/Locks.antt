-- ===== src/Queue/Leases/Locks.antt =====
-- What queue/leases.py promises, without its table: the grants that are in force. There is no row of a
-- grant that has ended, and no time but the expiry.
use sbc_mcu_dut_controller.Prelude.{
  ℕ, suc, String, Bool, true, false, not, ◌&&◌, ◌||◌, Option, none, some, List, [], ◌∷◌, ◌++◌, map,
  if◌then◌else◌, ◌==◌, str_eq, truthy, sql_eq, any, select, length,
}
use sbc_mcu_dut_controller.Store.{Stamp, Host, Device, Job, Lease, Db}
use sbc_mcu_dut_controller.Queue.Leases.{
  Outcome, ok, raise, LeaseError, lease_conflict, resolve_hub_host, argument_error, text_of,
  job_is_active, acquire, release, renew, startup_sweep, is_active,
}

pub record Grant : Type 0 where
  pub id : ℕ
  pub device_id : Option String
  pub hub_host_id : Option String
  pub job_id : Option String
  pub kind : String
  pub expires_at : Option Stamp

pub record Locks : Type 0 where
  pub held : List Grant
  pub last_id : ℕ
  pub devices : List Device
  pub jobs : List Job

pub data Call : Type 0 where
  acquires : (kind : String) (device_id hub_host_id job_id : Option String) → Option Stamp → Call
  releases : ℕ → Call
  renews : ℕ → Option Stamp → Call
  sweeps : Call
  -- a transaction on other tables
  elsewhere : List Host → List Device → List Job → Call

pub data Answer : Type 0 where
  granted : Grant → Answer
  busy : Answer
  bad_request : LeaseError → Answer
  found : Bool → Answer
  swept : ℕ → Answer
  done : Answer

-- The blocking lease is not named.
abbrev pub refusal : LeaseError → Answer
refusal (lease_conflict id kind) = busy
refusal e = bad_request e

-- One device, or one hub of which either wants the whole.
abbrev pub conflicts : Grant → Grant → Bool
conflicts g h =
    sql_eq g.device_id h.device_id
    || (sql_eq g.hub_host_id h.hub_host_id
        && (str_eq g.kind "exclusive_hub" || str_eq h.kind "exclusive_hub"))

abbrev pub asked :
    (on_device : Bool) (device_id hub_host_id job_id : Option String) → Option Stamp → Locks → Grant
asked true device_id hub_host_id job_id expires_at s = record {
  id = suc s.last_id;
  device_id = some (text_of device_id);
  hub_host_id =
      if truthy hub_host_id then hub_host_id else resolve_hub_host s.devices (text_of device_id);
  job_id = job_id;
  kind = "exclusive_device";
  expires_at = expires_at;
}
asked false device_id hub_host_id job_id expires_at s = record {
  id = suc s.last_id;
  device_id = none;
  hub_host_id = some (text_of hub_host_id);
  job_id = job_id;
  kind = "exclusive_hub";
  expires_at = expires_at;
}

abbrev pub grant_unless : Bool → Grant → Locks → Answer × Locks
grant_unless true g s = (busy, s)
grant_unless false g s = (granted g, record s { held = s.held ++ g ∷ []; last_id = g.id })

abbrev pub answer_unless : Option LeaseError → Locks → Answer × Locks → Answer × Locks
answer_unless (some e) s rest = (refusal e, s)
answer_unless none s rest = rest

abbrev pub extended : ℕ → Option Stamp → Grant → Grant
extended id until g = if g.id == id then record g { expires_at = until } else g

abbrev pub wanted_by : List Job → Grant → Bool
wanted_by jobs g = elim g.job_id [ none ↦ false | some j ↦ job_is_active jobs j ]

-- The lock manager.
unfoldable pub lock : Call → Locks → Answer × Locks
lock (acquires kind device_id hub_host_id job_id expires_at) s =
    let g : Grant =
      asked (str_eq kind "exclusive_device") device_id hub_host_id job_id expires_at s in
    answer_unless (argument_error kind device_id hub_host_id) s
      (grant_unless (any (λ h. conflicts h g) s.held) g s)
lock (releases id) s = (
  found (any (λ (g : Grant). g.id == id) s.held),
  record s { held = select (λ (g : Grant). not (g.id == id)) s.held },
)
lock (renews id until) s = (
  found (any (λ (g : Grant). g.id == id) s.held),
  record s { held = map (extended id until) s.held },
)
lock sweeps s = (
  swept (length (select (λ g. not (wanted_by s.jobs g)) s.held)),
  record s { held = select (wanted_by s.jobs) s.held },
)
lock (elsewhere hosts devices jobs) s = (done, record s { devices = devices; jobs = jobs })

unfoldable pub lock_all : List Call → Locks → List Answer × Locks
unfolding lock
lock_all [] s = ([], s)
lock_all (c ∷ cs) s = let (a, s') = lock c s in let (rest, s'') = lock_all cs s' in (a ∷ rest, s'')

-- What a caller of the code sees of it.
abbrev pub grant_of : Lease → Grant
grant_of l = record {
  id = l.id;
  device_id = l.device_id;
  hub_host_id = l.hub_host_id;
  job_id = l.job_id;
  kind = l.kind;
  expires_at = l.expires_at;
}

abbrev pub grants : List Lease → List Grant
grants ls = map grant_of (select is_active ls)

abbrev pub locks_of : Db → Locks
locks_of db = record {
  held = grants db.leases;
  last_id = db.lease_seq;
  devices = db.devices;
  jobs = db.jobs;
}

abbrev pub answer_of : Outcome Lease → Answer
answer_of (ok l) = granted (grant_of l)
answer_of (raise e) = refusal e

-- The functions of leases.py, called at a time.
unfoldable pub serve : Stamp → Call → Db → Answer × Db
unfolding acquire release renew startup_sweep
serve now (acquires kind device_id hub_host_id job_id expires_at) db =
    let (r, db') = acquire now kind device_id hub_host_id job_id expires_at db in (answer_of r, db')
serve now (releases id) db = let (b, db') = release now id db in (found b, db')
serve now (renews id until) db = let (b, db') = renew id until db in (found b, db')
serve now sweeps db = let (n, db') = startup_sweep now db in (swept n, db')
serve now (elsewhere hosts devices jobs) db =
    (done, record db { hosts = hosts; devices = devices; jobs = jobs })

unfoldable pub serve_all : List (Stamp × Call) → Db → List Answer × Db
unfolding serve
serve_all [] db = ([], db)
serve_all ((now, c) ∷ cs) db =
    let (a, db') = serve now c db in let (rest, db'') = serve_all cs db' in (a ∷ rest, db'')
