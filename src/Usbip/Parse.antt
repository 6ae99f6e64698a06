-- ===== src/Usbip/Parse.antt =====
-- The texts that src/hil_controller/adapters/usbip_bridge.py reads: the vhci probe, `usbip port` and the
-- listings of serial devices. `\n` ends a line; `split` and `isdigit` are read for ASCII.
use Prim.Native.Char.{Char, code}
use sbc_mcu_dut_controller.Prelude.{
  ℕ, String, Bool, true, false, not, ◌&&◌, ◌||◌, Option, none, some, List, [], ◌∷◌, ◌++◌, map,
  if◌then◌else◌, ◌==◌, leb, str_eq, sql_eq, one_of, find_first, codes, is_space, is_empty, strip,
  is_null, select,
}
use sbc_mcu_dut_controller.Bisect.Version.{number, literal}
use package.text.Mathlib.Text.{find?}

-- `sub in s`
abbrev pub contains : (s sub : String) → Bool
contains s sub = not (is_null (find? s sub))

abbrev onto_first : Char → List String → List String
onto_first c [] = (String.◌∷◌ c "") ∷ []
onto_first c (l ∷ ls) = String.◌∷◌ c l ∷ ls

-- `s.splitlines()`
abbrev pub splitlines : String → List String
splitlines String.[] = []
splitlines (String.◌∷◌ c s) =
    let ls = splitlines s in if code c == 10 then "" ∷ ls else onto_first c ls

abbrev starts_word : String → Bool
starts_word String.[] = false
starts_word (String.◌∷◌ c s) = not (is_space (code c))

-- `s.split()`
abbrev pub split : String → List String
split String.[] = []
split (String.◌∷◌ c s) =
    let ws = split s in
    if is_space (code c)
    then ws
    else if starts_word s
    then onto_first c ws
    else String.◌∷◌ c "" ∷ ws

-- `int(s)` where `s.isdigit()`
abbrev whole : Option (ℕ × List ℕ) → Option ℕ
whole (some (n, [])) = some n
whole _ = none

unfoldable pub to_int : String → Option ℕ
unfolding number
to_int s = whole (number (codes s))

pub record VhciPort : Type 0 where
  pub port : ℕ
  pub status : ℕ
  pub local_busid : String
  pub remote_host : Option String
  pub remote_busid : Option String

-- A line of the status files: hub, port, sta, spd, dev, sockfd, local_busid.
abbrev status_numbers : Option ℕ → Option ℕ → String → Option (ℕ × ℕ × String)
status_numbers (some port) (some sta) busid = some (port, sta, busid)
status_numbers _ _ busid = none

unfoldable pub status_row : List String → Option (ℕ × ℕ × String)
unfolding to_int
status_row (hub ∷ port ∷ sta ∷ spd ∷ dev ∷ sockfd ∷ busid ∷ more) =
    status_numbers (to_int port) (to_int sta) busid
status_row _ = none

-- A record: the port, the host, the TCP port and the busid.
abbrev record_number : Option ℕ → (host busid : String) → Option (ℕ × String × String)
record_number none host busid = none
record_number (some port) host busid = some (port, host, busid)

unfoldable pub record_row : List String → Option (ℕ × String × String)
unfolding to_int
record_row (port ∷ host ∷ tcp_port ∷ busid ∷ more) = record_number (to_int port) host busid
record_row _ = none

pub data Section : Type 0 where
  status_section records_section devices_section : Section

pub record Probe : Type 0 where
  pub rows : List (ℕ × ℕ × String)
  -- the newest first
  pub records : List (ℕ × String × String)
  pub devices : List String

abbrev with_row : Option (ℕ × ℕ × String) → Probe → Probe
with_row none p = p
with_row (some r) p = record p { rows = p.rows ++ r ∷ [] }

abbrev with_record : Option (ℕ × String × String) → Probe → Probe
with_record none p = p
with_record (some r) p = record p { records = r ∷ p.records }

abbrev probe_line : Section → String → Probe → Probe
probe_line status_section line p = with_row (status_row (split line)) p
probe_line records_section line p = with_record (record_row (split line)) p
probe_line devices_section line p =
    if is_empty line then p else record p { devices = p.devices ++ line ∷ [] }

-- The loop over the lines.
unfoldable pub probe_lines : Section → List String → Probe → Probe
unfolding status_row record_row
probe_lines s [] p = p
probe_lines s (raw ∷ ls) p =
    let line : String = strip raw in
    if str_eq line "--records--"
    then probe_lines records_section ls p
    else if str_eq line "--devices--"
    then probe_lines devices_section ls p
    else probe_lines s ls (probe_line s line p)

abbrev remote_of : ℕ → List (ℕ × String × String) → Option (ℕ × String × String)
remote_of port rs = find_first (λ r. r.0 == port) rs

abbrev vhci_port : List (ℕ × String × String) → ℕ × ℕ × String → VhciPort
vhci_port rs (port, sta, busid) = record {
  port = port;
  status = sta;
  local_busid = busid;
  remote_host = elim (remote_of port rs) [ none ↦ none | some r ↦ some r.1 ];
  remote_busid = elim (remote_of port rs) [ none ↦ none | some r ↦ some r.2 ];
}

unfoldable pub parse_vhci_probe : String → List VhciPort × List String
unfolding probe_lines
parse_vhci_probe text =
    let p : Probe =
      probe_lines status_section (splitlines text)
        (record { rows = []; records = []; devices = [] }) in
    (map (vhci_port p.records) p.rows, p.devices)

-- A used port whose device is not there, or an attachment of this busid.
unfoldable pub is_stale : (devices : List String) (server_addr busid : String) → VhciPort → Bool
is_stale devices server_addr busid p =
    let orphaned : Bool = not (one_of p.local_busid devices) in
    let ours : Bool =
      sql_eq p.remote_host (some server_addr) && sql_eq p.remote_busid (some busid) in
    not (p.status == 4) && (orphaned || ours)

unfoldable pub stale_vhci_ports :
    List VhciPort → (devices : List String) (server_addr busid : String) → List ℕ
unfolding is_stale
stale_vhci_ports ports devices server_addr busid =
    map (λ (p : VhciPort). p.port) (select (is_stale devices server_addr busid) ports)

-- `Port NN:` after spaces, in any case
abbrev skip_spaces : List ℕ → List ℕ
skip_spaces [] = []
skip_spaces (c ∷ cs) = let rest = skip_spaces cs in if is_space c then rest else c ∷ cs

abbrev numbered : Option (ℕ × List ℕ) → Option ℕ
numbered (some (n, c ∷ cs)) = if c == b':' then some n else none
numbered _ = none

abbrev after_port : List ℕ → Option ℕ
after_port (c ∷ cs) = if is_space c then numbered (number (skip_spaces cs)) else none
after_port [] = none

abbrev header_codes : Option (List ℕ) → Option ℕ
header_codes none = none
header_codes (some cs) = after_port cs

unfoldable pub port_header : String → Option ℕ
unfolding number literal
port_header line = header_codes (literal (codes "port") (skip_spaces (codes line)))

-- The loop over the lines, with the port of the block that is open.
unfoldable pub find_port_line : (busid : String) → Option ℕ → List String → Option ℕ
unfolding port_header
find_port_line busid current [] = none
find_port_line busid current (line ∷ ls) = elim (port_header line) [
  | some n ↦ find_port_line busid (some n) ls
  | none ↦
      if not (is_null current) && contains line busid
      then current
      else find_port_line busid current ls
]

unfoldable pub parse_usbip_port : (text busid : String) → Option ℕ
unfolding find_port_line
parse_usbip_port text busid = find_port_line busid none (splitlines text)

-- The order of `sorted` on texts
abbrev pub precedes : List ℕ → List ℕ → Bool
precedes [] bs = true
precedes (a ∷ as') [] = false
precedes (a ∷ as') (b ∷ bs) = if a == b then precedes as' bs else leb a b

-- `sorted(set(after) - set(before))[0]`, where there is one
abbrev pub least_of : String → Option String → Option String
least_of s none = some s
least_of s (some t) = if precedes (codes s) (codes t) then some s else some t

unfoldable pub diff_serial_ports : (before after : List String) → Option String
diff_serial_ports before [] = none
diff_serial_ports before (s ∷ after) =
    let rest = diff_serial_ports before after in if one_of s before then rest else least_of s rest
