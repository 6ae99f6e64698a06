-- ===== src/EspBridge/Http.antt =====
-- `EspUsbipBridgeClient`, `bridge_base_url`, `find_hub_port` and `bridge_power_force` of
-- adapters/esp_usbip_bridge.py. The server answers the n-th request of a run; httpx is on its side: a
-- transport error is `failed`, and an answer has a status and, where its body is JSON, the body.
use sbc_mcu_dut_controller.Prelude.{
  ℕ, String, Bool, true, false, not, ◌&&◌, Option, none, some, List, [], ◌∷◌, ◌++◌, if◌then◌else◌,
  leb, ◌==◌, truthy, length, codes, strip, rstrip_of, is_empty, lower, ◌<>◌, is_null,
}
use sbc_mcu_dut_controller.Prelude.Json.{
  Json, text, obj, no_fields, get_key, get_field, list_of, is_truthy, is_text,
}
use package.text.Mathlib.Text.{find?}

pub data Request : Type 0 where
  ping_request info_request devices_request hubs_request claims_request : Request
  device_request : (busid : String) → Request
  port_on_request port_off_request : (port : String) (force : Bool) → Request
  port_cycle_request : (port : String) (off_ms : ℕ) (force : Bool) → Request

pub data HttpReply : Type 0 where
  failed : HttpReply
  answered : (status : ℕ) → Option Json → HttpReply

pub data BridgeError : Type 0 where
  bridge_error auth_error not_found not_switchable busy : BridgeError

-- `_STATUS_ERRORS.get(status, EspBridgeError)`
unfoldable pub status_error : ℕ → BridgeError
status_error status =
    if status == 401
    then auth_error
    else if status == 404
    then not_found
    else if status == 409
    then not_switchable
    else if status == 503
    then busy
    else bridge_error

pub data Result {ℓ} (A : Type ℓ) : Type ℓ where
  got : A → Result A
  raises : BridgeError → Result A

-- The end of `_request`: a body that is not JSON reads as an empty object.
unfoldable pub response : HttpReply → Result Json
unfolding status_error
response failed = raises bridge_error
response (answered status body) =
    if leb 400 status
    then raises (status_error status)
    else got (elim body [ some j ↦ j | none ↦ obj no_fields ])

abbrev pub Server : Type 0
Server = Request → ℕ → HttpReply

-- A run of requests: the reply, and the requests made in all.
abbrev pub Exec {ℓ} : Type ℓ → Type ℓ
Exec A = List Request → A × List Request

abbrev pub map_result {ℓ κ} : {A : Type ℓ} {B : Type κ} → (A → B) → Result A → Result B
map_result f (got a) = got (f a)
map_result f (raises e) = raises e

abbrev pub is_object : Json → Bool
is_object (obj fs) = true
is_object _ = false

-- `body if isinstance(body, dict) else {}`
abbrev pub object_or_empty : Json → Json
object_or_empty j = if is_object j then j else obj no_fields

-- A 404 reads as None.
abbrev pub absent_on_404 : Result Json → Result (Option Json)
absent_on_404 (got j) = got (some (object_or_empty j))
absent_on_404 (raises not_found) = got none
absent_on_404 (raises e) = raises e

-- `bool(isinstance(body, dict) and body.get("ok"))`, False on an error
abbrev pub is_ok : Result Json → Bool
is_ok (got (obj fs)) = is_truthy (get_field "ok" fs)
is_ok _ = false

module _ (server : Server) where
  unfoldable pub request : Request → Exec (Result Json)
  unfolding response
  request r t = (response (server r (length t)), t ++ r ∷ [])

  unfoldable pub ping : Exec Bool
  unfolding request
  ping t = let (r, t') = request ping_request t in (is_ok r, t')

  unfoldable pub info : Exec (Result Json)
  unfolding request
  info t = let (r, t') = request info_request t in (map_result object_or_empty r, t')

  unfoldable pub devices : Exec (Result (List Json))
  unfolding request
  devices t =
      let (r, t') = request devices_request t in
      (map_result (λ j. list_of (get_key "devices" j)) r, t')

  unfoldable pub device : String → Exec (Result (Option Json))
  unfolding request
  device busid t = let (r, t') = request (device_request busid) t in (absent_on_404 r, t')

  unfoldable pub device_present : String → Exec (Result Bool)
  unfolding device
  device_present busid t = let (r, t') = device busid t in (map_result (λ d. not (is_null d)) r, t')

  unfoldable pub hubs : Exec (Result (List Json))
  unfolding request
  hubs t =
      let (r, t') = request hubs_request t in (map_result (λ j. list_of (get_key "hubs" j)) r, t')

  unfoldable pub claims : Exec (Result (Option Json))
  unfolding request
  claims t = let (r, t') = request claims_request t in (absent_on_404 r, t')

  -- `dict(...)` of the body, which the port endpoints answer as an object.
  unfoldable pub port_on : String → Bool → Exec (Result Json)
  unfolding request
  port_on port force t = request (port_on_request port force) t

  unfoldable pub port_off : String → Bool → Exec (Result Json)
  unfolding request
  port_off port force t = request (port_off_request port force) t

  unfoldable pub port_cycle : String → ℕ → Bool → Exec (Result Json)
  unfolding request
  port_cycle port off_ms force t = request (port_cycle_request port off_ms force) t

-- The first port of one hub, then of the hubs in turn.
unfoldable pub find_port : Json → List Json → String → Option (Json × Json)
find_port hub [] port_path = none
find_port hub (port ∷ ports) port_path =
    let later = find_port hub ports port_path in
    if is_text port_path (get_key "path" port) then some (hub, port) else later

unfoldable pub find_hub_port : List Json → String → Option (Json × Json)
unfolding find_port
find_hub_port [] port_path = none
find_hub_port (hub ∷ hubs) port_path =
    let later = find_hub_port hubs port_path in
    elim (find_port hub (list_of (get_key "ports" hub)) port_path) [
      | some p ↦ some p
      | none ↦ later
    ]

abbrev lower_codes : List ℕ → List ℕ
lower_codes [] = []
lower_codes (c ∷ cs) = lower c ∷ lower_codes cs

abbrev pub same_codes : List ℕ → List ℕ → Bool
same_codes [] [] = true
same_codes (a ∷ s) (b ∷ t) = a == b && same_codes s t
same_codes _ _ = false

-- None where the device is not powered by its bridge port, else the force flag.
unfoldable pub bridge_power_force : (power_control : Option String) → Option Bool
bridge_power_force power_control =
    let value : List ℕ =
      lower_codes (codes (strip (elim power_control [ some s ↦ s | none ↦ "" ]))) in
    if same_codes value (codes "bridge-port")
    then some false
    else if same_codes value (codes "bridge-port:force")
    then some true
    else none

unfoldable pub uses_bridge_port_power : (power_control hub_port_path : Option String) → Bool
unfolding bridge_power_force
uses_bridge_port_power power_control hub_port_path =
    not (is_null (bridge_power_force power_control)) && truthy hub_port_path

-- The ValueError is none.
unfoldable pub bridge_base_url : (addr : String) (api_url : Option String) → Option String
bridge_base_url addr api_url =
    let given : String = strip (elim api_url [ some s ↦ s | none ↦ "" ]) in
    let url : String = if is_empty given then strip addr else given in
    if is_empty url
    then none
    else some (
        rstrip_of (λ c. c == 47)
          (elim (find? url "://") [ some _ ↦ url | none ↦ "http://" <> url ]))
