-- ===== src/Telemetry/Client.antt =====
-- `Publisher::Impl`, publisher.cpp. libmosquitto is a parameter in the form of its answers: what
-- mosquitto_new gives, the result code of each call (0 is MOSQ_ERR_SUCCESS), and the connection
-- callbacks that its thread runs. The calls that reach it are recorded.
use optronic.Common.{
  ℕ, ◌+◌, ◌-◌, ◌%◌, ◌^◌, Bool, true, false, not, Option, none, some, List, [], ◌∷◌, ◌++◌, length,
  ◌==◌, if◌then◌else◌, ◌&&◌,
}
use optronic.Common.Int.{ℤ, pos, negsuc}
use optronic.Common.Text.{Text, codes}
use optronic.Core.Error.{mqtt_connect}
use optronic.Core.Expected.{Status, done, fail}
use optronic.Log.Record.{Level, info, warn}
use optronic.Telemetry.Payload.{
  View, HealthSample, SensorSample, LatencySample, DetectedObject, health_payload, sensor_payload,
  latency_payload, event_payload, detections_payload,
}

-- `g_lib_users`, and the calls of mosquitto_lib_init and mosquitto_lib_cleanup.
pub record Library : Type 0 where
  pub users : ℕ
  pub inits : ℕ
  pub cleanups : ℕ

unfoldable pub lib_ref : Library → Library
lib_ref l = record {
  users = l.users + 1;
  inits = if l.users == 0 then l.inits + 1 else l.inits;
  cleanups = l.cleanups;
}

unfoldable pub lib_unref : Library → Library
lib_unref l = record {
  users = l.users - 1;
  inits = l.inits;
  cleanups = if l.users - 1 == 0 then l.cleanups + 1 else l.cleanups;
}

pub record Message : Type 0 where
  pub topic : Text
  pub payload : View
  pub qos : ℕ
  pub retain : Bool

abbrev pub qos_periodic : ℕ
qos_periodic = 0

abbrev pub qos_event : ℕ
qos_event = 1

pub data Call : Type 0 where
  will_set : Message → Call
  reconnect_delay_set : ℕ → ℕ → Bool → Call
  connect_async : Text → ℕ → ℕ → Call
  loop_start : Call
  publish_call : Message → Call
  disconnect : Call
  loop_stop : Bool → Call

-- `calls` and `logged` are what reached the library and the logger, oldest first.
pub record Impl : Type 0 where
  pub name : Text
  pub host : Text
  pub port : ℕ
  pub client : Bool
  pub running : Bool
  pub connected : Bool
  pub warned : Bool
  pub published : ℕ
  pub failed : ℕ
  pub calls : List Call
  pub logged : List (Level × Text × Option ℤ)

pub record Stats : Type 0 where
  pub published : ℕ
  pub failed : ℕ
  pub connected : Bool

abbrev pub is_success : ℤ → Bool
is_success (pos n) = n == 0
is_success (negsuc n) = false

-- MOSQ_ERR_ERRNO
abbrev pub is_errno : ℤ → Bool
is_errno (pos n) = n == 14
is_errno (negsuc n) = false

unfoldable pub topic : Impl → Text → Text
topic i leaf = codes "optronic/" ++ i.name ++ codes "/" ++ leaf

abbrev pub call : Call → Impl → Impl
call c i = record i { calls = i.calls ++ c ∷ [] }

abbrev pub say : Level → Text → Option ℤ → Impl → Impl
say l t kv i = record i { logged = i.logged ++ (l, t, kv) ∷ [] }

-- A literal as a view.
abbrev pub literal : Text → View
literal t = record { buffer = t; size = length t }

abbrev pub offline : Text
offline = codes "{\"v\":1,\"state\":\"OFFLINE\"}"

unfoldable pub construct : Bool → ℤ → Impl → Status × Impl
unfolding topic
construct made will_rc i =
    if not made
    then (fail mqtt_connect "mosquitto_new", record i { client = false })
    else (let will : Message = record {
      topic = topic i (codes "health");
      payload = literal offline;
      qos = qos_periodic;
      retain = true;
    } in
        let i1 = call (will_set will) (record i { client = true }) in
        if not (is_success will_rc)
        then (fail mqtt_connect "mosquitto_will_set", i1)
        else (done, call (reconnect_delay_set 1 30 true) i1))

unfoldable pub start : ℤ → ℤ → Impl → Status × Impl
start connect_rc loop_rc i =
    let i1 = call (connect_async i.host i.port 60) i in
    let i2 =
      (if not (is_success connect_rc) && not (is_errno connect_rc)
        then say warn (codes "connect refused, will retry") none i1
        else i1) in
    let i3 = call loop_start i2 in
    if not (is_success loop_rc)
    then (fail mqtt_connect "mosquitto_loop_start", i3)
    else (done, record i3 { running = true })

abbrev pub unreachable : Text
unreachable = codes "publish failed - broker unreachable"

unfoldable pub publish : Text → View → ℕ → Bool → ℤ → Impl → Impl
unfolding topic
publish leaf payload qos retain rc i =
    if not i.client
    then i
    else (let m : Message = record {
      topic = topic i leaf;
      payload = payload;
      qos = qos;
      retain = retain;
    } in
        let i1 = call (publish_call m) i in
        if is_success rc
        then record i1 { published = (i1.published + 1) % 2 ^ 64 }
        else (let i2 = record i1 { failed = (i1.failed + 1) % 2 ^ 64; warned = true } in
            if not i1.warned then say warn unreachable (some rc) i2 else i2))

unfoldable pub stop : ℤ → Impl → Impl
unfolding publish
stop rc i =
    if not i.running
    then i
    else call (loop_stop false) (
        call disconnect (
          publish (codes "health") (literal offline) qos_periodic true rc
            (record i { running = false })))

unfoldable pub on_connect : ℤ → Impl → Impl
on_connect rc i =
    let i1 = record i { connected = is_success rc } in
    if is_success rc
    then say info (codes "connected to broker") none (record i1 { warned = false })
    else i1

unfoldable pub on_disconnect : Impl → Impl
on_disconnect i = record i { connected = false }

unfoldable pub stats : Impl → Stats
stats i = record { published = i.published; failed = i.failed; connected = i.connected }

-- The five publishing operations of `Publisher` send what the payload gives, if it gives anything.
abbrev pub send : Text → Option View → ℕ → Bool → ℤ → Impl → Impl
send leaf none qos retain rc i = i
send leaf (some v) qos retain rc i = publish leaf v qos retain rc i

abbrev pub publish_health : HealthSample → ℤ → Impl → Impl
publish_health s rc i = send (codes "health") (health_payload s) qos_periodic true rc i

abbrev pub publish_sensor : SensorSample → ℤ → Impl → Impl
publish_sensor s rc i = send (codes "sensor") (sensor_payload s) qos_periodic false rc i

abbrev pub publish_event : Text → ℕ → Text → ℤ → Impl → Impl
publish_event id code text rc i =
    send (codes "event") (event_payload id code text) qos_event false rc i

module _ (fixed2 : ℕ → Text) where
  abbrev pub publish_latency : LatencySample → ℤ → Impl → Impl
  publish_latency s rc i = send (codes "latency") (latency_payload fixed2 s) qos_periodic false rc i

  abbrev pub publish_detections : ℕ → List DetectedObject → ℤ → Impl → Impl
  publish_detections seq objects rc i =
      send (codes "detections") (detections_payload fixed2 seq objects) qos_periodic false rc i
