-- ===== src/Loop.antt =====
-- The main loop of emmbus2influx.cpp: `mqttSendData`, and what a round does with the values that were
-- read. `none` is the end of the program by `exit`, or a store outside a block.
pub mod Mqtt
mod Examples
use emmbus2influx.Base.{
  ℕ, ◌+◌, ◌-◌, ◌==◌, ◌&&◌, not, Bool, true, false, Option, none, some, List, [], ◌∷◌, ◌++◌, map,
  if◌then◌else◌, Bytes, ℤ, pos, negsuc, is_zero, Run, ok, ret, fault, ◌>>=◌, ltb,
}
use emmbus2influx.Meter.Floats.{Floats}
use emmbus2influx.Meter.{Meter}
use emmbus2influx.Meter.Connections.{Connection}
use emmbus2influx.Meter.Query.{Bus, Formulas}
use emmbus2influx.Cron.{CronLibrary, CronDef, Site, cron_query_meters}
use emmbus2influx.Influx.Line.{Line}
use emmbus2influx.Influx.Queue.{
  InfluxClient, Outcome, with_line, free_client_buffer, post_http_line,
}
use emmbus2influx.Mqtt.{MqttLibrary, Publisher, text_of, mqtt_pub_strf}
use emmbus2influx.Writer.{append_rows, written}
use emmbus2influx.Writer.Grafana.{grafana_append_data, grafana_counted}
use emmbus2influx.Writer.Mqtt.{items, initial_buffer_len, Building, mqtt_text}

-- what the loop is set up with, beside the libraries
pub record Setup (D : Type 0) : Type 0 where
  pub alloc : ℕ → Bool
  -- the texts of a number: of `%f` with its precision, and padded, as MQTT has it
  pub print_float : ℤ → D → Bytes
  pub format_float : ℤ → D → Bytes
  -- `vsnprintf` with no arguments
  pub vformat : Bytes → Option Bytes
  pub influx_measurement : Bytes
  pub influx_tag_name : Bytes
  -- `gUseInfluxMeasurement`
  pub use_measurement : Bool
  -- for `mqtt_pub_connect`
  pub fuel : ℕ

-- the meters and the three senders
pub record Senders (W Client D : Type 0) : Type 0 where
  pub meters : List (Meter D)
  pub influx : Option InfluxClient
  pub grafana : Option InfluxClient
  pub mqtt : Option (Publisher Client)
  pub world : W

abbrev pub run_option {ℓ} : {S : Type ℓ} → Run S → Option S
run_option (ok s) = some s
run_option (ret r s) = none
run_option fault = none

infixl 5 ◌>>=?◌
abbrev pub ◌>>=?◌ {ℓ κ} : {A : Type ℓ} {B : Type κ} → Option A → (A → Option B) → Option B
none >>=? f = none
some a >>=? f = f a

module _ {W Client D : Type 0} (F : Floats D) (S : Setup D) (L : MqttLibrary W Client)
    (send_influx send_grafana : Bytes → W → ℤ × W) where
  open S use {
    alloc, print_float, format_float, vformat, influx_measurement, influx_tag_name, use_measurement,
    fuel,
  }

  abbrev pub with_prefix : Publisher Client → Option Bytes → Publisher Client
  with_prefix m prefix = record m { topic_prefix = prefix }

  -- the publishing of a text, with the prefix of the meter for its time
  unfoldable pub publish_text :
      Meter D → Publisher Client → Bytes → W → Option (ℤ × Publisher Client × W)
  unfolding mqtt_pub_strf
  publish_text m client text w =
      elim (mqtt_pub_strf L alloc vformat fuel (with_prefix client m.mqttprefix) (text_of m.name) 0
        m.mqtt_qos m.mqtt_retain text w) [
          | none ↦ none
          | some (rc, client', w') ↦ some (rc, with_prefix client' none, w')
        ]

  -- `mqttSendData`
  unfoldable pub mqtt_send_data :
      Bool → Meter D → Publisher Client → W → Option (ℤ × Publisher Client × W)
  unfolding publish_text mqtt_text
  mqtt_send_data dryrun m client w =
      if not (is_zero m.disabled)
      then some (pos 0, client, w)
      else if is_zero m.num_enabled_registers_mqtt
      then some (pos 0, client, w)
      else if not (alloc initial_buffer_len)
      then some (negsuc 0, client, w)
      else elim (mqtt_text alloc (items F format_float m)) [
        | ok b ↦ if dryrun then some (pos 0, client, w) else publish_text m client b.str.dest w
        | ret r b ↦ none
        | fault ↦ none
      ]

  -- the loop over the meters for MQTT
  unfoldable pub mqtt_send_all :
      Bool → List (Meter D) → Publisher Client → W → Option (Publisher Client × W)
  unfolding mqtt_send_data
  mqtt_send_all dryrun [] client w = some (client, w)
  mqtt_send_all dryrun (m ∷ rest) client w =
      mqtt_send_data dryrun m client w >>=? λ r. mqtt_send_all dryrun rest r.1 r.2

  -- the loop over the meters for Grafana
  unfoldable pub append_grafana : ℤ → List (Meter D) → ℤ → Line → Run Line
  unfolding grafana_append_data
  append_grafana now [] time l = ok l
  append_grafana now (m ∷ rest) time l =
      (if is_zero m.disabled
        then grafana_append_data F use_measurement influx_measurement alloc print_float now m time l
        else ok l)
      >>= append_grafana now rest time

  -- what is done with the buffer of a client, if there is anything to be posted: for a dry run it is
  -- freed, else it is posted, and a code other than 0 is only reported
  unfoldable pub post_buffer :
      Bool → Bool → (Bytes → W → ℤ × W) → InfluxClient → W → Option (InfluxClient × W)
  unfolding post_http_line free_client_buffer
  post_buffer dryrun filled send c w =
      if not filled
      then some (c, w)
      else if dryrun
      then some (free_client_buffer c, w)
      else post_http_line send alloc c w >>=? λ r. some (r.1, r.2)

  abbrev pub has_block : InfluxClient → Bool
  has_block c = elim c.influx_buf [ none ↦ false | some b ↦ true ]

  -- the part of a round for InfluxDB
  unfoldable pub write_influx : Bool → ℤ → ℤ → Senders W Client D → Option (Senders W Client D)
  unfolding append_rows written post_buffer free_client_buffer
  write_influx dryrun now time s = elim s.influx [
    | none ↦ some s
    | some c ↦
        let freed = free_client_buffer c in
        run_option (
          append_rows F influx_measurement influx_tag_name alloc print_float now s.meters time
            freed.line)
        >>=? λ l.
            post_buffer dryrun (has_block (with_line freed l)) send_influx (with_line freed l)
              s.world
            >>=? λ r.
                some (record s { meters = map written s.meters; influx = some r.0; world = r.1 })
  ]

  -- the part of a round for Grafana
  unfoldable pub write_grafana : Bool → ℤ → ℤ → Senders W Client D → Option (Senders W Client D)
  unfolding append_grafana grafana_counted post_buffer free_client_buffer
  write_grafana dryrun now time s =
      let counted : Meter D → Meter D = λ m.
        if is_zero m.disabled && not (is_zero m.num_enabled_registers_grafana)
        then grafana_counted F use_measurement influx_measurement m
        else m in
      elim s.grafana [
        | none ↦ some s
        | some c ↦
            let freed = free_client_buffer c in
            run_option (append_grafana now s.meters time freed.line) >>=? λ l.
            post_buffer dryrun (not (l.influx_buf_len == 0)) send_grafana (with_line freed l)
              s.world
            >>=? λ r.
                some (record s { meters = map counted s.meters; grafana = some r.0; world = r.1 })
      ]

  -- the part of a round for MQTT
  unfoldable pub write_mqtt : Bool → Senders W Client D → Option (Senders W Client D)
  unfolding mqtt_send_all
  write_mqtt dryrun s = elim s.mqtt [
    | none ↦ some s
    | some client ↦ mqtt_send_all dryrun s.meters client s.world >>=? λ r.
        some (record s { mqtt = some r.0; world = r.1 })
  ]

  -- a round in which meters were queried; the times are those of the two timestamps
  unfoldable pub write_all_senders :
      Bool → ℤ → ℤ → ℤ → Senders W Client D → Option (Senders W Client D)
  unfolding write_influx write_grafana write_mqtt
  write_all_senders dryrun now time_influx time_grafana s =
      write_influx dryrun now time_influx s
      >>=? write_grafana dryrun now time_grafana
      >>=? write_mqtt dryrun
