-- ===== src/Meter/Samples.antt =====
-- Data for concrete runs: a meter with one register, numbers in place of `double`, and a bus.
use emmbus2influx.Base.{map}
use emmbus2influx.Base.{
  ℕ, suc, ◌+◌, ◌/◌, true, false, none, some, [], ◌∷◌, ltb, codes, pos, negsuc, length, arith,
}
use emmbus2influx.Meter.Floats.{Floats, IsOrdered}
use emmbus2influx.Meter.Connections.{Mbus, Connection}
use emmbus2influx.Meter.Query.{Bus, Formulas, data_variable, World}
use emmbus2influx.Meter.{force_none, pr_max, MeterRegister, Meter}

abbrev pub numbers : Floats ℕ
numbers = record {
  zero_value = 0;
  less = ltb;
  divide = λ a d. a;
  times = λ a d. a;
  half_sum = λ a b. (a + b) / 2;
  of_text = length;
  to_int = pos;
}

pub numbers-IsOrdered : IsOrdered numbers
numbers-IsOrdered = record {
  irreflexive = λ a. ground arith;
  negative_trans = λ a b c h k. ground arith;
  asymmetric = λ a b h. ground arith;
}

abbrev pub power_register : MeterRegister
power_register = record {
  name = codes "power";
  is_formula_only = false;
  formula = none;
  record_number = pos 0;
  type = 0;
  divider = pos 0;
  multiplier = pos 0;
  force_type = force_none;
  array_name = none;
  decimals = pos 0;
  enable_influx_write = pos 1;
  enable_mqtt_write = pos 1;
  enable_grafana_write = pos 0;
  influx_mult_processing = pr_max;
}

-- A meter that is written after three queries, as it is after a write.
abbrev pub power_meter : Meter ℕ
power_meter = record {
  disabled = pos 0;
  register_read =
      (record {
        register_def = power_register;
        fvalue_influx = 9;
        fvalue = 9;
        fvalue_influx_last = 9;
        is_int = false;
        has_been_read = false;
      })
      ∷ [];
  meter_type = none;
  is_formula_only = false;
  mbus_address = 5;
  mbus_id = pos 0;
  name = some (codes "heat");
  iname = none;
  gname = none;
  meter_has_been_read = 0;
  has_schedule = 0;
  is_due = 0;
  mb = true;
  is_tcp = false;
  hostname = none;
  port = none;
  influx_measurement = none;
  influx_tag_name = none;
  meter_formula = [];
  num_enabled_registers_mqtt = pos 1;
  num_enabled_registers_influx = pos 1;
  num_enabled_registers_grafana = pos 0;
  mqtt_qos = pos 0;
  mqtt_retain = pos 0;
  mqttprefix = none;
  influx_write_mult = pos 3;
  influx_write_countdown = pos 3;
  num_queries = 0;
  num_errs = 0;
  num_grafana_writes = 0;
}

-- A gateway that cannot be reached; the state counts the calls.
abbrev pub unreachable : Mbus ℕ ℕ
unreachable = record {
  context_tcp = λ host port w. (some 1, suc w);
  connect = λ mb w. (negsuc 0, suc w);
}

-- A bus on which every request is answered by one record.
abbrev pub answering : Bus ℕ ℕ ℕ ℕ
answering = record {
  mbus = unreachable;
  send_request_frame = λ mb address w. (pos 0, suc w);
  recv_frame = λ mb frame w. (pos 0, 7, suc w);
  frame_data_parse = λ frame. (pos 0, data_variable (codes "12" ∷ []));
  is_error_frame = λ frame. false;
  garbage = 0;
}

abbrev pub no_formulas : Formulas ℕ
no_formulas = record {
  can_define = λ names. true;
  eval = λ vars text. none;
  assigned = λ vars text. map (λ v. v.1) vars;
}

abbrev pub power_world : World ℕ ℕ ℕ
power_world = record { meter = power_meter; connections = []; bus = 0 }

abbrev pub gateway : Connection ℕ
gateway = record {
  hostname = codes "gw";
  port = codes "502";
  mb = 1;
  is_connected = false;
  retry_count = 0;
}
