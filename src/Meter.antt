-- ===== src/Meter.antt =====
-- The data of meters and meter types, meterDef.h, and the values that a meter keeps of each
-- register, mbusread.cpp.
pub mod Floats
pub mod Values
pub mod Window
pub mod Connections
pub mod Query
pub mod Places
pub mod GlobalFormulas
pub mod Probe
pub mod RecordType
pub mod Samples
mod Examples
use emmbus2influx.Base.{ℕ, Bool, Option, List, Bytes, ℤ}

-- `typeForce_t`
pub data TypeForce : Type 0 where
  force_none force_int force_float : TypeForce

-- `influxMultProcessing_t`
pub data InfluxMultProcessing : Type 0 where
  pr_last pr_max pr_min pr_avg : InfluxMultProcessing

-- `meterRegister_t`; the `next` pointers are lists
pub record MeterRegister : Type 0 where
  pub name : Bytes
  pub is_formula_only : Bool
  pub formula : Option Bytes
  pub record_number : ℤ
  pub type : ℕ
  pub divider : ℤ
  pub multiplier : ℤ
  pub force_type : TypeForce
  pub array_name : Option Bytes
  pub decimals : ℤ
  pub enable_influx_write : ℤ
  pub enable_mqtt_write : ℤ
  pub enable_grafana_write : ℤ
  pub influx_mult_processing : InfluxMultProcessing

-- `meterType_t`
pub record MeterType : Type 0 where
  pub name : Option Bytes
  pub is_formula_only : Bool
  pub meter_registers : List MeterRegister
  pub num_enabled_registers_mqtt : ℤ
  pub num_enabled_registers_influx : ℤ
  pub num_enabled_registers_grafana : ℤ
  pub mqtt_qos : ℤ
  pub mqtt_retain : ℤ
  pub mqttprefix : Option Bytes
  pub influx_measurement : Option Bytes
  pub influx_write_mult : ℤ

-- `meterRegisterRead_t`, over the type of `double`
pub record MeterRegisterRead (D : Type 0) : Type 0 where
  pub register_def : MeterRegister
  pub fvalue_influx : D
  pub fvalue : D
  pub fvalue_influx_last : D
  pub is_int : Bool
  pub has_been_read : Bool

-- `meterFormula_t`
pub record MeterFormula (D : Type 0) : Type 0 where
  pub name : Bytes
  pub formula : Bytes
  pub force_type : TypeForce
  pub array_name : Option Bytes
  pub decimals : ℤ
  pub enable_influx_write : ℤ
  pub enable_mqtt_write : ℤ
  pub enable_grafana_write : ℤ
  pub fvalue : D
  pub fvalue_influx : D
  pub fvalue_influx_last : D
  pub influx_mult_processing : InfluxMultProcessing

-- `meter_t`; `mb` is whether the handle is set
pub record Meter (D : Type 0) : Type 0 where
  pub disabled : ℤ
  pub register_read : List (MeterRegisterRead D)
  pub meter_type : Option MeterType
  pub is_formula_only : Bool
  pub mbus_address : ℕ
  pub mbus_id : ℤ
  pub name : Option Bytes
  pub iname : Option Bytes
  pub gname : Option Bytes
  pub meter_has_been_read : ℕ
  pub has_schedule : ℕ
  pub is_due : ℕ
  pub mb : Bool
  pub is_tcp : Bool
  pub hostname : Option Bytes
  pub port : Option Bytes
  pub influx_measurement : Option Bytes
  pub influx_tag_name : Option Bytes
  pub meter_formula : List (MeterFormula D)
  pub num_enabled_registers_mqtt : ℤ
  pub num_enabled_registers_influx : ℤ
  pub num_enabled_registers_grafana : ℤ
  pub mqtt_qos : ℤ
  pub mqtt_retain : ℤ
  pub mqttprefix : Option Bytes
  pub influx_write_mult : ℤ
  pub influx_write_countdown : ℤ
  pub num_queries : ℕ
  pub num_errs : ℕ
  pub num_grafana_writes : ℕ
