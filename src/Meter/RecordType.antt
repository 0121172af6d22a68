-- ===== src/Meter/RecordType.antt =====
-- The name of the type of a record: `mbus_data_record_type` of mbusread.cpp. A byte is a number
-- below 256; a mask of low bits is a remainder.
use emmbus2influx.Base.{
  ℕ, ◌%◌, ◌==◌, ◌&&◌, ◌||◌, Bool, Option, none, some, if◌then◌else◌, Bytes, codes,
}

-- `dif`, `vif` and `vife[0]` of a record
pub record DataRecord : Type 0 where
  pub dif : ℕ
  pub vif : ℕ
  pub vife : ℕ

abbrev pub is_date_time : DataRecord → Bool
is_date_time r =
    r.vif % 128 == 0x6d
    || (r.vif == 0xfd && r.vife % 128 == 0x30)
    || (r.vif == 0xfd && r.vife % 128 == 0x70)

-- the switch on the low bits of `dif`
unfoldable pub type_name : ℕ → DataRecord → Bytes
type_name code r =
    if code == 0x00
    then codes "no data"
    else if code == 0x01
    then codes "int8_t"
    else if code == 0x02
    then (if r.vif % 128 == 0x6c then codes "time16_t" else codes "int8_t")
    else if code == 0x03
    then codes "int24_t"
    else if code == 0x04
    then (if is_date_time r then codes "time32_t" else codes "int32_t")
    else if code == 0x05
    then codes "float32_t"
    else if code == 0x06
    then (if is_date_time r then codes "time48_t" else codes "int48_t")
    else if code == 0x07
    then codes "int64_t"
    else if code == 0x09
    then codes "bcd8_t"
    else if code == 0x0a
    then codes "bcd16_t"
    else if code == 0x0b
    then codes "bcd24_t"
    else if code == 0x0c
    then codes "bcd32_t"
    else if code == 0x0d
    then codes "string_t"
    else if code == 0x0e
    then codes "bcd48_t"
    else if code == 0x0f
    then codes "binary_t"
    else codes "unknown"

-- `mbus_data_record_type`; `none` is a null pointer
unfoldable pub mbus_data_record_type : Option DataRecord → Bytes
unfolding type_name
mbus_data_record_type none = codes "unknown"
mbus_data_record_type (some r) = type_name (r.dif % 16) r
