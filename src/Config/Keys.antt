-- ===== src/Config/Keys.antt =====
-- The tokens of the configuration file: the constants of meterDef.h.
use emmbus2influx.Base.{ℤ, pos}

abbrev pub t_typefirst : ℤ
t_typefirst = pos 300

abbrev pub tk_float : ℤ
tk_float = pos 300

abbrev pub tk_int16 : ℤ
tk_int16 = pos 304

abbrev pub t_typelast : ℤ
t_typelast = pos 317

abbrev pub tk_regoptifirst : ℤ
tk_regoptifirst = pos 500

abbrev pub tk_dec : ℤ
tk_dec = pos 500

abbrev pub tk_div : ℤ
tk_div = pos 501

abbrev pub tk_mul : ℤ
tk_mul = pos 502

abbrev pub tk_mqtt : ℤ
tk_mqtt = pos 504

abbrev pub tk_influx : ℤ
tk_influx = pos 505

abbrev pub tk_grafana : ℤ
tk_grafana = pos 506

abbrev pub tk_regoptilast : ℤ
tk_regoptilast = pos 549

abbrev pub tk_regoptsfirst : ℤ
tk_regoptsfirst = pos 550

abbrev pub tk_array : ℤ
tk_array = pos 550

abbrev pub tk_formula : ℤ
tk_formula = pos 551

abbrev pub tk_mqttprefix : ℤ
tk_mqttprefix = pos 552

abbrev pub tk_regoptslast : ℤ
tk_regoptslast = pos 599

abbrev pub tk_name : ℤ
tk_name = pos 600

abbrev pub tk_type : ℤ
tk_type = pos 602

abbrev pub tk_address : ℤ
tk_address = pos 603

abbrev pub tk_hostname : ℤ
tk_hostname = pos 604

abbrev pub tk_force : ℤ
tk_force = pos 605

abbrev pub tk_measurement : ℤ
tk_measurement = pos 606

abbrev pub tk_port : ℤ
tk_port = pos 607

abbrev pub tk_id : ℤ
tk_id = pos 609

abbrev pub tk_disable : ℤ
tk_disable = pos 615

abbrev pub tk_mqttqos : ℤ
tk_mqttqos = pos 616

abbrev pub tk_mqttretain : ℤ
tk_mqttretain = pos 617

abbrev pub tk_influxwritemult : ℤ
tk_influxwritemult = pos 618

abbrev pub tk_imax : ℤ
tk_imax = pos 619

abbrev pub tk_imin : ℤ
tk_imin = pos 620

abbrev pub tk_iavg : ℤ
tk_iavg = pos 621

abbrev pub tk_default : ℤ
tk_default = pos 625

abbrev pub tk_schedule : ℤ
tk_schedule = pos 626

abbrev pub tk_iname : ℤ
tk_iname = pos 627

abbrev pub tk_gname : ℤ
tk_gname = pos 630
